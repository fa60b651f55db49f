-- ===== src/YzjCli/Watcher.antt =====
-- internal/yzjcli/watcher.go: the polling of one group. What the tool answers, the clock and the
-- parser of send times are arguments; times are seconds. The state is that of the watcher, the store
-- of cursors and the cooldown that all watchers share.
use yzj_bot_bridge.Prelude.{
  ℕ, zero, suc, ◌+◌, ◌*◌, String, Bool, true, false, ◌&&◌, ◌||◌, Option, none, some, List, [], ◌∷◌,
  ◌++◌, ltb, leb, nat_eq, ◌==◌, if◌then◌else◌, length, drop,
}
use yzj_bot_bridge.YzjCli.Errors.{PollError, is_auth_error, is_rate_limited}
use yzj_bot_bridge.YzjCli.State.{
  GroupState, StateStore, update_state, stored, has_recent, append_recent,
}
use yzj_bot_bridge.YzjCli.Message.{Message, is_recall}

pub record Watcher : Type 0 where
  pub key : String
  pub catchup_pages : ℕ
  pub startup_mode : String
  pub enabled : Bool
  pub cancel : Bool  -- a polling loop runs, and can be cancelled
  pub last_poll : ℕ
  pub last_msg_at : ℕ
  pub last_err : String
  pub auth_fails : ℕ
  pub backoff : ℕ
  pub last_throttle : Option ℕ
  pub store : StateStore
  pub cooldown_until : ℕ  -- sharedPollCooldown.until

-- A page of messages, or the error of the call with its text.
pub data Answer : Type 0 where
  page : List Message → Answer
  failed : PollError → String → Answer

-- What a poll meets: the time it begins at, whether the context ends before the shared cooldown is over,
-- the time after the wait, the newest page, the older page for an anchor, and the value of a send time that can be read.
pub record Env : Type 0 where
  pub begun : ℕ
  pub done : Bool
  pub now : ℕ
  pub newest : Answer
  pub old : String → Answer
  pub send_time_value : String → Option ℕ
  pub skip_text : String → ℕ → String  -- the text noted when the cursor is not found

-- What a poll hands out: messages to OnMessage, or the call of OnAuthGiveUp.
pub data Output : Type 0 where
  on_message : Message → Output
  on_auth_give_up : String → String → Output

-- SetEnabled
unfoldable pub set_enabled : Bool → Watcher → Watcher
set_enabled true w = if w.enabled then w else record w { enabled = true; cancel = true }
set_enabled false w = if w.enabled then record w { enabled = false; cancel = false } else w

-- noteSharedThrottle
unfoldable pub note_shared_throttle : ℕ → Watcher → Watcher
note_shared_throttle now w = record w {
  cooldown_until = if ltb w.cooldown_until (now + 30) then now + 30 else w.cooldown_until;
}

-- The next backoff: 30 seconds, then twice the last one, 5 minutes at most.
unfoldable pub next_backoff : ℕ → ℕ
next_backoff b = let next = if ltb 0 b then b * 2 else 30 in if ltb 300 next then 300 else next

unfoldable pub throttled : ℕ → Watcher → Watcher
unfolding note_shared_throttle next_backoff
throttled now w = record (note_shared_throttle now w) {
  backoff = next_backoff w.backoff;
  last_throttle = some now;
}

-- The three parts of noteError: the throttle, the count of failed logins, and the give-up.
unfoldable pub note_throttle : ℕ → PollError → Watcher → Watcher
unfolding throttled
note_throttle now e w = if is_rate_limited e then throttled now w else w

unfoldable pub count_auth : PollError → Watcher → Watcher
count_auth e w = if is_auth_error e then record w { auth_fails = w.auth_fails + 1 } else w

unfoldable pub give_up : PollError → String → Watcher → Watcher × List Output
unfolding set_enabled
give_up e text w =
    if is_auth_error e && leb 3 w.auth_fails
    then (set_enabled false w, on_auth_give_up w.key text ∷ [])
    else (w, [])

-- noteError
unfoldable pub note_error : ℕ → PollError → String → Watcher → Watcher × List Output
unfolding note_throttle count_auth give_up
note_error now e text w =
    give_up e text (count_auth e (note_throttle now e (record w { last_err = text })))

-- indexOfMsg: the last place of the id.
unfoldable pub index_of_msg : List Message → String → Option ℕ
index_of_msg [] id = none
index_of_msg (m ∷ ms) id = elim (index_of_msg ms id) [
  | none ↦ if m.msg_id == id then some 0 else none
  | some i ↦ some (suc i)
]

-- The loop of dedupeMsgs over the ids that it has kept so far.
unfoldable pub dedupe_from : List String → List Message → List Message
dedupe_from seen [] = []
dedupe_from seen (m ∷ ms) =
    let skip = dedupe_from seen ms in
    let keep = m ∷ dedupe_from (m.msg_id ∷ seen) ms in
    if m.msg_id == "" || has_recent seen m.msg_id then skip else keep

-- dedupeMsgs
unfoldable pub dedupe_msgs : List Message → List Message
unfolding dedupe_from
dedupe_msgs ms = dedupe_from [] ms

-- What gather returns: the new messages and whether the cursor was found, or the error of a call.
pub data Gathered : Type 0 where
  gathered : List Message → Bool → Gathered
  gather_failed : PollError → String → Gathered

unfoldable pub first_id : List Message → String
first_id [] = ""
first_id (m ∷ ms) = m.msg_id

-- The loop of gather over the older pages; `rounds` is what is left of the budget.
unfoldable pub gather_older :
    (String → Answer) → String → List Message → ℕ → String → List Message → Gathered
gather_older old cursor newest zero anchor older = gathered (dedupe_msgs (older ++ newest)) false
gather_older old cursor newest (suc rounds) anchor older = elim (old anchor) [
  | failed e text ↦ gather_failed e text
  | page prev ↦
      let further = gather_older old cursor newest rounds (first_id prev) (prev ++ older) in
      let found_or_on : Gathered = elim (index_of_msg prev cursor) [
        | some i ↦ gathered (dedupe_msgs ((drop (suc i) prev ++ older) ++ newest)) true
        | none ↦
            if ltb (length prev) 20
            then gathered (dedupe_msgs ((prev ++ older) ++ newest)) false
            else further
      ] in
      if nat_eq (length prev) 0 then gathered (dedupe_msgs (older ++ newest)) false else found_or_on
]

-- The budget of older pages; one below 1 means 3.
abbrev pub catchup : ℕ → ℕ
catchup pages = if nat_eq pages 0 then 3 else pages

-- gather
unfoldable pub gather : Watcher → (String → Answer) → List Message → String → Gathered
unfolding gather_older dedupe_msgs
gather w old newest cursor = elim (index_of_msg newest cursor) [
  | some i ↦ gathered (dedupe_msgs (drop (suc i) newest)) true
  | none ↦ gather_older old cursor newest (catchup w.catchup_pages) (first_id newest) []
]

-- What handling a message writes to the store.
unfoldable pub handled : Message → GroupState → GroupState
handled m st = record st {
  recent_msg_ids = append_recent st.recent_msg_ids m.msg_id 200;
  last_msg_id = m.msg_id;
  last_send_time = m.send_time;
}

-- The loop body of dispatch.
unfoldable pub dispatch_one : Env → Message → Watcher → Watcher × List Output
unfolding handled
dispatch_one env m w =
    if is_recall m || has_recent (stored w.store w.key).recent_msg_ids m.msg_id then (w, []) else (
      record w {
        last_msg_at = elim (env.send_time_value m.send_time) [ none ↦ w.last_msg_at | some t ↦ t ];
        store = update_state env.now w.key (handled m) w.store;
      },
      on_message m ∷ [],
    )

-- dispatch
unfoldable pub dispatch : Env → List Message → Watcher → Watcher × List Output
unfolding dispatch_one
dispatch env [] w = (w, [])
dispatch env (m ∷ ms) w =
    let (w', out) = dispatch_one env m w in
    let (w'', outs) = dispatch env ms w' in (w'', out ++ outs)
