-- ===== src/YzjCli/Poll.antt =====
-- internal/yzjcli/watcher.go, pollOnce: one round of a watcher.
use yzj_bot_bridge.Prelude.{
  ℕ, ◌-◌, String, ◌≡◌, Bool, true, false, not, ◌||◌, none, some, List, [], ◌∷◌, ◌++◌, arith, ltb,
  leb, ◌==◌, if◌then◌else◌, length, trim_space, equal_fold,
}
use yzj_bot_bridge.YzjCli.State.{GroupState, put_state, update_state, stored}
use yzj_bot_bridge.YzjCli.Message.{Message}
use yzj_bot_bridge.YzjCli.Watcher.{
  Watcher, Answer, page, failed, Env, Output, note_error, gathered, gather_failed, gather, dispatch,
}

-- More than five minutes have passed since the last throttle.
unfoldable pub quiet : ℕ → Watcher → Bool
quiet now w = elim w.last_throttle [ none ↦ false | some t ↦ ltb 300 (now - t) ]

-- What a page that arrives resets.
unfoldable pub polled : ℕ → Watcher → Watcher
unfolding quiet
polled now w = record w {
  last_poll = now;
  last_err = "";
  auth_fails = 0;
  backoff = if quiet now w then 0 else w.backoff;
}

unfoldable pub last_msg : Message → List Message → Message
last_msg m [] = m
last_msg m (m' ∷ ms) = last_msg m' ms

-- The cursor on a message.
abbrev pub on_cursor : Message → GroupState → GroupState
on_cursor m st = record st { last_msg_id = m.msg_id; last_send_time = m.send_time }

unfoldable pub advance : Env → Message → Watcher → Watcher
advance env newest w = record w { store = update_state env.now w.key (on_cursor newest) w.store }

-- The first run: the cursor is set, and the page is handed out in the mode "replay" only.
unfoldable pub baseline : Env → List Message → Message → Watcher → Watcher × List Output
baseline env ms newest w =
    let w1 : Watcher = record w {
      store = put_state env.now w.key (on_cursor newest (stored w.store w.key)) w.store;
    } in
    if equal_fold (trim_space w.startup_mode) "replay" then dispatch env ms w1 else (w1, [])

-- From the cursor on.
unfoldable pub catch_up : Env → List Message → Message → String → Watcher → Watcher × List Output
unfolding advance
catch_up env ms newest cursor w = elim (gather w env.old ms cursor) [
  | gather_failed e text ↦ note_error env.now e text w
  | gathered new true ↦ let (w', out) = dispatch env new w in (advance env newest w', out)
  | gathered new false ↦
      (advance env newest (record w { last_err = env.skip_text cursor (length new) }), [])
]

-- A page that is not empty, given with its newest message.
unfoldable pub on_page : Env → List Message → Message → Watcher → Watcher × List Output
unfolding baseline catch_up
on_page env ms newest w =
    let cursor = (stored w.store w.key).last_msg_id in
    if trim_space cursor == ""
    then baseline env ms newest w
    else (if cursor == newest.msg_id then (w, []) else catch_up env ms newest cursor w)

unfoldable pub on_answer : Env → Answer → Watcher → Watcher × List Output
unfolding on_page polled
on_answer env (failed e text) w = note_error env.now e text w
on_answer env (page []) w = (polled env.now w, [])
on_answer env (page (m ∷ ms)) w = on_page env (m ∷ ms) (last_msg m ms) (polled env.now w)

-- waitSharedPoll: a cooldown that is over needs no wait.
unfoldable pub wait_shared_poll : Env → Watcher → Bool
wait_shared_poll env w = leb w.cooldown_until env.begun || not env.done

pub wait_shared_poll_goes :
    (env : Env) (w : Watcher) → env.done ≡ false → wait_shared_poll env w ≡ true
unfolding wait_shared_poll
wait_shared_poll_goes env w h = ground (arith, h)

-- pollOnce
unfoldable pub poll_once : Env → Watcher → Watcher × List Output
unfolding on_answer
poll_once env w = if wait_shared_poll env w then on_answer env env.newest w else (w, [])

-- The rounds of the loop, one after the other.
unfoldable pub poll_all : List Env → Watcher → Watcher × List Output
unfolding poll_once
poll_all [] w = (w, [])
poll_all (env ∷ envs) w =
    let (w', out) = poll_once env w in let (w'', outs) = poll_all envs w' in (w'', out ++ outs)
