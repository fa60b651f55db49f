-- ===== src/YzjCli/Rounds.antt =====
-- Whole rounds of a watcher on their error paths.
use mathlib.Core.Path.{subst}
use yzj_bot_bridge.Prelude.{
  ℕ, suc, ◌≤◌, String, ◌≡◌, refl, sym, ap, ◌≢◌, ◌⊎◌, inl, inr, true, false, none, List, [], ◌∷◌,
  ◌++◌, arith, ltb, nat_eq, ◌==◌, if◌then◌else◌, Bool-cases, ==_of_ne, length, trim_space,
  equal_fold,
}
use yzj_bot_bridge.YzjCli.Errors.{PollError}
use yzj_bot_bridge.YzjCli.State.{stored, put_state}
use yzj_bot_bridge.YzjCli.Message.{Message}
use yzj_bot_bridge.YzjCli.Watcher.{
  Watcher, Answer, page, failed, Env, Output, gather_failed, gather, gather_older, first_id,
  catchup, index_of_msg,
}
use yzj_bot_bridge.YzjCli.Poll.{
  poll_once, wait_shared_poll, polled, on_answer, on_page, catch_up, last_msg, baseline, on_cursor,
}
use yzj_bot_bridge.YzjCli.Throttle.{
  messages, Paced, note_error_quiet, dispatch_backoff, note_error-Paced, polled-Paced,
  catch_up-Paced,
}

abbrev based : Env → Message → Watcher → Watcher
based env newest w = record w {
  store = put_state env.now w.key (on_cursor newest (stored w.store w.key)) w.store;
}

baseline-Paced :
    (env : Env) (ms : List Message) (newest : Message) (w : Watcher)
    → Paced w
    → Paced (baseline env ms newest w).0
unfolding baseline
baseline-Paced env ms newest w paced =
    elim (Bool-cases (equal_fold (trim_space w.startup_mode) "replay")) [
      | inl replay ↦
          rw (baseline, replay)
            (subst (λ b. (b ≡ 0) ⊎ (30 ≤ b × b ≤ 300))
              (sym (dispatch_backoff env ms (based env newest w))) paced)
      | inr plain ↦ rw (baseline, plain) paced
    ]

on_page-Paced :
    (env : Env) (ms : List Message) (newest : Message) (w : Watcher)
    → Paced w
    → Paced (on_page env ms newest w).0
unfolding on_page
on_page-Paced env ms newest w paced =
    elim (Bool-cases (trim_space (stored w.store w.key).last_msg_id == "")) [
      | inl blank ↦ rw (on_page, blank) (baseline-Paced env ms newest w paced)
      | inr set ↦ elim (Bool-cases ((stored w.store w.key).last_msg_id == newest.msg_id)) [
        | inl same ↦ rw (on_page, set, same) paced
        | inr behind_it ↦
            rw (on_page, set, behind_it)
              (catch_up-Paced env ms newest (stored w.store w.key).last_msg_id w paced
                (gather w env.old ms (stored w.store w.key).last_msg_id) refl)
      ]
    ]

on_answer-Paced : (env : Env) (a : Answer) (w : Watcher) → Paced w → Paced (on_answer env a w).0
unfolding on_answer
on_answer-Paced env (failed e text) w paced = note_error-Paced env.now e text w paced
on_answer-Paced env (page []) w paced = polled-Paced env.now w paced
on_answer-Paced env (page (m ∷ ms)) w paced =
    on_page-Paced env (m ∷ ms) (last_msg m ms) (polled env.now w) (polled-Paced env.now w paced)

poll_once-goes :
    (env : Env) (w : Watcher)
    → wait_shared_poll env w ≡ true
    → poll_once env w ≡ on_answer env env.newest w
unfolding poll_once
poll_once-goes env w goes = ap (λ d. if d then on_answer env env.newest w else (w, [])) goes

poll_once-over :
    (env : Env) (w : Watcher) → wait_shared_poll env w ≡ false → poll_once env w ≡ (w, [])
unfolding poll_once
poll_once-over env w over = ap (λ d. if d then on_answer env env.newest w else (w, [])) over

-- Whatever the tool answers, a backoff that is 0 or between 30 seconds and 5 minutes stays so.
pub poll_once-Paced : (env : Env) (w : Watcher) → Paced w → Paced (poll_once env w).0
poll_once-Paced env w paced = elim (Bool-cases (wait_shared_poll env w)) [
  | inr over ↦ subst (λ r. Paced r.0) (sym (poll_once-over env w over)) paced
  | inl goes ↦
      subst (λ r. Paced r.0) (sym (poll_once-goes env w goes))
        (on_answer-Paced env env.newest w paced)
]

-- What a round that fails leaves.
abbrev Quiet : Watcher → Watcher × List Output → Type 0
Quiet w r = (r.0.store ≡ w.store) × (messages r.1 ≡ [])

catch_up-failed :
    (env : Env) (ms : List Message) (newest : Message) (cursor : String) (w : Watcher)
    (e : PollError) (text : String)
    → gather w env.old ms cursor ≡ gather_failed e text
    → Quiet w (catch_up env ms newest cursor w)
unfolding catch_up
catch_up-failed env ms newest cursor w e text g =
    rw (catch_up, g) (note_error_quiet env.now e text w)

on_page-failed :
    (env : Env) (ms : List Message) (newest : Message) (w : Watcher) (e : PollError) (text : String)
    → trim_space (stored w.store w.key).last_msg_id ≢ ""
    → gather w env.old ms (stored w.store w.key).last_msg_id ≡ gather_failed e text
    → Quiet w (on_page env ms newest w)
unfolding on_page messages
on_page-failed env ms newest w e text set g =
    elim (Bool-cases ((stored w.store w.key).last_msg_id == newest.msg_id)) [
      | inl same ↦ rw (on_page, blank, same) (refl, refl)
      | inr behind_it ↦
          rw (on_page, blank, behind_it)
            (catch_up-failed env ms newest (stored w.store w.key).last_msg_id w e text g)
    ]
  where
    blank : (trim_space (stored w.store w.key).last_msg_id == "") ≡ false
    blank = ==_of_ne (trim_space (stored w.store w.key).last_msg_id) "" set

-- A call for an older page fails: the one behind the message `anchor`, or one behind pages of 20 messages
-- or more that do not have the cursor, within the rounds that are left.
pub data OlderFails (old : String → Answer) (cursor : String) : ℕ → String → Type 0 where
  fails_here :
      (rounds : ℕ) (anchor : String) (e : PollError) (text : String)
      → old anchor ≡ failed e text
      → OlderFails old cursor (suc rounds) anchor
  fails_behind :
      (rounds : ℕ) (anchor : String) (prev : List Message)
      → old anchor ≡ page prev
      → index_of_msg prev cursor ≡ none
      → 20 ≤ length prev
      → OlderFails old cursor rounds (first_id prev)
      → OlderFails old cursor (suc rounds) anchor

gather_older-failed :
    (old : String → Answer) (cursor : String) (newest older : List Message) (rounds : ℕ)
    (anchor : String)
    → OlderFails old cursor rounds anchor
    → (e : PollError) × (text : String) × (gather_older old cursor newest rounds anchor older
        ≡ gather_failed e text)
unfolding gather_older
gather_older-failed old cursor newest older _ _ (fails_here rounds anchor e text h) =
    (e, text, rw (gather_older, h) refl)
gather_older-failed old cursor newest older _ _ (fails_behind rounds anchor prev h out long f) =
    let (e, text, g) =
      gather_older-failed old cursor newest (prev ++ older) rounds (first_id prev) f in
    (e, text, rw (gather_older, h, out, some_there, full) g)
  where
    some_there : nat_eq (length prev) 0 ≡ false
    some_there = ground (arith, long)

    full : ltb (length prev) 20 ≡ false
    full = ground (arith, long)

-- The call for the newest page fails, or one for an older page does, which is made if the newest page
-- does not have the cursor.
pub data Fails (env : Env) (w : Watcher) : Type 0 where
  newest_fails : (e : PollError) (text : String) → env.newest ≡ failed e text → Fails env w
  older_fails :
      (m : Message) (ms : List Message)
      → env.newest ≡ page (m ∷ ms)
      → trim_space (stored w.store w.key).last_msg_id ≢ ""
      → index_of_msg (m ∷ ms) (stored w.store w.key).last_msg_id ≡ none
      → OlderFails env.old (stored w.store w.key).last_msg_id (catchup w.catchup_pages) m.msg_id
      → Fails env w

gather-failed :
    (w : Watcher) (old : String → Answer) (m : Message) (ms : List Message) (cursor : String)
    → index_of_msg (m ∷ ms) cursor ≡ none
    → OlderFails old cursor (catchup w.catchup_pages) m.msg_id
    → (e : PollError) × (text : String) × (gather w old (m ∷ ms) cursor ≡ gather_failed e text)
unfolding gather first_id
gather-failed w old m ms cursor out f =
    let (e, text, g) =
      gather_older-failed old cursor (m ∷ ms) [] (catchup w.catchup_pages) m.msg_id f in
    (e, text, rw (gather, out) g)

on_answer-failed : (env : Env) (w : Watcher) → Fails env w → Quiet w (on_answer env env.newest w)
unfolding on_answer polled
on_answer-failed env w (newest_fails e text f) =
    subst (λ a. Quiet w (on_answer env a w)) (sym f) (note_error_quiet env.now e text w)
on_answer-failed env w (older_fails m ms f set out older) =
    let (e, text, g) =
      gather-failed (polled env.now w) env.old m ms (stored w.store w.key).last_msg_id out older in
    subst (λ a. Quiet w (on_answer env a w)) (sym f)
      (on_page-failed env (m ∷ ms) (last_msg m ms) (polled env.now w) e text set g)

-- A round in which the call for the newest page fails, or one for an older page, leaves the cursors
-- as they are and hands out no message, so that the next round starts from the same cursor.
pub poll_once-failed :
    (env : Env) (w : Watcher)
    → Fails env w
    → ((poll_once env w).0.store ≡ w.store) × (messages (poll_once env w).1 ≡ [])
unfolding messages
poll_once-failed env w fails = elim (Bool-cases (wait_shared_poll env w)) [
  | inr over ↦ subst (Quiet w) (sym (poll_once-over env w over)) (refl, refl)
  | inl goes ↦ subst (Quiet w) (sym (poll_once-goes env w goes)) (on_answer-failed env w fails)
]
