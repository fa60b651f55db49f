-- ===== src/YzjCli/Login.antt =====
-- The give-up of a watcher whose logins are refused.
use mathlib.Core.Path.{subst, ap₂}
use yzj_bot_bridge.Prelude.{
  ℕ, ◌+◌, String, ◌≡◌, refl, sym, ap, ◌∙◌, inl, inr, true, false, ◌&&◌, List, [], ◌∷◌, arith, ltb,
  leb, if◌then◌else◌, Bool-cases, length, All,
}
use yzj_bot_bridge.YzjCli.Errors.{PollError, is_auth_error, is_rate_limited}
use yzj_bot_bridge.YzjCli.Watcher.{
  Watcher, failed, Env, note_error, set_enabled, note_throttle, throttled, note_shared_throttle,
  count_auth, give_up,
}
use yzj_bot_bridge.YzjCli.Poll.{poll_once, wait_shared_poll_goes, poll_all, on_answer}

-- The call for the newest page is refused for its login.
abbrev pub RefusedLogin : Env → Type 0
RefusedLogin env =
    (env.done ≡ false)
    × ((e : PollError) × (text : String) × env.newest ≡ failed e text × is_auth_error e ≡ true)

note_throttle-switch :
    (now : ℕ) (e : PollError) (w : Watcher)
    → ((note_throttle now e w).auth_fails ≡ w.auth_fails)
      × ((note_throttle now e w).enabled ≡ w.enabled)
unfolding note_throttle throttled note_shared_throttle
note_throttle-switch now e w = elim (Bool-cases (is_rate_limited e)) [
  | inl limited ↦ rw (note_throttle, limited) (refl, refl)
  | inr other ↦ rw (note_throttle, other) (refl, refl)
]

set_enabled_off :
    (w : Watcher)
    → ((set_enabled false w).auth_fails ≡ w.auth_fails) × ((set_enabled false w).enabled ≡ false)
unfolding set_enabled
set_enabled_off w = elim (Bool-cases w.enabled) [
  | inl on ↦ rw (set_enabled, on) (refl, refl)
  | inr off ↦ rw (set_enabled, off) (refl, refl)
]

give_up-switch :
    (e : PollError) (text : String) (w : Watcher)
    → is_auth_error e ≡ true
    → ((give_up e text w).0.auth_fails ≡ w.auth_fails)
      × ((give_up e text w).0.enabled ≡ (w.enabled && ltb w.auth_fails 3))
unfolding give_up
give_up-switch e text w auth = elim (Bool-cases (leb 3 w.auth_fails)) [
  | inl over ↦
      let (fails, off) = set_enabled_off w in rw (give_up, auth, over) (fails, off ∙ ground arith)
  | inr under ↦ rw (give_up, auth, under) (refl, ground arith)
]

-- One refused login.
note_error-switch :
    (now : ℕ) (e : PollError) (text : String) (w : Watcher)
    → is_auth_error e ≡ true
    → ((note_error now e text w).0.auth_fails ≡ w.auth_fails + 1)
      × ((note_error now e text w).0.enabled ≡ (w.enabled && ltb (w.auth_fails + 1) 3))
unfolding note_error count_auth
note_error-switch now e text w auth =
    (last.0 ∙ counted.0, last.1 ∙ ap₂ (λ on n. on && ltb n 3) counted.1 counted.0)
  where
    w1 : Watcher
    w1 = note_throttle now e (record w { last_err = text })

    first : (w1.auth_fails ≡ w.auth_fails) × (w1.enabled ≡ w.enabled)
    first = note_throttle-switch now e (record w { last_err = text })

    counted :
        ((count_auth e w1).auth_fails ≡ w.auth_fails + 1) × ((count_auth e w1).enabled ≡ w.enabled)
    counted = rw (count_auth, auth) (ap (λ n. n + 1) first.0, first.1)

    last :
        ((give_up e text (count_auth e w1)).0.auth_fails ≡ (count_auth e w1).auth_fails)
        × ((give_up e text (count_auth e w1)).0.enabled
            ≡ ((count_auth e w1).enabled && ltb (count_auth e w1).auth_fails 3))
    last = give_up-switch e text (count_auth e w1) auth

poll_once-switch :
    (env : Env) (w : Watcher)
    → RefusedLogin env
    → ((poll_once env w).0.auth_fails ≡ w.auth_fails + 1)
      × ((poll_once env w).0.enabled ≡ (w.enabled && ltb (w.auth_fails + 1) 3))
unfolding poll_once on_answer
poll_once-switch env w (goes, (e, text, f, auth)) =
    subst
      (λ r.
        (r.0.auth_fails ≡ w.auth_fails + 1)
        × (r.0.enabled ≡ (w.enabled && ltb (w.auth_fails + 1) 3)))
      (sym (
        ap (λ d. if d then on_answer env env.newest w else (w, []))
          (wait_shared_poll_goes env w goes)
        ∙ ap (λ a. on_answer env a w) f))
      (note_error-switch env.now e text w auth)

-- Rounds whose logins are all refused, from a watcher that is on exactly if its count of refused
-- logins is below three: it stays on as long as the count, with these rounds, is below three, and is
-- off from the third refused login on.
pub poll_all-refused :
    (envs : List Env) (w : Watcher)
    → All RefusedLogin envs
    → w.enabled ≡ ltb w.auth_fails 3
    → (poll_all envs w).0.enabled ≡ ltb (w.auth_fails + length envs) 3
unfolding poll_all
poll_all-refused [] w refused on = on ∙ ap (λ n. ltb n 3) (omega arith)
poll_all-refused (env ∷ envs) w refused on =
    poll_all-refused envs (poll_once env w).0 refused.1
      (one.1 ∙ also ∙ ap (λ n. ltb n 3) (sym one.0))
    ∙ ap (λ n. ltb n 3) (omega (arith, one.0))
  where
    one :
        ((poll_once env w).0.auth_fails ≡ w.auth_fails + 1)
        × ((poll_once env w).0.enabled ≡ (w.enabled && ltb (w.auth_fails + 1) 3))
    one = poll_once-switch env w refused.0

    also : (w.enabled && ltb (w.auth_fails + 1) 3) ≡ ltb (w.auth_fails + 1) 3
    also = ground arith
