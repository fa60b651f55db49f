-- ===== src/YzjCli/Throttle.antt =====
-- The error paths of a round: the backoff, the give-up on failed logins, and the cursor that stays.
use mathlib.Core.Path.{subst}
use yzj_bot_bridge.Prelude.{
  ℕ, ◌+◌, ◌≤◌, String, ◌≡◌, refl, sym, ◌∙◌, ◌⊎◌, inl, inr, true, false, ◌&&◌, ◌||◌, List, [], ◌∷◌,
  arith, ltb, leb, if◌then◌else◌, Bool-cases,
}
use yzj_bot_bridge.YzjCli.Errors.{PollError, is_auth_error, is_rate_limited}
use yzj_bot_bridge.YzjCli.State.{stored, has_recent}
use yzj_bot_bridge.YzjCli.Message.{Message, is_recall}
use yzj_bot_bridge.YzjCli.Watcher.{
  Watcher, Env, Output, on_message, on_auth_give_up, note_error, Gathered, gathered, gather_failed,
  gather, dispatch, dispatch_one, throttled, set_enabled, note_shared_throttle, note_throttle,
  count_auth, give_up, next_backoff,
}
use yzj_bot_bridge.YzjCli.Poll.{polled, catch_up, quiet, advance}

-- The messages among the outputs.
unfoldable pub messages : List Output → List Message
messages [] = []
messages (on_message m ∷ out) = m ∷ messages out
messages (on_auth_give_up key text ∷ out) = messages out

-- The backoff of a watcher: none, or from 30 seconds to 5 minutes.
abbrev pub Paced : Watcher → Type 0
Paced w = (w.backoff ≡ 0) ⊎ (30 ≤ w.backoff × w.backoff ≤ 300)

pub next_backoff-Paced :
    (b : ℕ) → (b ≡ 0) ⊎ (30 ≤ b × b ≤ 300) → 30 ≤ next_backoff b × next_backoff b ≤ 300
unfolding next_backoff
next_backoff-Paced b (inl z) = (ground arith, ground arith)
next_backoff-Paced b (inr r) = (ground (arith, r.0), ground arith)

-- What the give-up and the count leave alone.
abbrev pub Kept : Watcher → Watcher → Type 0
Kept w w' =
    (w'.store ≡ w.store)
    × (w'.backoff ≡ w.backoff)
    × (w'.last_throttle ≡ w.last_throttle)
    × (w'.cooldown_until ≡ w.cooldown_until)
    × (w'.last_err ≡ w.last_err)

set_enabled-Kept : (w : Watcher) → Kept w (set_enabled false w)
unfolding set_enabled
set_enabled-Kept w = elim (Bool-cases w.enabled) [
  | inl on ↦ rw (set_enabled, on) (refl, refl, refl, refl, refl)
  | inr off ↦ rw (set_enabled, off) (refl, refl, refl, refl, refl)
]

give_up-Kept :
    (e : PollError) (text : String) (w : Watcher)
    → Kept w (give_up e text w).0 × (messages (give_up e text w).1 ≡ [])
unfolding give_up messages
give_up-Kept e text w = elim (Bool-cases (is_auth_error e && leb 3 w.auth_fails)) [
  | inl over ↦ rw (give_up, over) (set_enabled-Kept w, refl)
  | inr under ↦ rw (give_up, under) ((refl, refl, refl, refl, refl), refl)
]

count_auth-Kept : (e : PollError) (w : Watcher) → Kept w (count_auth e w)
unfolding count_auth
count_auth-Kept e w = elim (Bool-cases (is_auth_error e)) [
  | inl auth ↦ rw (count_auth, auth) (refl, refl, refl, refl, refl)
  | inr other ↦ rw (count_auth, other) (refl, refl, refl, refl, refl)
]

Kept-trans : (a b c : Watcher) → Kept a b → Kept b c → Kept a c
Kept-trans a b c (p0, p1, p2, p3, p4) (q0, q1, q2, q3, q4) =
    (q0 ∙ p0, q1 ∙ p1, q2 ∙ p2, q3 ∙ p3, q4 ∙ p4)

pub note_error-Kept :
    (now : ℕ) (e : PollError) (text : String) (w : Watcher)
    → Kept (note_throttle now e (record w { last_err = text })) (note_error now e text w).0
      × (messages (note_error now e text w).1 ≡ [])
unfolding note_error
note_error-Kept now e text w =
    let w1 = note_throttle now e (record w { last_err = text }) in
    let kept = give_up-Kept e text (count_auth e w1) in
    (
      Kept-trans w1 (count_auth e w1) (note_error now e text w).0 (count_auth-Kept e w1) kept.0,
      kept.1,
    )

note_throttle_store :
    (now : ℕ) (e : PollError) (w : Watcher) → (note_throttle now e w).store ≡ w.store
unfolding note_throttle throttled note_shared_throttle
note_throttle_store now e w = elim (Bool-cases (is_rate_limited e)) [
  | inl limited ↦ rw (note_throttle, limited) refl
  | inr other ↦ rw (note_throttle, other) refl
]

-- A call that fails changes no cursor and hands out no message.
pub note_error_quiet :
    (now : ℕ) (e : PollError) (text : String) (w : Watcher)
    → ((note_error now e text w).0.store ≡ w.store) × (messages (note_error now e text w).1 ≡ [])
note_error_quiet now e text w =
    let (kept, none_out) = note_error-Kept now e text w in
    (kept.0 ∙ note_throttle_store now e (record w { last_err = text }), none_out)

-- A throttled call sets the backoff, and makes every watcher wait for half a minute at least.
pub note_error_throttled :
    (now : ℕ) (e : PollError) (text : String) (w : Watcher)
    → is_rate_limited e ≡ true
    → ((note_error now e text w).0.backoff ≡ next_backoff w.backoff)
      × (now + 30 ≤ (note_error now e text w).0.cooldown_until)
unfolding note_throttle throttled note_shared_throttle
note_error_throttled now e text w limited = (
  kept.1 ∙ rw (note_throttle, limited) refl,
  subst (λ n. now + 30 ≤ n) (sym (kept.3 ∙ rw (note_throttle, limited) refl)) later,
)
  where
    kept : Kept (note_throttle now e (record w { last_err = text })) (note_error now e text w).0
    kept = (note_error-Kept now e text w).0

    later : now + 30 ≤ (if ltb w.cooldown_until (now + 30) then now + 30 else w.cooldown_until)
    later = ground arith

pub dispatch_backoff :
    (env : Env) (ms : List Message) (w : Watcher) → (dispatch env ms w).0.backoff ≡ w.backoff
unfolding dispatch dispatch_one
dispatch_backoff env [] w = refl
dispatch_backoff env (m ∷ ms) w = dispatch_backoff env ms (dispatch_one env m w).0 ∙ one
  where
    one : (dispatch_one env m w).0.backoff ≡ w.backoff
    one =
        elim (Bool-cases
          (is_recall m || has_recent (stored w.store w.key).recent_msg_ids m.msg_id)) [
            | inl skip ↦ rw (dispatch_one, skip) refl
            | inr new ↦ rw (dispatch_one, new) refl
          ]

pub note_error-Paced :
    (now : ℕ) (e : PollError) (text : String) (w : Watcher)
    → Paced w
    → Paced (note_error now e text w).0
unfolding note_throttle
note_error-Paced now e text w paced = elim (Bool-cases (is_rate_limited e)) [
  | inl limited ↦ inr (
      subst (λ b. 30 ≤ b × b ≤ 300) (sym (note_error_throttled now e text w limited).0)
        (next_backoff-Paced w.backoff paced))
  | inr other ↦
      subst (λ b. (b ≡ 0) ⊎ (30 ≤ b × b ≤ 300))
        (sym ((note_error-Kept now e text w).0.1 ∙ rw (note_throttle, other) refl)) paced
]

pub polled-Paced : (now : ℕ) (w : Watcher) → Paced w → Paced (polled now w)
unfolding polled
polled-Paced now w paced = elim (Bool-cases (quiet now w)) [
  | inl over ↦ inl (rw (polled, over) refl)
  | inr still ↦ subst (λ b. (b ≡ 0) ⊎ (30 ≤ b × b ≤ 300)) (sym (rw (polled, still) refl)) paced
]

pub catch_up-Paced :
    (env : Env) (ms : List Message) (newest : Message) (cursor : String) (w : Watcher)
    → Paced w
    → (r : Gathered) → gather w env.old ms cursor ≡ r
    → Paced (catch_up env ms newest cursor w).0
unfolding catch_up advance
catch_up-Paced env ms newest cursor w paced (gather_failed e text) g =
    rw (catch_up, g) (note_error-Paced env.now e text w paced)
catch_up-Paced env ms newest cursor w paced (gathered new true) g =
    rw (catch_up, g)
      (subst (λ b. (b ≡ 0) ⊎ (30 ≤ b × b ≤ 300)) (sym (dispatch_backoff env new w)) paced)
catch_up-Paced env ms newest cursor w paced (gathered new false) g = rw (catch_up, g) paced
