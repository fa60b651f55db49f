-- ===== src/RunLock/Exclusion.antt =====
-- A key has one token: it lies in the channel, or one release function holds it.
use mathlib.Core.Logic.{◌↔◌}
use native.Mathlib.Decide.{dec_lt}
use yzj_bot_bridge.Prelude.{
  ℕ, ◌+◌, ◌≤◌, ◌<◌, String, ◌≡◌, refl, ap, ◌≢◌, inl, inr, Bool, true, false, Option, none, some,
  List, [], ◌∷◌, arith, eq_iff, ◌==◌, if◌then◌else◌, Bool-cases, Option-cases, put_self,
}
use yzj_bot_bridge.RunLock.{
  Semaphore, Manager, new, sem, Error, Chance, granted, select, acquire, release, World, drop_held,
  holders, after_acquire, Step, looks, releases, init, Reach, start, later,
}

-- The tokens in the channel of a key; one that has no semaphore yet will get its token.
abbrev pub tokens_of : Option Semaphore → ℕ
tokens_of none = 1
tokens_of (some s) = if s.ch then 1 else 0

abbrev pub tokens : Manager → String → ℕ
tokens m key = tokens_of (m.sems key)

pub holders-drop :
    (key k : String) (ks : List String)
    → 0 < holders key ks
    → holders k ks ≡ holders k (drop_held key ks) + (if key == k then 1 else 0)
unfolding holders drop_held
holders-drop key k [] h = elim h [ ]
holders-drop key k (x ∷ ks) h = elim (Bool-cases (x == key)) [
  | inl hit ↦ ground (arith, eq_iff x key, eq_iff x k, eq_iff key k)
  | inr miss ↦ ground (arith, eq_iff x key, eq_iff x k, eq_iff key k, holders-drop key k ks)
]

-- The count of tokens and holders of a key, which is always one.
abbrev pub Balanced : World → Type 0
Balanced w = (key : String) → tokens w.manager key + holders key w.held ≡ 1

-- What one look of `select` leaves, for a semaphore that the manager has.
select-Balanced :
    (w : World) (m : Manager) (key : String) (here : Bool) (done : Option Error) (p : Bool)
    → m.sems key ≡ some (record { ch = here })
    → Balanced (record { manager = m; held = w.held })
    → Balanced (after_acquire w key (select m key here done p))
unfolding select after_acquire holders
select-Balanced w m key true none p e b k = ground (arith, eq_iff key k, b k)
select-Balanced w m key true (some x) true e b k = b k
select-Balanced w m key true (some x) false e b k = ground (arith, eq_iff key k, b k)
select-Balanced w m key false none p e b k = b k
select-Balanced w m key false (some x) p e b k = b k

looks-Balanced :
    (w : World) (key : String) (c : Chance)
    → Balanced w
    → Balanced (after_acquire w key (acquire w.manager key c))
unfolding acquire
looks-Balanced w key c b = elim (Option-cases (w.manager.sems key)) [
  | inl e ↦
      rw (e, acquire, sem)
        (select-Balanced w _ key true c.done c.prefer_done
          (put_self key (record { ch = true }) w.manager.sems)
          (λ k. ground (arith, eq_iff key k, b k)))
  | inr (s, e) ↦
      rw (e, acquire, sem) (select-Balanced w w.manager key s.ch c.done c.prefer_done e b)
]

release-Balanced :
    (w : World) (key : String)
    → Balanced w
    → 0 < holders key w.held
    → Balanced (record { manager = release w.manager key; held = drop_held key w.held })
unfolding release
release-Balanced w key b h k = ground (arith, eq_iff key k, holders-drop key k w.held h, b k, b key)

Step-Balanced : {w w' : World} → Step w w' → Balanced w → Balanced w'
Step-Balanced {w} (looks key c) b = looks-Balanced w key c b
Step-Balanced {w} (releases key h) b = release-Balanced w key b h

init-Balanced : Balanced init
unfolding new holders
init-Balanced key = refl

Reach-Balanced : {w : World} → Reach w → Balanced w
Reach-Balanced start = init-Balanced
Reach-Balanced (later r s) = Step-Balanced s (Reach-Balanced r)

-- However callers acquire, give up and release, no key is ever held twice, and a key is free, its
-- token in its channel or its semaphore still to be made, exactly when nobody holds it.
pub keys_exclusive :
    {w : World}
    → Reach w
    → (key : String) → (holders key w.held ≤ 1) × (tokens w.manager key + holders key w.held ≡ 1)
keys_exclusive r key = (omega (arith, Reach-Balanced r key), Reach-Balanced r key)

granted_alone :
    (m : Manager) (key : String) (here : Bool) (done : Option Error) (p : Bool)
    → (select m key here done p).1 ≡ granted
    → here ≡ true
unfolding select
granted_alone m key true x p h = refl
granted_alone m key false none p h = cc
granted_alone m key false (some x) p h = cc

acquire_cases :
    {w : World}
    → Reach w
    → (key : String) (c : Chance)
    → (holders key w.held ≡ 0 → c.done ≡ none → (acquire w.manager key c).1 ≡ granted)
      × (0 < holders key w.held → (acquire w.manager key c).1 ≢ granted)
unfolding acquire sem select
acquire_cases {w} r key c = elim (Option-cases (w.manager.sems key)) [
  | inl e ↦
      rw (e, acquire, sem)
        (
          (λ h d. rw (d, select)),
          λ h g. absurd (omega (arith, Reach-Balanced r key, ap tokens_of e)),
        )
  | inr (s, e) ↦
      rw (e, acquire, sem)
        (
          (λ h d. let full = token_there s (Reach-Balanced r key) h e in rw (d, full, select)),
          λ h g. absurd (
              omega (
                arith,
                Reach-Balanced r key,
                ap tokens_of e,
                token_count s (granted_alone w.manager key s.ch c.done c.prefer_done g),
              )),
        )
]
  where
    token_count : (s : Semaphore) → s.ch ≡ true → tokens_of (some s) ≡ 1
    token_count s h = rw h

    token_there :
        (s : Semaphore)
        → tokens w.manager key + holders key w.held ≡ 1
        → holders key w.held ≡ 0
        → w.manager.sems key ≡ some s
        → s.ch ≡ true
    token_there s b h e = ground arith

-- A caller whose context is not done gets the lock of a key exactly if nobody holds it, also right
-- after the release of its last holder.
acquire_free :
    {w : World}
    → Reach w
    → (key : String) (c : Chance) → c.done ≡ none
    → ((acquire w.manager key c).1 ≡ granted) ↔ (holders key w.held ≡ 0)
acquire_free {w} r key c waits = (only_if, λ free. (acquire_cases r key c).0 free waits)
  where
    only_if : (acquire w.manager key c).1 ≡ granted → holders key w.held ≡ 0
    only_if g = elim (dec_lt 0 (holders key w.held)) [
      | yes held ↦ absurd ((acquire_cases r key c).1 held g)
      | no none_holds ↦ omega arith
    ]
