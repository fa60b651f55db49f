-- ===== src/Jobs/Drain.antt =====
-- A scope that is left to its jobs empties: each runner finishes, and the waiters run in the order
-- of the line. The notices that Finish sends give every waiter their place.
use mathlib.Core.Path.{subst}
use native.Mathlib.Nat.{le_refl}
use yzj_bot_bridge.Prelude.{
  ℕ, zero, suc, ◌+◌, ◌≤◌, String, ◌≡◌, refl, ap, ◌∙◌, inl, inr, Option, none, some, List, [], ◌∷◌,
  arith, eq_iff, eq_refl, Option-cases, length, take, drop,
}
use yzj_bot_bridge.Jobs.Types.{Item, Slot, Notice, notices_from, idle_slot}
use yzj_bot_bridge.Jobs.Waiters.{users}
use yzj_bot_bridge.Jobs.Invariant.{Inv}
use yzj_bot_bridge.Jobs.Preserved.{finish-Inv}
use yzj_bot_bridge.Jobs.Line.{leave, members}
use yzj_bot_bridge.Jobs.Refinement.{finish-members}
use yzj_bot_bridge.Jobs.{Manager, finish, finish_slot, pop_waiter}

-- The users that are told their place, with that place.
abbrev pub places : List Notice → List (String × ℕ)
places [] = []
places (n ∷ ns) = (n.open_id, n.position) ∷ places ns

-- The users of a line with their places from the given one.
abbrev pub numbered : ℕ → List String → List (String × ℕ)
numbered i [] = []
numbered i (u ∷ us) = (u, i) ∷ numbered (i + 1) us

leave_head : (u : String) (us : List String) → leave u (u ∷ us) ≡ us
leave_head u us = rw (eq_refl u)

head_eq : {u v : String} {us vs : List String} → u ∷ us ≡ v ∷ vs → u ≡ v
head_eq h = cc

tail_eq : {u v : String} {us vs : List String} → u ∷ us ≡ v ∷ vs → us ≡ vs
tail_eq h = cc

module _ {P : Type 0} where
  notices_from-places :
      (i : ℕ) (qs : List (Item P)) → places (notices_from i qs) ≡ numbered i (users qs)
  unfolding notices_from
  notices_from-places i [] = refl
  notices_from-places i (q ∷ qs) = ap (λ ps. (q.open_id, i) ∷ ps) (notices_from-places (i + 1) qs)

  -- What Finish answers when the runner finishes: who runs next, and the places of the others.
  abbrev pub next_user : Option (Item P) → List String
  next_user none = []
  next_user (some item) = item.open_id ∷ []

  pop_waiter-answer :
      (m : Manager P) (k : String) (s : Slot P) (qs : List (Item P))
      → (next_user (pop_waiter m k s qs).1 ≡ take 1 (users qs))
        × (places (pop_waiter m k s qs).2 ≡ numbered 1 (drop 1 (users qs)))
  unfolding pop_waiter
  pop_waiter-answer m k s [] = (refl, refl)
  pop_waiter-answer m k s (q ∷ qs) = (refl, notices_from-places 1 qs)

  finish_slot-answer :
      (m : Manager P) (k u : String) (s : Slot P)
      → s.busy_open_id ≡ u
      → (next_user (finish_slot m k u (some s)).1 ≡ take 1 (users s.queue))
        × (places (finish_slot m k u (some s)).2 ≡ numbered 1 (drop 1 (users s.queue)))
  unfolding finish_slot
  finish_slot-answer m k u s h =
      ground (arith, eq_iff s.busy_open_id u, pop_waiter-answer m k (idle_slot s) s.queue)

  -- When the runner of a scope finishes, the item that Finish returns is that of the second in the
  -- line, if there is one, and its notices name the users behind that one, in order, each with the
  -- place in the line that they have from then on (the new runner has place 0).
  pub finish_answer :
      (m : Manager P) (k u : String) (us : List String)
      → members m k ≡ u ∷ us
      → (next_user (finish m k u).1 ≡ take 1 us)
        × (places (finish m k u).2 ≡ numbered 1 (drop 1 us))
  unfolding finish
  finish_answer m k u us h = elim (Option-cases (m.slots k)) [
    | inl e ↦ cc
    | inr (s, e) ↦
        let h' : s.busy_open_id ∷ users s.queue ≡ u ∷ us = rw e at h in
        rw (e, finish)
          (subst
            (λ vs.
              (next_user (finish_slot m k u (some s)).1 ≡ take 1 vs)
              × (places (finish_slot m k u (some s)).2 ≡ numbered 1 (drop 1 vs)))
            (tail_eq h') (finish_slot-answer m k u s (head_eq h')))
  ]

  -- The runners of a scope finish one after the other, at most so many times; the users that ran.
  pub drive : ℕ → Manager P → String → Manager P × List String
  drive zero m k = (m, [])
  drive (suc fuel) m k = elim (members m k) [
    | [] ↦ (m, [])
    | u ∷ us ↦ let (m', ran) = drive fuel (finish m k u).0 k in (m', u ∷ ran)
  ]

  drive_line :
      (fuel : ℕ) (m : Manager P) (k : String) (us : List String)
      → Inv m
      → members m k ≡ us
      → length us ≤ fuel
      → (members (drive fuel m k).0 k ≡ []) × ((drive fuel m k).1 ≡ us)
  unfolding drive
  drive_line zero m k [] v e h = (e, refl)
  drive_line zero m k (u ∷ us) v e h = absurd (omega arith)
  drive_line (suc fuel) m k [] v e h = (rw (e, drive) e, rw (e, drive))
  drive_line (suc fuel) m k (u ∷ us) v e h =
      let next : members (finish m k u).0 k ≡ us =
        finish-members m k u v ∙ rw e (leave_head u us) in
      let rest = drive_line fuel (finish m k u).0 k us (finish-Inv m k u v) next (omega arith) in
      (rw (e, drive) rest.0, rw (e, drive) (ap (λ vs. u ∷ vs) rest.1))

  -- From any state that the calls reach, as many finishes as there are users in the line empty
  -- the scope, and its users run once each, in the order of the line.
  pub drive_drains :
      (m : Manager P) (k : String)
      → Inv m
      → (members (drive (length (members m k)) m k).0 k ≡ [])
        × ((drive (length (members m k)) m k).1 ≡ members m k)
  drive_drains m k v = drive_line (length (members m k)) m k (members m k) v refl (le_refl _)
