-- ===== src/Jobs/Refinement.antt =====
-- The job queues refine a line of users for each scope: the runner first, the waiters behind.
use mathlib.Core.Path.{subst}
use yzj_bot_bridge.Prelude.{
  ℕ, String, ◌≡◌, refl, ap, ◌∙◌, fun_ext, ◌≢◌, inl, inr, Option, none, some, List, [], ◌∷◌, arith,
  eq_iff, eq_refl, ◌==◌, if◌then◌else◌, Bool-cases, Option-cases, put_other,
}
use yzj_bot_bridge.Jobs.Types.{Item, Slot, merge_waiting, idle_slot}
use yzj_bot_bridge.Jobs.Waiters.{users}
use yzj_bot_bridge.Jobs.Invariant.{Inv}
use yzj_bot_bridge.Jobs.Preserved.{
  Call, accepts, drains, finishes, cancels, Named, step, run, step-Inv, Named-head, Named-tail,
  new-Inv,
}
use yzj_bot_bridge.Jobs.Line.{join, leave, members, members_of, try_accept-Joined}
use yzj_bot_bridge.Jobs.{
  Manager, new, slot, accept, merge_extra, enqueue, try_accept, drain_extra, drain_slot, finish,
  finish_slot, pop_waiter, cancel, cancel_in, cancel_slot,
}

at_scope :
    (k j : String) (xs ys zs : List String)
    → (k ≡ j → xs ≡ ys)
    → (k ≢ j → xs ≡ zs)
    → xs ≡ (if k == j then ys else zs)
at_scope k j xs ys zs same other = elim (Bool-cases (k == j)) [
  | inl e ↦ rw e (same ((eq_iff k j).0 e))
  | inr e ↦ rw e (other (λ p. cc (e, (eq_iff k j).1 p)))
]

module _ {P : Type 0} where
  -- A call on one scope leaves the slots of the others as they were.
  enqueue-other :
      (m : Manager P) (k j : String) (s : Slot P) (item : Item P) (r : Option (List (Item P) × ℕ))
      → k ≢ j
      → (enqueue m k s item r).0.slots j ≡ m.slots j
  unfolding enqueue
  enqueue-other m k j s item none h = put_other k j _ m.slots h
  enqueue-other m k j s item (some (qs, i)) h = put_other k j _ m.slots h

  pub try_accept-other :
      (m : Manager P) (k j : String) (item : Item P)
      → k ≢ j
      → (try_accept m k item).0.slots j ≡ m.slots j
  unfolding try_accept merge_extra accept
  try_accept-other m k j item h = ground (
    arith,
    eq_iff k j,
    enqueue-other m k j (slot m k) item
        (merge_waiting item.open_id item.name item.content item.payload (slot m k).queue),
  )

  pop_waiter-other :
      (m : Manager P) (k j : String) (s : Slot P) (qs : List (Item P))
      → k ≢ j
      → (pop_waiter m k s qs).0.slots j ≡ m.slots j
  unfolding pop_waiter
  pop_waiter-other m k j s [] h = ground (arith, eq_iff k j)
  pop_waiter-other m k j s (q ∷ qs) h = ground (arith, eq_iff k j)

  finish_slot-other :
      (m : Manager P) (k j u : String) (o : Option (Slot P))
      → k ≢ j
      → (finish_slot m k u o).0.slots j ≡ m.slots j
  unfolding finish_slot
  finish_slot-other m k j u none h = refl
  finish_slot-other m k j u (some s) h =
      ground (arith, pop_waiter-other m k j (idle_slot s) s.queue)

  pub finish-other : (m : Manager P) (k j u : String) → k ≢ j → (finish m k u).0.slots j ≡ m.slots j
  unfolding finish
  finish-other m k j u h = finish_slot-other m k j u (m.slots k) h

  -- These two change no line.
  drain_extra-members :
      (m : Manager P) (k u j : String) → members (drain_extra m k u).0 j ≡ members m j
  unfolding drain_extra
  drain_extra-members m k u j = elim (Option-cases (m.slots k)) [
    | inl e ↦ rw (e, drain_extra, drain_slot)
    | inr (s, e) ↦
        rw (e, drain_extra, drain_slot) (ground (arith, eq_iff k j, eq_iff s.busy_open_id u))
  ]

  cancel_slot-members :
      (m : Manager P) (k j : String) (s : Slot P) (x : Option ℕ)
      → m.slots k ≡ some s
      → members (cancel_slot m k s x).0 j ≡ members m j
  unfolding cancel_slot
  cancel_slot-members m k j s none e = refl
  cancel_slot-members m k j s (some c) e = ground (arith, eq_iff k j)

  cancel-members : (m : Manager P) (k j : String) → members (cancel m k).0 j ≡ members m j
  unfolding cancel
  cancel-members m k j = elim (Option-cases (m.slots k)) [
    | inl e ↦ rw (e, cancel, cancel_in)
    | inr (s, e) ↦ rw (e, cancel, cancel_in) (cancel_slot-members m k j s s.cancel e)
  ]

  pop_waiter-members :
      (m : Manager P) (k : String) (s : Slot P) (qs : List (Item P))
      → members (pop_waiter m k s qs).0 k ≡ users qs
  unfolding pop_waiter
  pop_waiter-members m k s [] = rw (eq_refl k)
  pop_waiter-members m k s (q ∷ qs) = rw (eq_refl k)

  finish_slot-members :
      (m : Manager P) (k u : String) (s : Slot P)
      → s.busy_open_id ≢ ""
      → m.slots k ≡ some s
      → members (finish_slot m k u (some s)).0 k ≡ leave u (s.busy_open_id ∷ users s.queue)
  unfolding finish_slot
  finish_slot-members m k u s h e = ground (
    arith,
    eq_iff s.busy_open_id "",
    eq_iff s.busy_open_id u,
    pop_waiter-members m k (idle_slot s) s.queue,
  )

  pub finish-members :
      (m : Manager P) (k u : String) → Inv m → members (finish m k u).0 k ≡ leave u (members m k)
  unfolding finish
  finish-members m k u v = elim (Option-cases (m.slots k)) [
    | inl e ↦ rw (e, finish, finish_slot) (ap members_of e)
    | inr (s, e) ↦ rw (e, finish) (finish_slot-members m k u s (v.slots k s e).runs e)
  ]

  -- The specification: what each call does to the lines.
  pub spec_step : (String → List String) → Call P → String → List String
  spec_step lines (accepts k item) j = if k == j then join item.open_id (lines j) else lines j
  spec_step lines (drains k u) j = lines j
  spec_step lines (finishes k u) j = if k == j then leave u (lines j) else lines j
  spec_step lines (cancels k) j = lines j

  pub spec_run : (String → List String) → List (Call P) → String → List String
  spec_run lines [] = lines
  spec_run lines (c ∷ cs) = spec_run (spec_step lines c) cs

  step-members :
      (m : Manager P) (c : Call P) (j : String)
      → Inv m
      → members (step m c) j ≡ spec_step (members m) c j
  unfolding step spec_step
  step-members m (accepts k item) j v =
      at_scope k j (members (try_accept m k item).0 j) (join item.open_id (members m j))
        (members m j)
        (λ p.
          subst (λ i. members (try_accept m k item).0 i ≡ join item.open_id (members m i)) p
            (try_accept-Joined m k item v).line)
        (λ n. ap members_of (try_accept-other m k j item n))
  step-members m (drains k u) j v = drain_extra-members m k u j
  step-members m (finishes k u) j v =
      at_scope k j (members (finish m k u).0 j) (leave u (members m j)) (members m j)
        (λ p.
          subst (λ i. members (finish m k u).0 i ≡ leave u (members m i)) p
            (finish-members m k u v))
        (λ n. ap members_of (finish-other m k j u n))
  step-members m (cancels k) j v = cancel-members m k j

  run-members :
      (m : Manager P) (cs : List (Call P)) (j : String)
      → Inv m
      → Named cs
      → members (run m cs) j ≡ spec_run (members m) cs j
  unfolding run spec_run
  run-members m [] j v n = refl
  run-members m (c ∷ cs) j v n =
      run-members (step m c) cs j (step-Inv m c v (Named-head c cs n)) (Named-tail c cs n)
      ∙ ap (λ lines. spec_run lines cs j) (fun_ext (λ i. step-members m c i v))

  -- After any calls in which every TryAccept names its user, the runner of each scope followed by
  -- its waiters in order is the line that the specification computes: a user who joins and stands
  -- in the line stays in place, another goes to its end, a runner who finishes leaves it, and the
  -- other calls, and calls on other scopes, leave it alone.
  pub run-refines :
      (cs : List (Call P)) (k : String)
      → Named cs
      → members (run new cs) k ≡ spec_run (λ j. []) cs k
  unfolding new
  run-refines cs k n = run-members new cs k new-Inv n
