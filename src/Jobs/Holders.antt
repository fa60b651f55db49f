-- ===== src/Jobs/Holders.antt =====
-- Who runs in a scope, and with which context, before and after each operation.
use yzj_bot_bridge.Prelude.{
  ℕ, String, ◌≡◌, refl, ap, inl, inr, not, ◌&&◌, Option, none, some, List, [], ◌∷◌, ◌++◌, arith,
  eq_iff, eq_refl, ◌==◌, Bool-cases, Option-cases, put_self,
}
use yzj_bot_bridge.Jobs.Types.{
  arm_cancel, clear_cancel, Item, Slot, Status, accepted, merged, queued, empty_slot, idle_slot,
  merge_waiting,
}
use yzj_bot_bridge.Jobs.Invariant.{Inv}
use yzj_bot_bridge.Jobs.{
  new, Manager, slot, offer, accept, merge_extra, enqueue, try_accept, drain_extra, drain_slot,
  finish, finish_slot, pop_waiter, cancel, cancel_in, cancel_slot, context,
}

module _ {P : Type 0} where
  -- The runner of a scope with its context, if one runs.
  abbrev pub holder_of : Option (Slot P) → List (String × Option ℕ)
  holder_of none = []
  holder_of (some s) = (s.busy_open_id, s.ctx) ∷ []

  abbrev pub holder : Manager P → String → List (String × Option ℕ)
  holder m k = holder_of (m.slots k)

  -- The context of a runner is that of the scope.
  slot-holder :
      (m : Manager P) (k : String) (s : Slot P)
      → m.slots k ≡ some s
      → holder m k ≡ (s.busy_open_id, context m k) ∷ []
  unfolding context
  slot-holder m k s h = rw (context, h) refl

  -- What an answer of TryAccept says of the runner.
  abbrev pub Answered : Manager P → Manager P → String → String → Status → Type 0
  Answered m m' k u accepted = (holder m k ≡ []) × (holder m' k ≡ (u, context m' k) ∷ [])
  Answered m m' k u merged = holder m' k ≡ holder m k
  Answered m m' k u queued = holder m' k ≡ holder m k

  enqueue-Answered :
      (m : Manager P) (k : String) (s : Slot P) (item : Item P) (r : Option (List (Item P) × ℕ))
      → m.slots k ≡ some s
      → Answered m (enqueue m k s item r).0 k item.open_id (enqueue m k s item r).1.status
  unfolding enqueue
  enqueue-Answered m k s item none e = rw (eq_refl k, e) refl
  enqueue-Answered m k s item (some (qs, i)) e = rw (eq_refl k, e) refl

  offer-Answered :
      (m : Manager P) (k : String) (s : Slot P) (item : Item P)
      → Inv m
      → m.slots k ≡ some s
      → Answered m (offer m k s item).0 k item.open_id (offer m k s item).1.status
  unfolding offer merge_extra
  offer-Answered m k s item v e = elim (Bool-cases (s.busy_open_id == "")) [
    | inl idle ↦ absurd ((v.slots k s e).runs ((eq_iff s.busy_open_id "").0 idle))
    | inr running ↦ elim (Bool-cases (s.busy_open_id == item.open_id)) [
      | inl same ↦ rw (running, same, offer, merge_extra) (rw (eq_refl k, e) refl)
      | inr other ↦
          rw (running, other, offer)
            (enqueue-Answered m k s item
              (merge_waiting item.open_id item.name item.content item.payload s.queue) e)
    ]
  ]

  accept-Answered :
      (m : Manager P) (k u name content : String)
      → m.slots k ≡ none
      → Answered m (accept m k empty_slot u name content).0 k u accepted
  unfolding accept arm_cancel clear_cancel
  accept-Answered m k u name content e = (
    ap holder_of e,
    slot-holder (accept m k empty_slot u name content).0 k _ (put_self k _ m.slots),
  )

  -- TryAccept starts a job just where none runs, and leaves the runner alone otherwise.
  pub try_accept-Answered :
      (m : Manager P) (k : String) (item : Item P)
      → Inv m
      → Answered m (try_accept m k item).0 k item.open_id (try_accept m k item).1.status
  unfolding try_accept
  try_accept-Answered m k item v = elim (Option-cases (m.slots k)) [
    | inl e ↦ rw (e, try_accept, slot) (accept-Answered m k item.open_id item.name item.content e)
    | inr (s, e) ↦ rw (e, try_accept, slot) (offer-Answered m k s item v e)
  ]

  pub drain_extra-holder :
      (m : Manager P) (k u j : String) → holder (drain_extra m k u).0 j ≡ holder m j
  unfolding drain_extra
  drain_extra-holder m k u j = elim (Option-cases (m.slots k)) [
    | inl e ↦ rw (e, drain_extra, drain_slot)
    | inr (s, e) ↦
        rw (e, drain_extra, drain_slot) (ground (arith, eq_iff k j, eq_iff s.busy_open_id u))
  ]

  cancel_slot-holder :
      (m : Manager P) (k j : String) (s : Slot P) (x : Option ℕ)
      → m.slots k ≡ some s
      → holder (cancel_slot m k s x).0 j ≡ holder m j
  unfolding cancel_slot
  cancel_slot-holder m k j s none e = refl
  cancel_slot-holder m k j s (some c) e = ground (arith, eq_iff k j)

  pub cancel-holder : (m : Manager P) (k j : String) → holder (cancel m k).0 j ≡ holder m j
  unfolding cancel
  cancel-holder m k j = elim (Option-cases (m.slots k)) [
    | inl e ↦ rw (e, cancel, cancel_in)
    | inr (s, e) ↦ rw (e, cancel, cancel_in) (cancel_slot-holder m k j s s.cancel e)
  ]

  -- Who runs behind a runner that finishes.
  abbrev pub Followed : Manager P → String → Option (Item P) → Type 0
  Followed m' k none = holder m' k ≡ []
  Followed m' k (some item) = holder m' k ≡ (item.open_id, context m' k) ∷ []

  pop_waiter-Followed :
      (m : Manager P) (k : String) (s : Slot P) (qs : List (Item P))
      → Followed (pop_waiter m k s qs).0 k (pop_waiter m k s qs).1
  unfolding pop_waiter arm_cancel clear_cancel
  pop_waiter-Followed m k s [] = rw (eq_refl k) refl
  pop_waiter-Followed m k s (q ∷ qs) =
      slot-holder (pop_waiter m k s (q ∷ qs)).0 k _ (put_self k _ m.slots)

  finish_slot-Followed :
      (m : Manager P) (k u : String) (s : Slot P)
      → s.busy_open_id ≡ u
      → Followed (finish_slot m k u (some s)).0 k (finish_slot m k u (some s)).1
  unfolding finish_slot
  finish_slot-Followed m k u s h =
      elim (Bool-cases (not (s.busy_open_id == "") && not (s.busy_open_id == u))) [
        | inl refused ↦ absurd (ground (arith, eq_iff s.busy_open_id u))
        | inr mine ↦ rw (finish_slot, mine) (pop_waiter-Followed m k (idle_slot s) s.queue)
      ]

  -- When the runner of a scope finishes, the item that Finish gives runs, with a context of its own.
  pub finish-Followed :
      (m : Manager P) (k u : String) (c : Option ℕ)
      → holder m k ≡ (u, c) ∷ []
      → Followed (finish m k u).0 k (finish m k u).1
  unfolding finish
  finish-Followed m k u c h = elim (Option-cases (m.slots k)) [
    | inl e ↦ absurd (no_runner (rw e at h))
    | inr (s, e) ↦ rw (e, finish) (finish_slot-Followed m k u s (same_runner s (rw e at h)))
  ]
    where
      no_runner : holder_of none ≡ (u, c) ∷ [] → ⊥
      no_runner e = cc

      same_runner : (s : Slot P) → holder_of (some s) ≡ (u, c) ∷ [] → s.busy_open_id ≡ u
      same_runner s e = cc

  pub context-holder :
      (m : Manager P) (k u : String) (c : Option ℕ) → holder m k ≡ (u, c) ∷ [] → context m k ≡ c
  unfolding context
  context-holder m k u c h = elim (Option-cases (m.slots k)) [
    | inl e ↦ absurd (no_runner (rw e at h))
    | inr (s, e) ↦ rw (context, e) (same_ctx s (rw e at h))
  ]
    where
      no_runner : holder_of none ≡ (u, c) ∷ [] → ⊥
      no_runner e = cc

      same_ctx : (s : Slot P) → holder_of (some s) ≡ (u, c) ∷ [] → s.ctx ≡ c
      same_ctx s e = cc

  -- A scope has one runner at most: one that is found among others is alone.
  pub only_holder :
      (m : Manager P) (k : String) (xs ys : List (String × Option ℕ)) (x : String × Option ℕ)
      → xs ++ x ∷ ys ≡ holder m k
      → (xs ≡ []) × (ys ≡ []) × (holder m k ≡ x ∷ [])
  only_holder m k xs ys x h = one xs (m.slots k) h
    where
      one :
          (xs : List (String × Option ℕ)) (o : Option (Slot P))
          → xs ++ x ∷ ys ≡ holder_of o
          → (xs ≡ []) × (ys ≡ []) × (holder_of o ≡ x ∷ [])
      one [] none h = cc
      one [] (some s) h = (refl, cc, cc)
      one (y ∷ []) none h = cc
      one (y ∷ []) (some s) h = absurd cc
      one (y ∷ z ∷ zs) none h = cc
      one (y ∷ z ∷ zs) (some s) h = absurd cc

pub new-holder : (P : Type 0) (k : String) → holder (new {P = P}) k ≡ []
unfolding new
new-holder P k = refl
