-- ===== src/Jobs/Kept.antt =====
-- What is kept with the items that wait, through every operation of the job queues.
use mathlib.Core.Path.{subst}
use yzj_bot_bridge.Prelude.{
  ℕ, suc, String, ◌≡◌, sym, inl, inr, not, ◌&&◌, Option, none, some, List, [], ◌∷◌, ◌++◌, eq_iff,
  ◌==◌, Bool-cases, Option-cases, All, All-append, put, put_cases, delete_cases,
}
use yzj_bot_bridge.Jobs.Types.{
  arm_cancel, clear_cancel, Item, Slot, empty_slot, idle_slot, merge_waiting, push_back,
}
use yzj_bot_bridge.Jobs.{
  Manager, slot, offer, accept, merge_extra, enqueue, try_accept, drain_extra, drain_slot, finish,
  finish_slot, pop_waiter, cancel, cancel_in, cancel_slot, new,
}

-- What is kept with the items that wait: it is of the scope, the user and the payload.
module _ {P : Type 0} (Q : String → String → Option P → Type 0) where
  abbrev pub Kept : String → Item P → Type 0
  Kept k item = Q k item.open_id item.payload

  pub Waits : Manager P → Type 0
  Waits m = (k : String) (s : Slot P) → m.slots k ≡ some s → All (Kept k) s.queue

  line_of :
      (m : Manager P) (k : String) (s : Slot P)
      → Waits m
      → m.slots k ≡ some s
      → All (Kept k) s.queue
  unfolding Waits
  line_of m k s w e = w k s e

  abbrev FoundKept : String → Option (List (Item P) × ℕ) → Type 0
  FoundKept k none = Unit
  FoundKept k (some (qs, i)) = All (Kept k) qs

  push_back-Kept :
      (k : String) (x : Item P) (r : Option (List (Item P) × ℕ))
      → Kept k x
      → FoundKept k r
      → FoundKept k (push_back x r)
  push_back-Kept k x none h a = tt
  push_back-Kept k x (some (qs, i)) h a = (h, a)

  merge_waiting-Kept :
      (k u name content : String) (payload : Option P) (qs : List (Item P))
      → Q k u payload
      → All (Kept k) qs
      → FoundKept k (merge_waiting u name content payload qs)
  unfolding merge_waiting
  merge_waiting-Kept k u name content payload [] q a = tt
  merge_waiting-Kept k u name content payload (x ∷ qs) q a = elim (Bool-cases (x.open_id == u)) [
    | inl hit ↦
        rw (merge_waiting, hit)
          (subst (λ w. Q k w payload) (sym ((eq_iff x.open_id u).0 hit)) q, a.1)
    | inr miss ↦
        rw (merge_waiting, miss)
          (push_back-Kept k x (merge_waiting u name content payload qs) a.0
            (merge_waiting-Kept k u name content payload qs q a.1))
  ]

  -- A slot written with a line that is kept.
  put-Waits :
      (m : Manager P) (k : String) (s : Slot P) (n : ℕ)
      → Waits m
      → All (Kept k) s.queue
      → Waits (record m { slots = put k s m.slots; next_ctx = n })
  unfolding Waits
  put-Waits m k s n w a j t h = elim (put_cases k s m.slots j t h) [
    | inl p ↦ subst (λ i. All (Kept i) t.queue) p.0 (subst (λ x. All (Kept k) x.queue) p.1 a)
    | inr q ↦ w j t q.1
  ]

  enqueue-Waits :
      (m : Manager P) (k : String) (s : Slot P) (item : Item P) (r : Option (List (Item P) × ℕ))
      → Waits m
      → All (Kept k) s.queue
      → Kept k item
      → FoundKept k r
      → Waits (enqueue m k s item r).0
  unfolding enqueue
  enqueue-Waits m k s item none w a q f =
      put-Waits m k (record s { queue = s.queue ++ item ∷ [] }) m.next_ctx w
        (All-append (Kept k) s.queue (item ∷ []) a (q, tt))
  enqueue-Waits m k s item (some (qs, i)) w a q f =
      put-Waits m k (record s { queue = qs }) m.next_ctx w f

  offer-Waits :
      (m : Manager P) (k : String) (s : Slot P) (item : Item P)
      → Waits m
      → All (Kept k) s.queue
      → Kept k item
      → Waits (offer m k s item).0
  unfolding offer merge_extra accept arm_cancel clear_cancel
  offer-Waits m k s item w a q = elim (Bool-cases (s.busy_open_id == "")) [
    | inl idle ↦ rw (offer, idle) (put-Waits m k _ (suc m.next_ctx) w a)
    | inr running ↦ elim (Bool-cases (s.busy_open_id == item.open_id)) [
      | inl same ↦ rw (running, same, offer) (put-Waits m k _ m.next_ctx w a)
      | inr other ↦
          rw (running, other, offer)
            (enqueue-Waits m k s item
              (merge_waiting item.open_id item.name item.content item.payload s.queue) w a q
              (merge_waiting-Kept k item.open_id item.name item.content item.payload s.queue q a))
    ]
  ]

  pub try_accept-Waits :
      (m : Manager P) (k : String) (item : Item P)
      → Waits m
      → Kept k item
      → Waits (try_accept m k item).0
  unfolding try_accept
  try_accept-Waits m k item w q = elim (Option-cases (m.slots k)) [
    | inl e ↦ rw (e, try_accept, slot) (offer-Waits m k empty_slot item w tt q)
    | inr (s, e) ↦ rw (e, try_accept, slot) (offer-Waits m k s item w (line_of m k s w e) q)
  ]

  pub drain_extra-Waits : (m : Manager P) (k u : String) → Waits m → Waits (drain_extra m k u).0
  unfolding drain_extra
  drain_extra-Waits m k u w = elim (Option-cases (m.slots k)) [
    | inl e ↦ rw (e, drain_extra, drain_slot) w
    | inr (s, e) ↦ elim (Bool-cases (s.busy_open_id == u)) [
      | inl mine ↦
          rw (e, drain_extra, drain_slot, mine)
            (put-Waits m k (record s { extra = "" }) m.next_ctx w (line_of m k s w e))
      | inr other ↦ rw (e, drain_extra, drain_slot, other) w
    ]
  ]

  cancel_slot-Waits :
      (m : Manager P) (k : String) (s : Slot P) (x : Option ℕ)
      → Waits m
      → All (Kept k) s.queue
      → Waits (cancel_slot m k s x).0
  unfolding Waits cancel_slot
  cancel_slot-Waits m k s none w a = w
  cancel_slot-Waits m k s (some c) w a = put-Waits m k (record s { cancel = none }) m.next_ctx w a

  pub cancel-Waits : (m : Manager P) (k : String) → Waits m → Waits (cancel m k).0
  unfolding cancel
  cancel-Waits m k w = elim (Option-cases (m.slots k)) [
    | inl e ↦ rw (e, cancel, cancel_in) w
    | inr (s, e) ↦
        rw (e, cancel, cancel_in) (cancel_slot-Waits m k s s.cancel w (line_of m k s w e))
  ]

  -- The item that Finish gives is kept, too.
  abbrev pub NextKept : String → Option (Item P) → Type 0
  NextKept k none = Unit
  NextKept k (some item) = Kept k item

  pop_waiter-Waits :
      (m : Manager P) (k : String) (s : Slot P) (qs : List (Item P))
      → Waits m
      → All (Kept k) qs
      → Waits (pop_waiter m k s qs).0 × NextKept k (pop_waiter m k s qs).1
  unfolding Waits pop_waiter arm_cancel clear_cancel
  pop_waiter-Waits m k s [] w a = ((λ j t h. w j t (delete_cases k m.slots j t h).1), tt)
  pop_waiter-Waits m k s (q ∷ qs) w a = (put-Waits m k _ (suc m.next_ctx) w a.1, a.0)

  pub finish-Waits :
      (m : Manager P) (k u : String)
      → Waits m
      → Waits (finish m k u).0 × NextKept k (finish m k u).1
  unfolding finish
  finish-Waits m k u w = elim (Option-cases (m.slots k)) [
    | inl e ↦ rw (e, finish, finish_slot) (w, tt)
    | inr (s, e) ↦ elim (Bool-cases (not (s.busy_open_id == "") && not (s.busy_open_id == u))) [
      | inl refused ↦ rw (e, finish, finish_slot, refused) (w, tt)
      | inr mine ↦
          rw (e, finish, finish_slot, mine)
            (pop_waiter-Waits m k (idle_slot s) s.queue w (line_of m k s w e))
    ]
  ]

  pub new-Waits : Waits (new {P = P})
  unfolding Waits new
  new-Waits k s h = cc
