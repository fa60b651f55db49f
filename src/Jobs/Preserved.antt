-- ===== src/Jobs/Preserved.antt =====
-- Every operation of the job queues keeps the invariant, and so does every history of calls that
-- name their users.
use yzj_bot_bridge.Prelude.{
  ℕ, String, ◌≡◌, refl, ◌≢◌, inl, inr, not, ◌&&◌, Option, none, some, List, [], ◌∷◌, ◌++◌, arith,
  eq_iff, ◌==◌, Bool-cases, Option-cases, All-append, put,
}
use yzj_bot_bridge.Jobs.Types.{Item, Slot, empty_slot, idle_slot, merge_waiting}
use yzj_bot_bridge.Jobs.Waiters.{
  Absent, Distinct, Distinct-append, users, users-append, merge_waiting-Merged, merge_waiting-none,
}
use yzj_bot_bridge.Jobs.Invariant.{Inv, put-Inv_same, put-Inv_fresh, delete-Inv, cancel_slot-Inv}
use yzj_bot_bridge.Jobs.{
  Manager, new, slot, offer, accept, enqueue, try_accept, drain_extra, drain_slot, finish,
  finish_slot, pop_waiter, cancel, cancel_in,
}

Absent-append : (u w : String) (us : List String) → Absent u us → w ≢ u → Absent u (us ++ w ∷ [])
Absent-append u w us a h = All-append (λ x. x ≢ u) us (w ∷ []) a (h, tt)

module _ {P : Type 0} where
  accept-Inv :
      (m : Manager P) (k : String) (s : Slot P) (u name content : String)
      → Inv m
      → u ≢ ""
      → s.queue ≡ []
      → Inv (accept m k s u name content).0
  unfolding accept
  accept-Inv m k s u name content v h e =
      put-Inv_fresh m k (record s { busy_open_id = u; busy_name = name; busy_content = content }) v
        (record { runs = h; named = rw e tt; apart = rw e tt; distinct = rw e tt })

  -- A slot that runs goes on with another line of the same kind.
  line-Inv :
      (m : Manager P) (k : String) (s : Slot P) (qs : List (Item P))
      → Inv m
      → m.slots k ≡ some s
      → Absent "" (users qs)
      → Absent s.busy_open_id (users qs)
      → Distinct (users qs)
      → Inv (record m { slots = put k (record s { queue = qs }) m.slots })
  line-Inv m k s qs v e hn ha hd =
      put-Inv_same m k s (record s { queue = qs }) v e refl refl
        (record { runs = (v.slots k s e).runs; named = hn; apart = ha; distinct = hd })

  extra-Inv :
      (m : Manager P) (k : String) (s : Slot P) (x : String)
      → Inv m
      → m.slots k ≡ some s
      → Inv (record m { slots = put k (record s { extra = x }) m.slots })
  extra-Inv m k s x v e =
      let w = v.slots k s e in
      put-Inv_same m k s (record s { extra = x }) v e refl refl
        (record { runs = w.runs; named = w.named; apart = w.apart; distinct = w.distinct })

  enqueue-Inv :
      (m : Manager P) (k : String) (s : Slot P) (item : Item P)
      → Inv m
      → m.slots k ≡ some s
      → item.open_id ≢ ""
      → item.open_id ≢ s.busy_open_id
      → (r : Option (List (Item P) × ℕ))
      → merge_waiting item.open_id item.name item.content item.payload s.queue ≡ r
      → Inv (enqueue m k s item r).0
  unfolding enqueue
  enqueue-Inv m k s item v e h hb none new_user =
      let w = v.slots k s e in
      line-Inv m k s (s.queue ++ item ∷ []) v e
        (rw (users-append s.queue (item ∷ []))
          (Absent-append "" item.open_id (users s.queue) w.named h))
        (rw (users-append s.queue (item ∷ []))
          (Absent-append s.busy_open_id item.open_id (users s.queue) w.apart hb))
        (rw (users-append s.queue (item ∷ [])) (
          Distinct-append (users s.queue) item.open_id w.distinct
            (merge_waiting-none item.open_id item.name item.content item.payload s.queue new_user)))
  enqueue-Inv m k s item v e h hb (some (qs, i)) found =
      let w = v.slots k s e in
      let g =
        merge_waiting-Merged item.open_id item.name item.content item.payload s.queue qs i found in
      line-Inv m k s qs v e (rw g.same_users w.named) (rw g.same_users w.apart)
        (rw g.same_users w.distinct)

  offer-Inv :
      (m : Manager P) (k : String) (s : Slot P) (item : Item P)
      → Inv m
      → m.slots k ≡ some s
      → item.open_id ≢ ""
      → Inv (offer m k s item).0
  unfolding offer
  offer-Inv m k s item v e h = elim (Bool-cases (s.busy_open_id == "")) [
    | inl idle ↦ absurd ((v.slots k s e).runs ((eq_iff s.busy_open_id "").0 idle))
    | inr running ↦ elim (Bool-cases (s.busy_open_id == item.open_id)) [
      | inl same ↦ rw (running, same, offer) (extra-Inv m k s _ v e)
      | inr other ↦
          rw (running, other, offer)
            (enqueue-Inv m k s item v e h (λ q. ground (arith, eq_iff s.busy_open_id item.open_id))
              (merge_waiting item.open_id item.name item.content item.payload s.queue) refl)
    ]
  ]

  pub try_accept-Inv :
      (m : Manager P) (k : String) (item : Item P)
      → Inv m
      → item.open_id ≢ ""
      → Inv (try_accept m k item).0
  unfolding try_accept
  try_accept-Inv m k item v h = elim (Option-cases (m.slots k)) [
    | inl e ↦
        rw (e, try_accept, slot)
          (accept-Inv m k empty_slot item.open_id item.name item.content v h refl)
    | inr (s, e) ↦ rw (e, try_accept, slot) (offer-Inv m k s item v e h)
  ]

  pub drain_extra-Inv : (m : Manager P) (k u : String) → Inv m → Inv (drain_extra m k u).0
  unfolding drain_extra
  drain_extra-Inv m k u v = elim (Option-cases (m.slots k)) [
    | inl e ↦ rw (e, drain_extra, drain_slot) v
    | inr (s, e) ↦ elim (Bool-cases (s.busy_open_id == u)) [
      | inl mine ↦ rw (e, drain_extra, drain_slot, mine) (extra-Inv m k s "" v e)
      | inr other ↦ rw (e, drain_extra, drain_slot, other) v
    ]
  ]

  pop_waiter-Inv :
      (m : Manager P) (k : String) (s : Slot P) (qs : List (Item P))
      → Inv m
      → Absent "" (users qs)
      → Distinct (users qs)
      → Inv (pop_waiter m k s qs).0
  unfolding pop_waiter
  pop_waiter-Inv m k s [] v hn hd = delete-Inv m k v
  pop_waiter-Inv m k s (item ∷ rest) v hn hd =
      put-Inv_fresh m k
        (record s {
          queue = rest;
          busy_open_id = item.open_id;
          busy_name = item.name;
          busy_content = item.content;
        })
        v (record { runs = hn.0; named = hn.1; apart = hd.0; distinct = hd.1 })

  pub finish-Inv : (m : Manager P) (k u : String) → Inv m → Inv (finish m k u).0
  unfolding finish
  finish-Inv m k u v = elim (Option-cases (m.slots k)) [
    | inl e ↦ rw (e, finish, finish_slot) v
    | inr (s, e) ↦ elim (Bool-cases (not (s.busy_open_id == "") && not (s.busy_open_id == u))) [
      | inl refused ↦ rw (e, finish, finish_slot, refused) v
      | inr mine ↦
          rw (e, finish, finish_slot, mine)
            (pop_waiter-Inv m k (idle_slot s) s.queue v (v.slots k s e).named
              (v.slots k s e).distinct)
    ]
  ]

  pub cancel-Inv : (m : Manager P) (k : String) → Inv m → Inv (cancel m k).0
  unfolding cancel
  cancel-Inv m k v = elim (Option-cases (m.slots k)) [
    | inl e ↦ rw (e, cancel, cancel_in) v
    | inr (s, e) ↦ rw (e, cancel, cancel_in) (cancel_slot-Inv m k s s.cancel v e refl)
  ]

  pub new-Inv : Inv (new {P = P})
  unfolding new
  new-Inv = record {
    slots = λ k s h. cc;
    armed = λ k s h. cc;
    own = λ j k s t c h. cc;
    fresh = λ c h. refl;
  }

-- The calls that change the state.
pub data Call (P : Type 0) : Type 0 where
  accepts : String → Item P → Call P
  drains finishes : String → String → Call P
  cancels : String → Call P

module _ {P : Type 0} where
  unfoldable pub step : Manager P → Call P → Manager P
  step m (accepts k item) = (try_accept m k item).0
  step m (drains k u) = (drain_extra m k u).0
  step m (finishes k u) = (finish m k u).0
  step m (cancels k) = (cancel m k).0

  unfoldable pub run : Manager P → List (Call P) → Manager P
  run m [] = m
  run m (c ∷ cs) = run (step m c) cs

  -- Who asks for a job gives an id.
  abbrev pub Named : List (Call P) → Type 0
  Named [] = Unit
  Named (accepts k item ∷ cs) = (item.open_id ≢ "") × Named cs
  Named (drains k u ∷ cs) = Named cs
  Named (finishes k u ∷ cs) = Named cs
  Named (cancels k ∷ cs) = Named cs

  pub Named-head : (c : Call P) (cs : List (Call P)) → Named (c ∷ cs) → Named (c ∷ [])
  Named-head (accepts k item) cs n = (n.0, tt)
  Named-head (drains k u) cs n = tt
  Named-head (finishes k u) cs n = tt
  Named-head (cancels k) cs n = tt

  pub Named-tail : (c : Call P) (cs : List (Call P)) → Named (c ∷ cs) → Named cs
  Named-tail (accepts k item) cs n = n.1
  Named-tail (drains k u) cs n = n
  Named-tail (finishes k u) cs n = n
  Named-tail (cancels k) cs n = n

  pub step-Inv : (m : Manager P) (c : Call P) → Inv m → Named (c ∷ []) → Inv (step m c)
  unfolding step
  step-Inv m (accepts k item) v n = try_accept-Inv m k item v n.0
  step-Inv m (drains k u) v n = drain_extra-Inv m k u v
  step-Inv m (finishes k u) v n = finish-Inv m k u v
  step-Inv m (cancels k) v n = cancel-Inv m k v

  pub run-Inv : (m : Manager P) (cs : List (Call P)) → Inv m → Named cs → Inv (run m cs)
  unfolding run
  run-Inv m [] v n = v
  run-Inv m (c ∷ cs) v n =
      run-Inv (step m c) cs (step-Inv m c v (Named-head c cs n)) (Named-tail c cs n)

  -- After any calls in which every TryAccept names its user, each scope that has a slot has a
  -- named runner, its waiters are distinct named users other than the runner, its context is not
  -- that of another scope, and its cancel function is gone exactly if that context is cancelled.
  pub history-Inv : (cs : List (Call P)) → Named cs → Inv (run new cs)
  history-Inv cs n = run-Inv new cs new-Inv n
