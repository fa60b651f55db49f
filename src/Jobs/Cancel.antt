-- ===== src/Jobs/Cancel.antt =====
-- Cancelling the running job of a scope.
use native.Mathlib.Nat.{le_refl}
use yzj_bot_bridge.Prelude.{
  ℕ, String, ◌≡◌, refl, sym, ap, ◌∙◌, ◌≢◌, inl, inr, true, false, not, Option, none, some, List, [],
  ◌∷◌, arith, eq_iff, eq_refl, Option-cases,
}
use yzj_bot_bridge.Jobs.Types.{Item, Slot, idle_slot, arm_cancel}
use yzj_bot_bridge.Jobs.Waiters.{users}
use yzj_bot_bridge.Jobs.Contexts.{Armed}
use yzj_bot_bridge.Jobs.Invariant.{Inv, ctx-lt-next}
use yzj_bot_bridge.Jobs.Line.{members, members_of}
use yzj_bot_bridge.Jobs.{
  Manager, context, cancel, cancel_in, cancel_slot, finish, finish_slot, pop_waiter,
}

ne_cons : {u : String} {us : List String} → [] ≡ u ∷ us → ⊥
ne_cons h = cc

module _ {P : Type 0} where
  -- What Cancel promises for a scope that holds the context `c`.
  pub record Cancels (m : Manager P) (k : String) (c : ℕ) : Type 0 where
    pub reported : (cancel m k).1 ≡ not (m.cancelled c)
    pub done : (cancel m k).0.cancelled c ≡ true
    pub same_context : context (cancel m k).0 k ≡ some c
    pub once : (cancel (cancel m k).0 k).1 ≡ false
    pub others : (d : ℕ) → d ≢ c → (cancel m k).0.cancelled d ≡ m.cancelled d

  Cancels-live :
      (m : Manager P) (k : String) (s : Slot P) (c d : ℕ)
      → m.slots k ≡ some s
      → s.ctx ≡ some c
      → s.cancel ≡ some d
      → d ≡ c
      → m.cancelled c ≡ false
      → Cancels m k c
  unfolding cancel cancel_in cancel_slot context
  Cancels-live m k s c d e ec ed dc off = record {
    reported = rw (e, cancel_in, ed, cancel_slot, off);
    done = rw (e, cancel_in, ed, cancel_slot) (ground arith);
    same_context = rw (e, cancel_in, ed, cancel_slot, context, eq_refl k) ec;
    once = rw (e, cancel_in, ed, cancel_slot, eq_refl k);
    others = λ x h. rw (e, cancel_in, ed, cancel_slot) (ground arith);
  }

  Cancels-over :
      (m : Manager P) (k : String) (s : Slot P) (c : ℕ)
      → m.slots k ≡ some s
      → s.ctx ≡ some c
      → s.cancel ≡ none
      → m.cancelled c ≡ true
      → Cancels m k c
  unfolding cancel cancel_in cancel_slot context
  Cancels-over m k s c e ec ed on = record {
    reported = rw (e, cancel_in, ed, cancel_slot, on);
    done = rw (e, cancel_in, ed, cancel_slot) on;
    same_context = rw (e, cancel_in, ed, cancel_slot, context, e) ec;
    once = rw (e, cancel_in, ed, cancel_slot, e, cancel_in, ed, cancel_slot);
    others = λ x h. rw (e, cancel_in, ed, cancel_slot);
  }

  Armed-Cancels :
      (m : Manager P) (k : String) (s : Slot P) (x y : Option ℕ)
      → m.slots k ≡ some s
      → s.ctx ≡ x
      → s.cancel ≡ y
      → Armed m.next_ctx m.cancelled x y
      → (c : ℕ) × (context m k ≡ some c) × Cancels m k c
  unfolding context
  Armed-Cancels m k s none y e ec ed a = absurd a
  Armed-Cancels m k s (some c) none e ec ed a =
      (c, rw (context, e) ec, Cancels-over m k s c e ec ed a.1)
  Armed-Cancels m k s (some c) (some d) e ec ed a =
      (c, rw (context, e) ec, Cancels-live m k s c d e ec ed a.1 a.2)

  -- In a state that the calls reach, a scope with a slot has a context, and Cancel cancels exactly
  -- that one: it answers true if the context was not cancelled before, the context stays that of
  -- the scope, no other context changes, and another Cancel of the scope answers false.
  pub cancel-Cancels :
      (m : Manager P) (k : String) (s : Slot P)
      → Inv m
      → m.slots k ≡ some s
      → (c : ℕ) × (context m k ≡ some c) × Cancels m k c
  cancel-Cancels m k s v e = Armed-Cancels m k s s.ctx s.cancel e refl refl (v.armed k s e)

  pop_waiter-context :
      (m : Manager P) (k : String) (s : Slot P) (qs : List (Item P)) (v : String) (vs : List String)
      → users qs ≡ v ∷ vs
      → context (pop_waiter m k s qs).0 k ≡ some m.next_ctx
  unfolding pop_waiter context arm_cancel
  pop_waiter-context m k s [] v vs e = cc
  pop_waiter-context m k s (q ∷ qs) v vs e = rw (context, eq_refl k)

  finish_slot-context :
      (m : Manager P) (k u v : String) (s : Slot P) (vs : List String)
      → s.busy_open_id ∷ users s.queue ≡ u ∷ v ∷ vs
      → context (finish_slot m k u (some s)).0 k ≡ some m.next_ctx
  unfolding finish_slot
  finish_slot-context m k u v s vs h =
      ground (arith, eq_iff s.busy_open_id u, pop_waiter-context m k (idle_slot s) s.queue v vs)

  -- In a state that the calls reach, when the runner of a scope finishes and another user waits, the
  -- job that runs then has a context that is not cancelled and that no scope had before.
  pub finish-context :
      (m : Manager P) (k u v : String) (vs : List String)
      → Inv m
      → members m k ≡ u ∷ v ∷ vs
      → (context (finish m k u).0 k ≡ some m.next_ctx)
        × (m.cancelled m.next_ctx ≡ false)
        × ((j : String) → context m j ≢ some m.next_ctx)
  unfolding finish context
  finish-context m k u v vs w h = elim (Option-cases (m.slots k)) [
    | inl e ↦ absurd (ne_cons (ap members_of (sym e) ∙ h))
    | inr (s, e) ↦ (
      rw (e, finish) (finish_slot-context m k u v s vs (rw e at h)),
      w.fresh m.next_ctx (le_refl m.next_ctx),
      λ j q. elim (Option-cases (m.slots j)) [
        | inl n ↦ cc (rw (context, n) at q)
        | inr (t, n) ↦
            absurd (omega (arith, ctx-lt-next m j t m.next_ctx w n (rw (context, n) at q)))
      ],
    )
  ]
