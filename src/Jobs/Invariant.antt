-- ===== src/Jobs/Invariant.antt =====
-- What holds of the job queues between two calls, as long as every call names its user: a slot has
-- a runner, its waiters are distinct users other than the runner, and the context that it holds
-- is its own.
use native.Mathlib.Nat.{le_refl}
use mathlib.Core.Path.{subst}
use yzj_bot_bridge.Prelude.{
  ℕ, suc, ◌≤◌, ◌<◌, String, ◌≡◌, refl, ◌≢◌, inl, inr, false, Option, none, some, arith, eq_iff, put,
  delete, put_cases, delete_cases,
}
use yzj_bot_bridge.Jobs.Waiters.{Absent, Distinct, users}
use yzj_bot_bridge.Jobs.Contexts.{
  Armed, Armed-mono, Armed-lt, Armed-cancel, Armed-cancel_other, set_cancelled,
}
use yzj_bot_bridge.Jobs.Types.{Slot, clear_cancel, arm_cancel}
use yzj_bot_bridge.Jobs.{Manager, cancel_slot}

module _ {P : Type 0} where
  pub record SlotInv (s : Slot P) : Type 0 where
    pub runs : s.busy_open_id ≢ ""
    pub named : Absent "" (users s.queue)
    pub apart : Absent s.busy_open_id (users s.queue)
    pub distinct : Distinct (users s.queue)

  pub record Inv (m : Manager P) : Type 0 where
    pub slots : (k : String) (s : Slot P) → m.slots k ≡ some s → SlotInv s
    pub armed :
        (k : String) (s : Slot P) → m.slots k ≡ some s → Armed m.next_ctx m.cancelled s.ctx s.cancel
    pub own :
        (j k : String) (s t : Slot P) (c : ℕ)
        → m.slots j ≡ some s
        → m.slots k ≡ some t
        → s.ctx ≡ some c
        → t.ctx ≡ some c
        → j ≡ k
    pub fresh : (c : ℕ) → m.next_ctx ≤ c → m.cancelled c ≡ false

  -- A slot is written back with its own context.
  pub put-Inv_same :
      (m : Manager P) (k : String) (s s' : Slot P)
      → Inv m
      → m.slots k ≡ some s
      → s'.ctx ≡ s.ctx
      → s'.cancel ≡ s.cancel
      → SlotInv s'
      → Inv (record m { slots = put k s' m.slots })
  put-Inv_same m k s s' v e ec ed w = record {
    slots = λ j t h. elim (put_cases k s' m.slots j t h) [
      | inl p ↦ subst SlotInv p.1 w
      | inr q ↦ v.slots j t q.1
    ];
    armed = λ j t h. elim (put_cases k s' m.slots j t h) [
      | inl p ↦
          subst (λ x. Armed m.next_ctx m.cancelled x.ctx x.cancel) p.1 (rw (ec, ed) (v.armed k s e))
      | inr q ↦ v.armed j t q.1
    ];
    own = λ i j t u c h1 h2 h3 h4.
        ground (arith, eq_iff k i, eq_iff k j, v.own i j t u c, v.own i j s u c, v.own i j t s c);
    fresh = v.fresh;
  }

  -- A context in use was made earlier.
  pub ctx-lt-next :
      (m : Manager P) (k : String) (s : Slot P) (c : ℕ)
      → Inv m
      → m.slots k ≡ some s
      → s.ctx ≡ some c
      → c < m.next_ctx
  ctx-lt-next m k s c v e h = Armed-lt m.next_ctx m.cancelled c s.cancel (rw h at (v.armed k s e))

  -- A slot is written with a context made for it.
  pub put-Inv_fresh :
      (m : Manager P) (k : String) (s : Slot P)
      → Inv m
      → SlotInv s
      → Inv
          (record m { slots = put k (arm_cancel m.next_ctx s) m.slots; next_ctx = suc m.next_ctx })
  unfolding arm_cancel clear_cancel
  put-Inv_fresh m k s v w = record {
    slots = λ j t h. elim (put_cases k (arm_cancel m.next_ctx s) m.slots j t h) [
      | inl p ↦
          subst SlotInv p.1
            (record { runs = w.runs; named = w.named; apart = w.apart; distinct = w.distinct })
      | inr q ↦ v.slots j t q.1
    ];
    armed = λ j t h. elim (put_cases k (arm_cancel m.next_ctx s) m.slots j t h) [
      | inl p ↦
          subst (λ x. Armed (suc m.next_ctx) m.cancelled x.ctx x.cancel) p.1
            (omega arith, refl, v.fresh m.next_ctx (le_refl m.next_ctx))
      | inr q ↦ Armed-mono m.next_ctx m.cancelled t.ctx t.cancel (v.armed j t q.1)
    ];
    own = λ i j t u c h1 h2 h3 h4. ground (
      arith,
      eq_iff k i,
      eq_iff k j,
      v.own i j t u c,
      ctx-lt-next m i t c v,
      ctx-lt-next m j u c v,
    );
    fresh = λ c h. v.fresh c (omega arith);
  }

  pub cancel_slot-Inv :
      (m : Manager P) (k : String) (s : Slot P) (x : Option ℕ)
      → Inv m
      → m.slots k ≡ some s
      → s.cancel ≡ x
      → Inv (cancel_slot m k s x).0
  unfolding cancel_slot
  cancel_slot-Inv m k s none v e ed = v
  cancel_slot-Inv m k s (some d) v e ed =
      let (own_ctx, made, off) =
        Armed-cancel m.next_ctx m.cancelled s.ctx d (rw ed at (v.armed k s e)) in
      let s' : Slot P = record s { cancel = none } in
      record {
        slots = λ j t h. elim (put_cases k s' m.slots j t h) [
          | inl p ↦ subst SlotInv p.1 (kept (v.slots k s e))
          | inr q ↦ v.slots j t q.1
        ];
        armed = λ j t h. elim (put_cases k s' m.slots j t h) [
          | inl p ↦
              subst (λ y. Armed m.next_ctx (set_cancelled d m.cancelled) y.ctx y.cancel) p.1 off
          | inr q ↦
              Armed-cancel_other m.next_ctx m.cancelled t.ctx t.cancel d
                (λ same. q.0 (v.own k j s t d e q.1 own_ctx same)) (v.armed j t q.1)
        ];
        own = λ i j t u c h1 h2 h3 h4.
            ground
              (arith, eq_iff k i, eq_iff k j, v.own i j t u c, v.own i j s u c, v.own i j t s c);
        fresh = λ c h. ground (arith, v.fresh c);
      }
    where
      kept : SlotInv s → SlotInv (record s { cancel = none })
      kept w = record { runs = w.runs; named = w.named; apart = w.apart; distinct = w.distinct }

  pub delete-Inv :
      (m : Manager P) (k : String) → Inv m → Inv (record m { slots = delete k m.slots })
  delete-Inv m k v = record {
    slots = λ j t h. v.slots j t (delete_cases k m.slots j t h).1;
    armed = λ j t h. v.armed j t (delete_cases k m.slots j t h).1;
    own = λ i j t u c h1 h2.
        v.own i j t u c (delete_cases k m.slots i t h1).1 (delete_cases k m.slots j u h2).1;
    fresh = v.fresh;
  }
