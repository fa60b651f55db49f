-- ===== src/Memory/Scheduler/Exclusive.antt =====
-- One profile job runs at a time, and a user has one job in the queue or on its way.
use mathlib.Core.Path.{subst}
use yzj_bot_bridge.Prelude.{
  ◌+◌, ◌≤◌, String, ◌≡◌, refl, sym, ap, inl, inr, Bool, true, false, List, [], ◌∷◌, ◌++◌, arith,
  eq_iff, ◌==◌, if◌then◌else◌, Bool-cases, length,
}
use yzj_bot_bridge.Memory.Scheduler.{
  Job, Scheduler, stop, start_idle_ticker, enqueue, set_flag, Turn, ends, again, runs, pump,
  pump_from, finish, scan_idle, World, after_pump, Step, enqueues, pumps, stops, starts, scans,
  takes, gives_back, finishes, Reach, start, later,
}
use yzj_bot_bridge.Memory.Scheduler.Counts.{
  one_if, count, Once, Flagged, count-split, length-split, enqueue_lem, scan_idle_lem, stop_lem,
  start_lem,
}

record Inv (w : World) : Type 0 where
  once : Once w.sch
  flagged : Flagged w.sch.inflight w.waiting w.at_work w.released
  token : length w.at_work ≡ w.sem
  bound : w.sem ≤ 1

-- A change of the scheduler that keeps the flags.
Inv-sch :
    (w : World) (s : Scheduler)
    → Once s
    → s.inflight ≡ w.sch.inflight
    → Inv w
    → Inv (record w { sch = s })
Inv-sch w s once same inv = record {
  once = once;
  flagged = subst (λ f. Flagged f w.waiting w.at_work w.released) (sym same) inv.flagged;
  token = inv.token;
  bound = inv.bound;
}

Once-same : (s t : Scheduler) → t.queue ≡ s.queue → t.inflight ≡ s.inflight → Once s → Once t
Once-same s t q f once = λ id.
    subst (λ js. count id js + one_if (t.inflight id) ≤ 1) (sym q)
      (subst (λ g. count id s.queue + one_if (g id) ≤ 1) (sym f) (once id))

-- A job of a free user at the head of the queue goes to the jobs that wait.
Inv-runs :
    (w : World) (j : Job) (js : List Job)
    → w.sch.queue ≡ j ∷ js
    → w.sch.inflight j.open_id ≡ false
    → Inv w
    → Inv (record w {
      sch = record w.sch { queue = js; inflight = set_flag j.open_id true w.sch.inflight };
      waiting = j ∷ w.waiting;
    })
unfolding set_flag count
Inv-runs w j js q free inv = record {
  once = λ id. elim (Bool-cases (j.open_id == id)) [
    | inl same ↦ rw same (omega (arith, before id, ap one_if same))
    | inr apart ↦ rw apart (omega (arith, before id, ap one_if apart))
  ];
  flagged = λ id. elim (Bool-cases (j.open_id == id)) [
    | inl same ↦
        let e : j.open_id ≡ id = ground (arith, eq_iff j.open_id id) in
        rw same
          (omega (arith, inv.flagged id, ap one_if (subst (λ k. w.sch.inflight k ≡ false) e free)))
    | inr apart ↦ rw apart (omega (arith, inv.flagged id))
  ];
  token = inv.token;
  bound = inv.bound;
}
  where
    before : (id : String) → one_if (j.open_id == id) + count id js + one_if (w.sch.inflight id) ≤ 1
    before id = subst (λ l. count id l + one_if (w.sch.inflight id) ≤ 1) q (inv.once id)

-- A job of a user on their way would be dropped from the queue.
Inv-again :
    (w : World) (j : Job) (js : List Job)
    → w.sch.queue ≡ j ∷ js
    → Inv w
    → Inv (record w { sch = record w.sch { queue = js } })
unfolding count
Inv-again w j js q inv =
    Inv-sch w (record w.sch { queue = js })
      (λ id.
        omega (arith, subst (λ l. count id l + one_if (w.sch.inflight id) ≤ 1) q (inv.once id)))
      refl inv

Inv-pump_from :
    (w : World) (l : List Job) → w.sch.queue ≡ l → Inv w → Inv (after_pump w (pump_from l w.sch))
unfolding pump_from after_pump
Inv-pump_from w [] q inv = inv
Inv-pump_from w (j ∷ js) q inv = elim (Bool-cases w.sch.stopped) [
  | inl over ↦ subst (λ b. Inv (after_pump w (if b then (w.sch, ends) else on))) (sym over) inv
  | inr goes ↦
      subst (λ b. Inv (after_pump w (if b then (w.sch, ends) else on))) (sym goes)
        (elim (Bool-cases (w.sch.inflight j.open_id)) [
          | inl busy ↦
              subst (λ b. Inv (after_pump w (if b then dropped else free))) (sym busy)
                (Inv-again w j js q inv)
          | inr idle ↦
              subst (λ b. Inv (after_pump w (if b then dropped else free))) (sym idle)
                (Inv-runs w j js q idle inv)
        ])
]
  where
    dropped : Scheduler × Turn
    dropped = (record w.sch { queue = js }, again)

    free : Scheduler × Turn
    free = (record w.sch { queue = js; inflight = set_flag j.open_id true w.sch.inflight }, runs j)

    on : Scheduler × Turn
    on = if w.sch.inflight j.open_id then dropped else free

Inv-finish :
    (w : World) (xs ys : List Job) (j : Job)
    → w.released ≡ xs ++ j ∷ ys
    → Inv w
    → Inv (record w { released = xs ++ ys; sch = finish j w.sch })
unfolding finish set_flag
Inv-finish w xs ys j q inv = record {
  once = λ id. elim (Bool-cases (j.open_id == id)) [
    | inl same ↦ rw same (omega (arith, inv.once id))
    | inr apart ↦ rw apart (inv.once id)
  ];
  flagged = λ id. elim (Bool-cases (j.open_id == id)) [
    | inl same ↦
        rw same (omega (arith, before id, ap one_if same, one_if_bound (w.sch.inflight id)))
    | inr apart ↦ rw apart (omega (arith, before id, ap one_if apart))
  ];
  token = inv.token;
  bound = inv.bound;
}
  where
    one_if_bound : (b : Bool) → one_if b ≤ 1
    one_if_bound b = ground arith

    before :
        (id : String)
        → count id w.waiting + count id w.at_work + (one_if (j.open_id == id) + count id (xs ++ ys))
          ≡ one_if (w.sch.inflight id)
    before id = omega (arith, inv.flagged id, ap (count id) q, count-split id xs ys j)

Inv-Step : {w w' : World} → Inv w → Step w w' → Inv w'
unfolding count pump pump_from
Inv-Step {w} inv (enqueues id reason) =
    let (once, same) = enqueue_lem id reason w.sch inv.once in
    Inv-sch w (enqueue id reason w.sch).0 once same inv
Inv-Step {w} inv pumps = Inv-pump_from w w.sch.queue refl inv
Inv-Step {w} inv stops =
    let (q, f) = stop_lem w.sch in
    Inv-sch w (stop w.sch) (Once-same w.sch (stop w.sch) q f inv.once) f inv
Inv-Step {w} inv starts =
    let (q, f) = start_lem w.sch in
    Inv-sch w (start_idle_ticker w.sch) (Once-same w.sch (start_idle_ticker w.sch) q f inv.once) f
      inv
Inv-Step {w} inv (scans scan ps) =
    let (once, same) = scan_idle_lem scan ps w.sch inv.once in
    Inv-sch w (scan_idle scan ps w.sch) once same inv
Inv-Step {w} inv (takes xs ys j q z) = record {
  once = inv.once;
  flagged = λ id. omega (arith, inv.flagged id, ap (count id) q, count-split id xs ys j);
  token = omega (arith, inv.token, z);
  bound = omega arith;
}
Inv-Step {w} inv (gives_back xs ys j q) = record {
  once = inv.once;
  flagged = λ id. omega (arith, inv.flagged id, ap (count id) q, count-split id xs ys j);
  token = omega (arith, inv.token, ap length q, length-split xs ys j);
  bound = omega (arith, inv.bound);
}
Inv-Step {w} inv (finishes xs ys j q) = Inv-finish w xs ys j q inv

Inv-Reach : {w : World} → Reach w → Inv w
unfolding count
Inv-Reach start = record {
  once = λ id. omega arith;
  flagged = λ id. omega arith;
  token = refl;
  bound = omega arith;
}
Inv-Reach (later r s) = Inv-Step (Inv-Reach r) s

-- In every order of what can happen, one profile job runs at a time at most, and for each user there
-- is one job at most that is queued, waits, runs or has just run.
pub one_at_a_time :
    {w : World}
    → Reach w
    → (id : String)
    → (length w.at_work ≤ 1)
      × (count id w.sch.queue + (count id w.waiting + count id w.at_work + count id w.released) ≤ 1)
one_at_a_time {w} r id =
    let inv = Inv-Reach r in
    (omega (arith, inv.token, inv.bound), omega (arith, inv.once id, inv.flagged id))
