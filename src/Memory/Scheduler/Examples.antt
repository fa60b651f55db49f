-- ===== src/Memory/Scheduler/Examples.antt =====
-- The scheduler with two users, one of whom runs and the other waits.
use yzj_bot_bridge.Prelude.{◌+◌, ◌≤◌, String, ◌≡◌, refl, [], ◌∷◌, length}
use yzj_bot_bridge.Memory.Blank.{trim_blank}
use yzj_bot_bridge.Memory.Scheduler.{
  Job, enqueue, set_flag, pump, pump_from, World, init, after_pump, enqueues, pumps, takes, Reach,
  start, later, queued,
}
use yzj_bot_bridge.Memory.Scheduler.Exclusive.{one_at_a_time}
use yzj_bot_bridge.Memory.Scheduler.Counts.{count}

abbrev enqueued : String → World → World
enqueued id w = record w { sch = (enqueue id "idle" w.sch).0 }

abbrev pumped : World → World
pumped w = after_pump w (pump w.sch)

-- Two users are queued, the first twice; both jobs are taken out, and the first one runs.
abbrev two_queued : World
two_queued = enqueued "u1" (enqueued "u2" (enqueued " u1" init))

two_queued-Reach : Reach two_queued
two_queued-Reach =
    later (later (later start (enqueues " u1" "idle")) (enqueues "u2" "idle"))
      (enqueues "u1" "idle")

abbrev both_out : World
both_out = pumped (pumped two_queued)

both_out-Reach : Reach both_out
both_out-Reach = later (later two_queued-Reach pumps) pumps

abbrev u1 : Job
u1 = record { open_id = "u1"; reason = "idle" }

abbrev u2 : Job
u2 = record { open_id = "u2"; reason = "idle" }

both_wait : both_out.waiting ≡ u2 ∷ (u1 ∷ [])
unfolding enqueue pump pump_from after_pump set_flag queued trim_blank
both_wait = refl

no_token : both_out.sem ≡ 0
unfolding after_pump pump pump_from enqueue queued trim_blank set_flag
no_token = refl

abbrev one_runs : World
one_runs = record both_out { waiting = u2 ∷ []; at_work = u1 ∷ both_out.at_work; sem = 1 }

one_runs-Reach : Reach one_runs
one_runs-Reach = later both_out-Reach (takes (u2 ∷ []) [] u1 both_wait no_token)

one_at_a_time_example :
    (length one_runs.at_work ≤ 1)
    × (count "u1" one_runs.sch.queue
          + (count "u1" one_runs.waiting
              + count "u1" one_runs.at_work
              + count "u1" one_runs.released)
        ≤ 1)
one_at_a_time_example = one_at_a_time one_runs-Reach "u1"
