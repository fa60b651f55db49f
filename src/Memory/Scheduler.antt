-- ===== src/Memory/Scheduler.antt =====
-- internal/memory/scheduler.go: the queue of profile jobs, the pumps that run them, and the scan for
-- idle users. A section under the mutex is one function; the goroutines are in World.
pub mod Counts
pub mod Exclusive
pub mod Examples
use yzj_bot_bridge.Prelude.{
  ℕ, zero, suc, ◌+◌, ◌-◌, ◌*◌, ◌/◌, ◌≤◌, ◌<◌, String, ◌≡◌, refl, sym, ap, ◌∙◌, fun_ext, ◌≢◌, ◌⊎◌,
  inl, inr, Bool, true, false, not, ◌&&◌, ◌||◌, Option, none, some, List, [], ◌∷◌, ◌++◌, map,
  append-nil, append_assoc, arith, eq_iff, eq_refl, ltb, leb, nat_eq, ◌==◌, if◌then◌else◌,
  Bool-cases, Option-cases, ==_of_ne, ==_of_eq, ltb→lt, lt→ltb, not-ltb-le, le-not_ltb, length,
  get_elem?, take, drop, All, length-append, length-drop, length-take-le, drop-nil,
  take-append-drop, drop-append_long, drop-append, drop-drop, drop-append_short, All-append,
  All-drop, length-map, Dict, empty_dict, put, delete, put_cases, delete_cases, put_self, put_other,
  concat, trim_space, to_lower, equal_fold, fold_code, has_prefix, behind, contains_text,
  join_fields, rune_count, first_runes, rest_runes, rune_count-first_runes, rune_count-concat,
  rune_count-trim_space,
}
use yzj_bot_bridge.Memory.Blank.{trim_blank}

pub record Job : Type 0 where
  pub open_id : String
  pub reason : String

pub record Scheduler : Type 0 where
  pub inflight : String → Bool
  pub queue : List Job
  pub stop_closed : Bool  -- stopCh is closed
  pub stopped : Bool
  pub running : Bool

-- NewScheduler
abbrev pub new : Scheduler
new = record {
  inflight = λ id. false;
  queue = [];
  stop_closed = false;
  stopped = false;
  running = false;
}

-- stopLocked, Stop
unfoldable pub stop : Scheduler → Scheduler
stop s = if s.stopped then s else record s { stopped = true; running = false; stop_closed = true }

-- StartIdleTicker, less the goroutine of the ticker
unfoldable pub start_idle_ticker : Scheduler → Scheduler
unfolding stop
start_idle_ticker s =
    let s1 : Scheduler =
      if s.running then record (stop s) { stop_closed = false; stopped = false } else s in
    record s1 { running = true }

unfoldable pub queued : List Job → String → Bool
queued [] id = false
queued (j ∷ js) id = j.open_id == id || queued js id

-- Enqueue; the Boolean says whether a pump is started.
unfoldable pub enqueue : String → String → Scheduler → Scheduler × Bool
unfolding queued
enqueue open_id reason s =
    let id = trim_blank open_id in
    if id == "" || s.stopped || s.inflight id || queued s.queue id
    then (s, false)
    else (record s { queue = s.queue ++ record { open_id = id; reason = reason } ∷ [] }, true)

unfoldable pub set_flag : String → Bool → (String → Bool) → String → Bool
set_flag id b f k = if id == k then b else f k

-- What one turn of the loop of pump finds under the mutex.
pub data Turn : Type 0 where
  ends again : Turn
  runs : Job → Turn

-- A turn of pump on a queue.
unfoldable pub pump_from : List Job → Scheduler → Scheduler × Turn
unfolding set_flag
pump_from [] s = (s, ends)
pump_from (j ∷ js) s =
    let free : Scheduler × Turn =
      (record s { queue = js; inflight = set_flag j.open_id true s.inflight }, runs j) in
    if s.stopped
    then (s, ends)
    else (if s.inflight j.open_id then (record s { queue = js }, again) else free)

-- The section of pump under the mutex.
unfoldable pub pump : Scheduler → Scheduler × Turn
unfolding pump_from
pump s = pump_from s.queue s

-- The deferred section of pump under the mutex.
unfoldable pub finish : Job → Scheduler → Scheduler
unfolding set_flag
finish j s = record s { inflight = set_flag j.open_id false s.inflight }

-- A profile, as the scan reads it.
pub record Profile : Type 0 where
  pub open_id : String
  pub opted_out : Bool
  pub last_seen : String
  pub profiled_count : ℕ

-- What the scan meets: the settings, the time in seconds, the reading of a time, and the number of
-- turns after a count, where they can be read.
pub record Scan : Type 0 where
  pub enabled : Bool
  pub idle_sec : ℕ  -- one below 1 means 1800
  pub now : ℕ
  pub parse : String → Option ℕ
  pub unprofiled : String → ℕ → Option ℕ

abbrev pub idle_bound : Scan → ℕ
idle_bound scan = if nat_eq scan.idle_sec 0 then 1800 else scan.idle_sec

-- The tests of scanIdle on one profile.
unfoldable pub is_due : Scan → Profile → Bool
is_due scan p =
    not (p.opted_out || p.open_id == "" || p.last_seen == "")
    && (elim (scan.parse p.last_seen) [
      | none ↦ false
      | some last ↦ leb (idle_bound scan) (scan.now - last)
    ])
    && (elim (scan.unprofiled p.open_id p.profiled_count) [ none ↦ false | some n ↦ ltb 0 n ])

-- The loop of scanIdle.
unfoldable pub scan_profiles : Scan → List Profile → Scheduler → Scheduler
unfolding is_due enqueue
scan_profiles scan [] s = s
scan_profiles scan (p ∷ ps) s =
    let s1 : Scheduler = if is_due scan p then (enqueue p.open_id "idle" s).0 else s in
    scan_profiles scan ps s1

-- scanIdle; the profiles are there if they can be listed.
unfoldable pub scan_idle : Scan → Option (List Profile) → Scheduler → Scheduler
unfolding scan_profiles
scan_idle scan profiles s =
    if scan.enabled then elim profiles [ none ↦ s | some ps ↦ scan_profiles scan ps s ] else s

-- The scheduler with its pumps: the jobs that wait for the token, that run, and that have given the
-- token back, and the tokens in the channel `sem`, which has room for one.
pub record World : Type 0 where
  pub sch : Scheduler
  pub waiting : List Job
  pub at_work : List Job
  pub released : List Job
  pub sem : ℕ

abbrev pub init : World
init = record { sch = new; waiting = []; at_work = []; released = []; sem = 0 }

-- A job of a turn goes to those that wait.
unfoldable pub after_pump : World → Scheduler × Turn → World
after_pump w (s, ends) = record w { sch = s }
after_pump w (s, again) = record w { sch = s }
after_pump w (s, runs j) = record w { sch = s; waiting = j ∷ w.waiting }

-- What can happen next.
pub data Step (w : World) : World → Type 0 where
  enqueues : (id reason : String) → Step w (record w { sch = (enqueue id reason w.sch).0 })
  pumps : Step w (after_pump w (pump w.sch))
  stops : Step w (record w { sch = stop w.sch })
  starts : Step w (record w { sch = start_idle_ticker w.sch })
  scans :
      (scan : Scan) (ps : Option (List Profile))
      → Step w (record w { sch = scan_idle scan ps w.sch })
  takes :
      (xs ys : List Job) (j : Job)
      → w.waiting ≡ xs ++ j ∷ ys
      → w.sem ≡ 0
      → Step w (record w { waiting = xs ++ ys; at_work = j ∷ w.at_work; sem = 1 })
  gives_back :
      (xs ys : List Job) (j : Job)
      → w.at_work ≡ xs ++ j ∷ ys
      → Step w (record w { at_work = xs ++ ys; released = j ∷ w.released; sem = w.sem - 1 })
  finishes :
      (xs ys : List Job) (j : Job)
      → w.released ≡ xs ++ j ∷ ys
      → Step w (record w { released = xs ++ ys; sch = finish j w.sch })

pub data Reach : World → Type 0 where
  start : Reach init
  later : {w w' : World} → Reach w → Step w w' → Reach w'
