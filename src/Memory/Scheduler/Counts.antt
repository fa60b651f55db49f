-- ===== src/Memory/Scheduler/Counts.antt =====
-- How often a user is in the lists of the scheduler, and what its operations do to that.
use mathlib.Core.Path.{subst}
use yzj_bot_bridge.Prelude.{
  ℕ, suc, ◌+◌, ◌≤◌, String, ◌≡◌, refl, sym, ap, ◌∙◌, inl, inr, Bool, true, false, ◌||◌, Option,
  none, some, List, [], ◌∷◌, ◌++◌, arith, eq_iff, eq_refl, ◌==◌, if◌then◌else◌, Bool-cases, length,
}
use yzj_bot_bridge.Memory.Blank.{trim_blank}
use yzj_bot_bridge.Memory.Scheduler.{
  Job, Scheduler, stop, start_idle_ticker, queued, enqueue, Profile, Scan, is_due, scan_profiles,
  scan_idle,
}

abbrev pub one_if : Bool → ℕ
one_if b = if b then 1 else 0

-- How often a user's job is in a list.
unfoldable pub count : String → List Job → ℕ
count id [] = 0
count id (j ∷ js) = one_if (j.open_id == id) + count id js

count-append : (id : String) (xs ys : List Job) → count id (xs ++ ys) ≡ count id xs + count id ys
unfolding count
count-append id [] ys = omega arith
count-append id (x ∷ xs) ys = omega (arith, count-append id xs ys)

pub count-split :
    (id : String) (xs ys : List Job) (j : Job)
    → count id (xs ++ j ∷ ys) ≡ one_if (j.open_id == id) + count id (xs ++ ys)
unfolding count
count-split id [] ys j = refl
count-split id (x ∷ xs) ys j = omega (arith, count-split id xs ys j)

pub length-split : (xs ys : List Job) (j : Job) → length (xs ++ j ∷ ys) ≡ suc (length (xs ++ ys))
length-split [] ys j = refl
length-split (x ∷ xs) ys j = ap suc (length-split xs ys j)

count-queued : (id : String) (js : List Job) → queued js id ≡ false → count id js ≡ 0
unfolding count queued
count-queued id [] h = refl
count-queued id (j ∷ js) h = ground (arith, count-queued id js (ground arith))

-- The queue and the users on their way have nobody twice.
abbrev pub Once : Scheduler → Type 0
Once s = (id : String) → count id s.queue + one_if (s.inflight id) ≤ 1

-- The users on their way are those of these jobs.
abbrev pub Flagged : (String → Bool) → List Job → List Job → List Job → Type 0
Flagged f ws rs ds = (id : String) → count id ws + count id rs + count id ds ≡ one_if (f id)

-- One more job of a user that has none.
Once-add :
    (s : Scheduler) (j : Job)
    → Once s
    → s.inflight j.open_id ≡ false
    → queued s.queue j.open_id ≡ false
    → (id : String) → count id (s.queue ++ j ∷ []) + one_if (s.inflight id) ≤ 1
unfolding count
Once-add s j once free absent id = elim (Bool-cases (j.open_id == id)) [
  | inl same ↦
      let e : j.open_id ≡ id = ground (arith, eq_iff j.open_id id) in
      subst (λ k. count k (s.queue ++ j ∷ []) + one_if (s.inflight k) ≤ 1) e
        (rw free (
          omega (
            arith,
            count-append j.open_id s.queue (j ∷ []),
            count-queued j.open_id s.queue absent,
            ap one_if (eq_refl j.open_id),
          )))
  | inr apart ↦ omega (arith, count-append id s.queue (j ∷ []), ap one_if apart, once id)
]

-- What enqueue may change.
pub enqueue_lem :
    (open_id reason : String) (s : Scheduler)
    → Once s
    → Once (enqueue open_id reason s).0 × ((enqueue open_id reason s).0.inflight ≡ s.inflight)
unfolding enqueue
enqueue_lem open_id reason s once =
    elim (Bool-cases (
      trim_blank open_id == ""
      || s.stopped
      || s.inflight (trim_blank open_id)
      || queued s.queue (trim_blank open_id))) [
        | inl refused ↦ rw (enqueue, refused) (once, refl)
        | inr taken ↦
            rw (enqueue, taken)
              (
                Once-add s (record { open_id = trim_blank open_id; reason = reason }) once
                    (ground arith) (ground arith),
                refl,
              )
      ]

scan_profiles_lem :
    (scan : Scan) (ps : List Profile) (s : Scheduler)
    → Once s
    → Once (scan_profiles scan ps s) × ((scan_profiles scan ps s).inflight ≡ s.inflight)
unfolding scan_profiles
scan_profiles_lem scan [] s once = (once, refl)
scan_profiles_lem scan (p ∷ ps) s once = elim (Bool-cases (is_due scan p)) [
  | inl due ↦
      let (once1, same) = enqueue_lem p.open_id "idle" s once in
      let (once2, same2) = scan_profiles_lem scan ps (enqueue p.open_id "idle" s).0 once1 in
      rw (scan_profiles, due) (once2, same2 ∙ same)
  | inr early ↦ rw (scan_profiles, early) (scan_profiles_lem scan ps s once)
]

pub scan_idle_lem :
    (scan : Scan) (ps : Option (List Profile)) (s : Scheduler)
    → Once s
    → Once (scan_idle scan ps s) × ((scan_idle scan ps s).inflight ≡ s.inflight)
unfolding scan_idle
scan_idle_lem scan none s once = ground_both (scan.enabled) s once
  where
    ground_both :
        (b : Bool) (s : Scheduler)
        → Once s
        → Once (if b then s else s) × ((if b then s else s).inflight ≡ s.inflight)
    ground_both true s once = (once, refl)
    ground_both false s once = (once, refl)
scan_idle_lem scan (some ps) s once = elim (Bool-cases scan.enabled) [
  | inl on ↦
      subst
        (λ b.
          let t : Scheduler = if b then scan_profiles scan ps s else s in
          Once t × (t.inflight ≡ s.inflight))
        (sym on) (scan_profiles_lem scan ps s once)
  | inr off ↦
      subst
        (λ b.
          let t : Scheduler = if b then scan_profiles scan ps s else s in
          Once t × (t.inflight ≡ s.inflight))
        (sym off) (once, refl)
]

pub stop_lem : (s : Scheduler) → ((stop s).queue ≡ s.queue) × ((stop s).inflight ≡ s.inflight)
unfolding stop
stop_lem s = elim (Bool-cases s.stopped) [
  | inl over ↦ rw (stop, over) (refl, refl)
  | inr on ↦ rw (stop, on) (refl, refl)
]

abbrev restart : Bool → Scheduler → Scheduler
restart b s = if b then record (stop s) { stop_closed = false; stopped = false } else s

pub start_lem :
    (s : Scheduler)
    → ((start_idle_ticker s).queue ≡ s.queue) × ((start_idle_ticker s).inflight ≡ s.inflight)
unfolding start_idle_ticker
start_lem s = elim (Bool-cases s.running) [
  | inl on ↦
      let (same_queue, same_flags) = stop_lem s in
      (
        ap (λ b. (restart b s).queue) on ∙ same_queue,
        ap (λ b. (restart b s).inflight) on ∙ same_flags,
      )
  | inr off ↦ (ap (λ b. (restart b s).queue) off, ap (λ b. (restart b s).inflight) off)
]
