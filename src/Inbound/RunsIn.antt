-- ===== src/Inbound/RunsIn.antt =====
-- The goroutines of runJob against the job queues: which of them run in a scope.
use mathlib.Core.Path.{subst}
use yzj_bot_bridge.Prelude.{
  ℕ, String, ◌≡◌, refl, sym, ap, ◌∙◌, ◌≢◌, inl, inr, Bool, true, false, Option, some, List, [], ◌∷◌,
  ◌++◌, eq_iff, eq_refl, ◌==◌, if◌then◌else◌, Bool-cases, ==_of_ne, ==_of_eq, Dict,
}
use yzj_bot_bridge.Jobs
use yzj_bot_bridge.Jobs.{try_accept, drain_extra, finish, context, cancel}
use yzj_bot_bridge.Jobs.Invariant
use yzj_bot_bridge.Jobs.Holders.{context-holder, holder, only_holder}
use yzj_bot_bridge.Jobs.Kept.{Waits}
use yzj_bot_bridge.Bots.{Config}
use yzj_bot_bridge.Jobs.Types.{Item}
use yzj_bot_bridge.Inbound.Run.{next_job}
use yzj_bot_bridge.Inbound.Types.{QueuedJob, Running}
use yzj_bot_bridge.Inbound.Start.{queue_scope}

abbrev pub scope_of : QueuedJob → String
scope_of job = queue_scope job.bot job.n.open_id

-- The users whose jobs run in a scope, each with the context of the job.
unfoldable pub runs_in : String → List Running → List (String × Option ℕ)
runs_in k [] = []
runs_in k (r ∷ rs) =
    let rest = runs_in k rs in if scope_of r.job == k then (r.job.n.open_id, r.ctx) ∷ rest else rest

pub ne_of : (a b : String) → (a == b) ≡ false → a ≢ b
ne_of a b h e = true_false (sym (==_of_eq a b e) ∙ h)
  where
    true_false : true ≡ false → ⊥
    true_false e = cc

pub runs_in-append :
    (k : String) (xs ys : List Running) → runs_in k (xs ++ ys) ≡ runs_in k xs ++ runs_in k ys
unfolding runs_in
runs_in-append k [] ys = refl
runs_in-append k (x ∷ xs) ys = go (scope_of x.job == k) (runs_in-append k xs ys)
  where
    go :
        (b : Bool)
        → runs_in k (xs ++ ys) ≡ runs_in k xs ++ runs_in k ys
        → (if b then (x.job.n.open_id, x.ctx) ∷ runs_in k (xs ++ ys) else runs_in k (xs ++ ys))
          ≡ (if b then (x.job.n.open_id, x.ctx) ∷ runs_in k xs else runs_in k xs) ++ runs_in k ys
    go true e = ap (λ l. (x.job.n.open_id, x.ctx) ∷ l) e
    go false e = e

pub runs_in-here :
    (r : Running) (rs : List Running)
    → runs_in (scope_of r.job) (r ∷ rs) ≡ (r.job.n.open_id, r.ctx) ∷ runs_in (scope_of r.job) rs
unfolding runs_in
runs_in-here r rs = rw (eq_refl (scope_of r.job)) refl

pub runs_in-elsewhere :
    (k : String) (r : Running) (rs : List Running)
    → scope_of r.job ≢ k
    → runs_in k (r ∷ rs) ≡ runs_in k rs
unfolding runs_in
runs_in-elsewhere k r rs n = rw (==_of_ne (scope_of r.job) k n) refl

-- What a waiting item carries: a job that is of its scope.
abbrev pub Own : String → String → Option QueuedJob → Type 0
Own k u payload = (job : QueuedJob) × (payload ≡ some job) × (queue_scope job.bot u ≡ k)

-- In each scope runs just the job that the queues know as running, with the context that they hold.
pub record Fits (m : Jobs.Manager QueuedJob) (rs : List Running) : Type 0 where
  pub queues : Jobs.Invariant.Inv m
  pub waits : Waits Own m
  pub runs : (k : String) → runs_in k rs ≡ holder m k

-- The runners of every scope are the same.
pub keep-Fits :
    (m m' : Jobs.Manager QueuedJob) (rs : List Running)
    → Jobs.Invariant.Inv m'
    → Waits Own m'
    → ((j : String) → runs_in j rs ≡ holder m j)
    → ((j : String) → holder m' j ≡ holder m j)
    → Fits m' rs
keep-Fits m m' rs v w runs same = record {
  queues = v;
  waits = w;
  runs = λ j. runs j ∙ sym (same j);
}

pub at_each :
    (m m' : Jobs.Manager QueuedJob) (k : String)
    → holder m' k ≡ holder m k
    → ((j : String) → k ≢ j → holder m j ≡ holder m' j)
    → (j : String) → holder m' j ≡ holder m j
at_each m m' k here others j = elim (Bool-cases (k == j)) [
  | inl same ↦ subst (λ i. holder m' i ≡ holder m i) ((eq_iff k j).0 same) here
  | inr other ↦ sym (others j (ne_of k j other))
]

-- What is known when a job ends: it ran alone in its scope.
pub ended :
    (m : Jobs.Manager QueuedJob) (before after : List Running) (r : Running)
    → ((j : String) → runs_in j (before ++ r ∷ after) ≡ holder m j)
    → (runs_in (scope_of r.job) (before ++ after) ≡ [])
      × (holder m (scope_of r.job) ≡ (r.job.n.open_id, r.ctx) ∷ [])
ended m before after r runs =
    let k = scope_of r.job in
    let (none_before, none_after, alone) =
      only_holder m k (runs_in k before) (runs_in k after) (r.job.n.open_id, r.ctx)
        (ap (λ l. runs_in k before ++ l) (sym (runs_in-here r after))
          ∙ sym (runs_in-append k before (r ∷ after))
          ∙ runs k) in
    (runs_in-append k before after ∙ ap (λ l. l ++ runs_in k after) none_before ∙ none_after, alone)

pub elsewhere :
    (m : Jobs.Manager QueuedJob) (before after : List Running) (r : Running)
    → ((j : String) → runs_in j (before ++ r ∷ after) ≡ holder m j)
    → (j : String) → scope_of r.job ≢ j
    → runs_in j (before ++ after) ≡ holder m j
elsewhere m before after r runs j n =
    runs_in-append j before after
    ∙ ap (λ l. runs_in j before ++ l) (sym (runs_in-elsewhere j r after n))
    ∙ sym (runs_in-append j before (r ∷ after))
    ∙ runs j

pub next_job-scope :
    (b : Config) (k : String) (item : Item QueuedJob)
    → Own k item.open_id item.payload
    → scope_of (next_job b item) ≡ k
unfolding next_job
next_job-scope b k item (job, payload, scope) = rw (next_job, payload) scope

pub next_job-open_id :
    (b : Config) (item : Item QueuedJob) → (next_job b item).n.open_id ≡ item.open_id
unfolding next_job
next_job-open_id b item = refl

-- A goroutine that goes on with the same context counts as before.
pub runs_in-again :
    (k : String) (r : Running) (content : String) (overrides : Dict String) (c : Option ℕ)
    (before after : List Running)
    → c ≡ r.ctx
    → runs_in k (before ++ (record r { content = content; overrides = overrides; ctx = c }) ∷ after)
      ≡ runs_in k (before ++ r ∷ after)
unfolding runs_in
runs_in-again k r content overrides c before after e =
    runs_in-append k before
      ((record r { content = content; overrides = overrides; ctx = c }) ∷ after)
    ∙ ap (λ l. runs_in k before ++ l)
        (ap
          (λ x.
            if scope_of r.job == k then (r.job.n.open_id, x) ∷ runs_in k after else runs_in k after)
          e)
    ∙ sym (runs_in-append k before (r ∷ after))

-- The job goes on with what was added to it.
pub again-Fits :
    (m : Jobs.Manager QueuedJob) (before after : List Running) (r : Running) (content : String)
    (overrides : Dict String)
    → Jobs.Invariant.Inv m
    → Waits Own m
    → ((j : String) → runs_in j (before ++ r ∷ after) ≡ holder m j)
    → Fits m (
        before
        ++ (record r { content = content; overrides = overrides; ctx = context m (scope_of r.job) })
          ∷ after)
again-Fits m before after r content overrides v w runs = record {
  queues = v;
  waits = w;
  runs = λ j.
      runs_in-again j r content overrides (context m (scope_of r.job)) before after
        (context-holder m (scope_of r.job) r.job.n.open_id r.ctx (ended m before after r runs).1)
      ∙ runs j;
}
