-- ===== src/Inbound/OneJob.antt =====
-- The goroutines of runJob against the job queues, over any order of messages and answers: which of
-- them run in a scope.
use mathlib.Core.Path.{subst}
use yzj_bot_bridge.Prelude.{
  ℕ, String, ◌≡◌, refl, sym, ap, ◌∙◌, ◌≢◌, inl, inr, Bool, true, false, Option, none, some, List,
  [], ◌∷◌, ◌++◌, append-nil, eq_iff, ◌==◌, if◌then◌else◌, Bool-cases, empty_dict,
}
use yzj_bot_bridge.Bots.{Config}
use yzj_bot_bridge.Jobs
use yzj_bot_bridge.Jobs.{try_accept, drain_extra, finish, context, cancel}
use yzj_bot_bridge.Jobs.Types.{Item, Status, accepted, merged, queued, Notice}
use yzj_bot_bridge.Jobs.Invariant
use yzj_bot_bridge.Jobs.Preserved.{try_accept-Inv, drain_extra-Inv, finish-Inv}
use yzj_bot_bridge.Jobs.Refinement.{try_accept-other, finish-other}
use yzj_bot_bridge.Jobs.Holders.{
  holder, Answered, try_accept-Answered, drain_extra-holder, Followed, finish-Followed, holder_of,
}
use yzj_bot_bridge.Jobs.Kept.{Waits, try_accept-Waits, drain_extra-Waits, NextKept, finish-Waits}
use yzj_bot_bridge.Orchestrator.{DispatchResult}
use yzj_bot_bridge.Inbound.Types.{QueuedJob, Running, Env, State}
use yzj_bot_bridge.Inbound.Start.{
  send_tracked, start_job, first_content, on_status, item_of, accept_job,
}
use yzj_bot_bridge.Inbound.Run.{next_job, start_next, notify_queue, end_job, reply_result, answer}
use yzj_bot_bridge.Inbound.RunsIn.{
  scope_of, runs_in, ne_of, runs_in-append, runs_in-here, runs_in-elsewhere, Own, Fits,
  next_job-scope, next_job-open_id, again-Fits, keep-Fits, at_each, ended, elsewhere,
}

module _ {M : Type 0} where
  abbrev pub Good : State M → Type 0
  Good s = Fits s.jobs s.running

  -- The state of a job that starts.
  started : Env M → QueuedJob → Jobs.Manager QueuedJob → Running
  started env job m = record {
    job = job;
    content = first_content env job;
    overrides = job.cmd.overrides;
    ctx = context m (scope_of job);
  }

  start_job-state :
      (env : Env M) (job : QueuedJob) (s : State M)
      → ((start_job env job s).jobs ≡ s.jobs)
        × ((start_job env job s).running ≡ s.running ++ started env job s.jobs ∷ [])
  unfolding start_job send_tracked started
  start_job-state env job s = elim (Bool-cases job.bot.ack_pending) [
    | inl on ↦ rw (start_job, on) (refl, refl)
    | inr off ↦ rw (start_job, off) (refl, refl)
  ]

  -- A job starts where none runs, and the queues know it.
  start-Fits :
      (env : Env M) (job : QueuedJob) (m m' : Jobs.Manager QueuedJob) (rs : List Running)
      → Jobs.Invariant.Inv m'
      → Waits Own m'
      → runs_in (scope_of job) rs ≡ []
      → holder m' (scope_of job) ≡ (job.n.open_id, context m' (scope_of job)) ∷ []
      → ((j : String) → scope_of job ≢ j → runs_in j rs ≡ holder m' j)
      → Fits m' (rs ++ started env job m' ∷ [])
  unfolding started runs_in
  start-Fits env job m m' rs v w none_runs new_runner others = record {
    queues = v;
    waits = w;
    runs = λ j. elim (Bool-cases (scope_of job == j)) [
      | inl same ↦
          subst (λ k. runs_in k (rs ++ started env job m' ∷ []) ≡ holder m' k)
            ((eq_iff (scope_of job) j).0 same)
            (runs_in-append (scope_of job) rs (started env job m' ∷ [])
              ∙ ap (λ l. l ++ runs_in (scope_of job) (started env job m' ∷ [])) none_runs
              ∙ runs_in-here (started env job m') []
              ∙ sym new_runner)
      | inr other ↦
          runs_in-append j rs (started env job m' ∷ [])
          ∙ ap (λ l. runs_in j rs ++ l)
              (runs_in-elsewhere j (started env job m') [] (ne_of (scope_of job) j other))
          ∙ append-nil (runs_in j rs)
          ∙ others j (ne_of (scope_of job) j other)
    ];
  }

  -- The switch on the answer of TryAccept, by the runners before and after the call.
  on_status-Good :
      (env : Env M) (job : QueuedJob) (position : ℕ) (m : Jobs.Manager QueuedJob) (s : State M)
      (st : Status)
      → Jobs.Invariant.Inv s.jobs
      → Waits Own s.jobs
      → ((j : String) → runs_in j s.running ≡ holder m j)
      → ((j : String) → scope_of job ≢ j → holder m j ≡ holder s.jobs j)
      → Answered m s.jobs (scope_of job) job.n.open_id st
      → Good (on_status env job position s st)
  unfolding on_status send_tracked
  on_status-Good env job position m s accepted v w runs others a =
      let e = start_job-state env job s in
      subst (λ x. Fits x (start_job env job s).running) (sym e.0)
        (subst (λ x. Fits s.jobs x) (sym e.1)
          (start-Fits env job m s.jobs s.running v w (runs (scope_of job) ∙ a.0) (a.1)
            (λ j n. runs j ∙ others j n)))
  on_status-Good env job position m s merged v w runs others a =
      elim (Bool-cases job.bot.ack_pending) [
        | inl on ↦
            rw on (keep-Fits m s.jobs s.running v w runs (at_each m s.jobs (scope_of job) a others))
        | inr off ↦
            rw off
              (keep-Fits m s.jobs s.running v w runs (at_each m s.jobs (scope_of job) a others))
      ]
  on_status-Good env job position m s queued v w runs others a =
      keep-Fits m s.jobs s.running v w runs (at_each m s.jobs (scope_of job) a others)

  pub accept_job-Good :
      (env : Env M) (job : QueuedJob) (s : State M)
      → Good s
      → job.n.open_id ≢ ""
      → Good (accept_job env job s)
  unfolding accept_job
  accept_job-Good env job s g named =
      let k = scope_of job in
      let r = try_accept s.jobs k (item_of job) in
      on_status-Good env job r.1.position s.jobs (record s { jobs = r.0 }) r.1.status
        (try_accept-Inv s.jobs k (item_of job) g.queues named)
        (try_accept-Waits Own s.jobs k (item_of job) g.waits (job, refl, refl)) g.runs
        (λ j n. sym (ap holder_of (try_accept-other s.jobs k j (item_of job) n)))
        (try_accept-Answered s.jobs k (item_of job) g.queues)

  notify_queue-state :
      (env : Env M) (b : Config) (ns : List Notice) (s : State M)
      → ((notify_queue env b ns s).jobs ≡ s.jobs) × ((notify_queue env b ns s).running ≡ s.running)
  unfolding notify_queue send_tracked
  notify_queue-state env b [] s = (refl, refl)
  notify_queue-state env b (n ∷ ns) s = notify_queue-state env b ns _

  -- A job starts in a scope where none runs.
  start_at :
      (env : Env M) (job : QueuedJob) (k : String) (s : State M)
      → scope_of job ≡ k
      → Jobs.Invariant.Inv s.jobs
      → Waits Own s.jobs
      → runs_in k s.running ≡ []
      → holder s.jobs k ≡ (job.n.open_id, context s.jobs k) ∷ []
      → ((j : String) → k ≢ j → runs_in j s.running ≡ holder s.jobs j)
      → Good (start_job env job s)
  start_at env job k s e v w none_runs runner others =
      let st = start_job-state env job s in
      subst (λ x. Fits x (start_job env job s).running) (sym st.0)
        (subst (λ x. Fits s.jobs x) (sym st.1)
          (start-Fits env job s.jobs s.jobs s.running v w
            (subst (λ i. runs_in i s.running ≡ []) (sym e) none_runs)
            (subst (λ i. holder s.jobs i ≡ (job.n.open_id, context s.jobs i) ∷ []) (sym e) runner)
            (subst (λ i. (j : String) → i ≢ j → runs_in j s.running ≡ holder s.jobs j) (sym e)
              others)))

  start_next-Good :
      (env : Env M) (b : Config) (k : String) (next : Option (Item QueuedJob)) (s : State M)
      → Jobs.Invariant.Inv s.jobs
      → Waits Own s.jobs
      → NextKept Own k next
      → Followed s.jobs k next
      → runs_in k s.running ≡ []
      → ((j : String) → k ≢ j → runs_in j s.running ≡ holder s.jobs j)
      → Good (start_next env b next s)
  unfolding start_next
  start_next-Good env b k none s v w kept f none_runs others = record {
    queues = v;
    waits = w;
    runs = λ j. elim (Bool-cases (k == j)) [
      | inl same ↦
          subst (λ i. runs_in i s.running ≡ holder s.jobs i) ((eq_iff k j).0 same)
            (none_runs ∙ sym f)
      | inr other ↦ others j (ne_of k j other)
    ];
  }
  start_next-Good env b k (some item) s v w kept f none_runs others =
      start_at env (next_job b item) k s (next_job-scope b k item kept) v w none_runs
        (f ∙ ap (λ u. (u, context s.jobs k) ∷ []) (sym (next_job-open_id b item))) others

  -- The same of a state with the queues and goroutines of another.
  start_next_of :
      (env : Env M) (b : Config) (k : String) (next : Option (Item QueuedJob)) (s : State M)
      (m : Jobs.Manager QueuedJob) (rs : List Running)
      → (s.jobs ≡ m) × (s.running ≡ rs)
      → Jobs.Invariant.Inv m
      → Waits Own m × NextKept Own k next
      → Followed m k next
      → runs_in k rs ≡ []
      → ((j : String) → k ≢ j → runs_in j rs ≡ holder m j)
      → Good (start_next env b next s)
  start_next_of env b k next s m rs (ej, er) v w f none_runs others =
      start_next-Good env b k next s (subst Jobs.Invariant.Inv (sym ej) v)
        (subst (Waits Own) (sym ej) w.0) w.1 (subst (λ x. Followed x k next) (sym ej) f)
        (subst (λ l. runs_in k l ≡ []) (sym er) none_runs)
        (λ j n. ap (runs_in j) er ∙ others j n ∙ ap (λ x. holder x j) (sym ej))

  -- A job ends: the queues hand on to the next of its scope, which starts.
  end_job-Good :
      (env : Env M) (before after : List Running) (r : Running) (s : State M)
      → s.running ≡ before ++ after
      → Jobs.Invariant.Inv s.jobs
      → Waits Own s.jobs
      → ((j : String) → runs_in j (before ++ r ∷ after) ≡ holder s.jobs j)
      → Good (end_job env r.job s)
  unfolding end_job
  end_job-Good env before after r s gone v w runs =
      let k = scope_of r.job in
      let u = r.job.n.open_id in
      let f = finish s.jobs k u in
      let known = ended s.jobs before after r runs in
      let told = notify_queue-state env r.job.bot (f.2) (record s { jobs = f.0 }) in
      start_next_of env r.job.bot k (f.1)
        (notify_queue env r.job.bot (f.2) (record s { jobs = f.0 })) (f.0) (before ++ after)
        (told.0, told.1 ∙ gone) (finish-Inv s.jobs k u v) (finish-Waits Own s.jobs k u w)
        (finish-Followed s.jobs k u r.ctx known.1) known.0
        (λ j n.
          elsewhere s.jobs before after r runs j n
          ∙ sym (ap holder_of (finish-other s.jobs k j u n)))

  pub if_Good : (c : Bool) (a b : State M) → Good a → Good b → Good (if c then a else b)
  if_Good true a b ga gb = ga
  if_Good false a b ga gb = gb

  -- The orchestrator answers: the job goes on with what was added to it, or ends.
  pub answer-Good :
      (env : Env M) (before after : List Running) (r : Running) (dr : DispatchResult) (s : State M)
      → Good s
      → s.running ≡ before ++ r ∷ after
      → Good (answer env before r after dr s)
  unfolding answer reply_result
  answer-Good env before after r dr s g e =
      let k = scope_of r.job in
      let u = r.job.n.open_id in
      let d = drain_extra s.jobs k u in
      let v = drain_extra-Inv s.jobs k u g.queues in
      let w = drain_extra-Waits Own s.jobs k u g.waits in
      let runs : (j : String) → runs_in j (before ++ r ∷ after) ≡ holder s.jobs j =
        λ j. ap (runs_in j) (sym e) ∙ g.runs j in
      let drained : (j : String) → runs_in j (before ++ r ∷ after) ≡ holder (d.0) j =
        λ j. runs j ∙ sym (drain_extra-holder s.jobs k u j) in
      let s' = reply_result env r.job dr s in
      if_Good (dr.status == "interrupted") _ _
        (end_job-Good env before after r (record s' { running = before ++ after }) refl g.queues
          g.waits runs)
        (if_Good (d.1 == "") _ _
          (end_job-Good env before after r (record s' { running = before ++ after; jobs = d.0 })
            refl v w drained)
          (again-Fits (d.0) before after r (d.1) empty_dict v w drained))
