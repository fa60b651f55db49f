-- ===== src/Inbound/Reach.antt =====
-- The states that any order of messages and answers leads to.
use mathlib.Core.Path.{subst}
use yzj_bot_bridge.Prelude.{
  String, ◌≡◌, refl, sym, ◌≢◌, inl, inr, Bool, true, false, not, ◌&&◌, Option, none, some, List, [],
  ◌∷◌, ◌++◌, ◌==◌, if◌then◌else◌, Option-cases, trim_space, to_lower,
}
use yzj_bot_bridge.Bots.{Config}
use yzj_bot_bridge.Commands.{Result, value, allowed}
use yzj_bot_bridge.Dedupe
use yzj_bot_bridge.Dedupe.{already_seen}
use yzj_bot_bridge.Jobs
use yzj_bot_bridge.Jobs.{cancel, context}
use yzj_bot_bridge.Jobs.Preserved.{cancel-Inv, new-Inv}
use yzj_bot_bridge.Jobs.Holders.{holder, cancel-holder, new-holder}
use yzj_bot_bridge.Jobs.Kept.{cancel-Waits, new-Waits}
use yzj_bot_bridge.Orchestrator.{DispatchResult}
use yzj_bot_bridge.Registry.{get_bot}
use yzj_bot_bridge.Inbound.Types.{Normalized, QueuedJob, Running, MemoryService, Env, State}
use yzj_bot_bridge.Inbound.Start.{queue_scope, send_tracked, reply_to}
use yzj_bot_bridge.Inbound.Handle.{
  handle_memory_cmd, handle_forget_cmd, opt_out, forget_user, reply_complete, stop_job, list_jobs,
  handle_command, command_of, targeted, handle_new, handle_for, handle, dedupe_key,
  websocket_message_for_bot,
}
use yzj_bot_bridge.Inbound.Run.{answer}
use yzj_bot_bridge.Inbound.RunsIn.{runs_in, Fits, Own, keep-Fits}
use yzj_bot_bridge.Inbound.OneJob.{Good, if_Good, accept_job-Good, answer-Good}

module _ {M : Type 0} where
  -- A state with the queues and goroutines of another.
  abbrev pub Same : State M → State M → Type 0
  Same s s' = (s'.jobs ≡ s.jobs) × (s'.running ≡ s.running)

  Same-Good : (s s' : State M) → Same s s' → Good s → Good s'
  Same-Good s s' e g =
      subst (λ x. Fits x s'.running) (sym e.0) (subst (λ x. Fits s.jobs x) (sym e.1) g)

  if_Same :
      (s : State M) (c : Bool) (a b : State M × String)
      → Same s a.0
      → Same s b.0
      → Same s (if c then a else b).0
  if_Same s true a b ga gb = ga
  if_Same s false a b ga gb = gb

  pub memory-Same :
      (svc : Option (MemoryService M)) (s : State M) (open_id sub : String)
      → Same s (handle_memory_cmd svc s open_id sub).0
  unfolding handle_memory_cmd opt_out
  memory-Same none s open_id sub = (refl, refl)
  memory-Same (some svc) s open_id sub =
      if_Same s (trim_space open_id == "") _ _ (refl, refl)
        (if_Same s (to_lower (trim_space sub) == "off") _ _ (refl, refl)
          (if_Same s (to_lower (trim_space sub) == "on") _ _ (refl, refl) (refl, refl)))

  pub forget-Same :
      (svc : Option (MemoryService M)) (s : State M) (open_id : String)
      → Same s (handle_forget_cmd svc s open_id).0
  unfolding handle_forget_cmd forget_user
  forget-Same none s open_id = (refl, refl)
  forget-Same (some svc) s open_id =
      if_Same s (trim_space open_id == "") _ _ (refl, refl) (refl, refl)

  reply_complete-Good :
      (b : Config) (n : Normalized) (s : State M) (r : State M × String)
      → Same s r.0
      → Good s
      → Good (reply_complete b n r)
  unfolding reply_complete reply_to send_tracked
  reply_complete-Good b n s r e g = Same-Good s (r.0) e g

  stop_job-Good : (b : Config) (n : Normalized) (s : State M) → Good s → Good (stop_job b n s)
  unfolding stop_job reply_to send_tracked
  stop_job-Good b n s g =
      let k = queue_scope b n.open_id in
      keep-Fits s.jobs (cancel s.jobs k).0 s.running (cancel-Inv s.jobs k g.queues)
        (cancel-Waits Own s.jobs k g.waits) g.runs (cancel-holder s.jobs k)

  list_jobs-Good :
      (env : Env M) (b : Config) (n : Normalized) (s : State M)
      → Good s
      → Good (list_jobs env b n s)
  unfolding list_jobs reply_to send_tracked
  list_jobs-Good env b n s g = g

  handle_command-Good :
      (env : Env M) (b : Config) (n : Normalized) (res : Result) (s : State M)
      → Good s
      → n.open_id ≢ ""
      → Good (handle_command env b n res s)
  unfolding handle_command
  handle_command-Good env b n res s g named =
      if_Good (value res.overrides "stop" == "1") _ _ (stop_job-Good b n s g) (
        if_Good (value res.overrides "jobs" == "1") _ _ (list_jobs-Good env b n s g) (
          if_Good (not (value res.overrides "memory" == "")) _ _
            (reply_complete-Good b n s
              (handle_memory_cmd env.memory s n.open_id (value res.overrides "memory"))
              (memory-Same env.memory s n.open_id (value res.overrides "memory")) g)
            (if_Good (value res.overrides "forget" == "1") _ _
              (reply_complete-Good b n s (handle_forget_cmd env.memory s n.open_id)
                (forget-Same env.memory s n.open_id) g)
              (if_Good (res.handled && trim_space res.rest_text == "") _ _
                (reply_complete-Good b n s (s, trim_space res.reply) (refl, refl) g)
                (accept_job-Good env (record { bot = b; n = n; cmd = res }) s g named)))))

  handle_new-Good :
      (env : Env M) (b : Config) (n : Normalized) (s : State M)
      → Good s
      → n.open_id ≢ ""
      → Good (handle_new env b n s)
  unfolding handle_new reply_to send_tracked
  handle_new-Good env b n s g named = if_Good (not (targeted env b n)) _ _ g (
      if_Good (not (allowed b n.open_id n.name)) _ _ g
        (handle_command-Good env b n (command_of env b n) s g named))

  handle_for-Good :
      (env : Env M) (bot_id : String) (b : Config) (n : Normalized) (s : State M)
      → Good s
      → n.open_id ≢ ""
      → Good (handle_for env bot_id b n s)
  unfolding handle_for
  handle_for-Good env bot_id b n s g named =
      let r = already_seen env.order s.dedupe (dedupe_key bot_id n) in
      let s' : State M = record s { dedupe = r.0 } in
      if_Good (n.source == "websocket" && not (websocket_message_for_bot b n)) _ _ g
        (if_Good r.1 _ _ g (handle_new-Good env b n s' g named))

  handle-Good :
      (env : Env M) (bot_id : String) (n : Normalized) (s : State M)
      → Good s
      → n.open_id ≢ ""
      → Good (handle env bot_id n s)
  unfolding handle
  handle-Good env bot_id n s g named = elim (Option-cases (get_bot bot_id env.registry)) [
    | inl none_there ↦ rw (handle, none_there) g
    | inr (b, found) ↦ rw (handle, found) (handle_for-Good env bot_id b n s g named)
  ]

  -- What happens to the dispatcher: a message of a named user comes, or the orchestrator answers a
  -- goroutine. The settings may change in between.
  pub data Step (s : State M) : State M → Type 0 where
    message :
        (env : Env M) (bot_id : String) (n : Normalized)
        → n.open_id ≢ ""
        → Step s (handle env bot_id n s)
    answered :
        (env : Env M) (before after : List Running) (r : Running) (dr : DispatchResult)
        → s.running ≡ before ++ r ∷ after
        → Step s (answer env before r after dr s)

  -- A dispatcher with no message yet.
  abbrev pub init : M → State M
  init memory = record {
    dedupe = Dedupe.new;
    jobs = Jobs.new;
    memory = memory;
    sent = [];
    running = [];
  }

  pub data Reach : State M → Type 0 where
    begin : (memory : M) → Reach (init memory)
    next : (s s' : State M) → Reach s → Step s s' → Reach s'

  init-Good : (memory : M) → Good (init memory)
  unfolding runs_in
  init-Good memory = record {
    queues = new-Inv;
    waits = new-Waits Own;
    runs = λ k. sym (new-holder QueuedJob k);
  }

  step-Good : (s s' : State M) → Step s s' → Good s → Good s'
  step-Good s _ (message env bot_id n named) g = handle-Good env bot_id n s g named
  step-Good s _ (answered env before after r dr e) g = answer-Good env before after r dr s g e

  pub reach-Good : (s : State M) → Reach s → Good s
  reach-Good _ (begin memory) = init-Good memory
  reach-Good s' (next s _ r step) = step-Good s s' step (reach-Good s r)

  -- In every state that messages of named users and answers of the orchestrator lead to, in any order,
  -- the goroutines that run in a scope are the one that the job queues hold as its runner, with the
  -- context that they hold for it, and none where they hold none.
  pub one_job_per_scope :
      (s : State M) (k : String) → Reach s → runs_in k s.running ≡ holder s.jobs k
  one_job_per_scope s k r = (reach-Good s r).runs k
