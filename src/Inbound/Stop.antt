-- ===== src/Inbound/Stop.antt =====
-- A message with the command to stop, against the job that runs for its user.
use mathlib.Core.Path.{subst}
use yzj_bot_bridge.Prelude.{
  ℕ, String, ◌≡◌, refl, sym, ap, ◌∙◌, ◌≢◌, inl, inr, Bool, true, false, not, Option, none, some, [],
  ◌∷◌, ◌++◌, arith, ◌==◌, if◌then◌else◌, Option-cases, ==_of_eq,
}
use yzj_bot_bridge.Bots.{Config}
use yzj_bot_bridge.Commands.{Result, value, allowed}
use yzj_bot_bridge.Jobs
use yzj_bot_bridge.Jobs.{cancel, context}
use yzj_bot_bridge.Jobs.Invariant
use yzj_bot_bridge.Jobs.Cancel.{cancel-Cancels}
use yzj_bot_bridge.Jobs.Holders.{holder, holder_of, context-holder}
use yzj_bot_bridge.Inbound.Types.{Normalized, QueuedJob, Env, State}
use yzj_bot_bridge.Inbound.Start.{reply_meta, queue_scope, send_tracked, reply_to}
use yzj_bot_bridge.Inbound.Handle.{stop_job, handle_command, handle_new, command_of, targeted}
use yzj_bot_bridge.YzjOut.Replies.{format_stop_ack}
use yzj_bot_bridge.Inbound.RunsIn.{runs_in}
use yzj_bot_bridge.Inbound.Reach.{Reach, reach-Good}

-- What Cancel does to the context of the runner of a scope.
record Halts (m : Jobs.Manager QueuedJob) (k : String) (c : ℕ) : Type 0 where
  told : (cancel m k).1 ≡ not (m.cancelled c)
  halted : (cancel m k).0.cancelled c ≡ true
  spared : (d : ℕ) → d ≢ c → (cancel m k).0.cancelled d ≡ m.cancelled d

some_inj : {a b : ℕ} → some a ≡ some b → a ≡ b
some_inj e = ground (arith, e)

holder-Halts :
    (m : Jobs.Manager QueuedJob) (k u : String) (c : Option ℕ)
    → Jobs.Invariant.Inv m
    → holder m k ≡ (u, c) ∷ []
    → (d : ℕ) × (c ≡ some d) × Halts m k d
holder-Halts m k u c v h = elim (Option-cases (m.slots k)) [
  | inl e ↦ absurd (no_runner (rw e at h))
  | inr (s, e) ↦
      let (d, ctx, done) = cancel-Cancels m k s v e in
      (
        d,
        sym (context-holder m k u c h) ∙ ctx,
        record { told = done.reported; halted = done.done; spared = done.others },
      )
]
  where
    no_runner : holder_of {P = QueuedJob} none ≡ (u, c) ∷ [] → ⊥
    no_runner e = cc

if_true {ℓ} : {A : Type ℓ} (c : Bool) (x y : A) → c ≡ true → (if c then x else y) ≡ x
if_true true x y e = refl
if_true false x y e = cc

module _ {M : Type 0} where
  stop_command :
      (env : Env M) (b : Config) (n : Normalized) (res : Result) (s : State M)
      → value res.overrides "stop" ≡ "1"
      → handle_command env b n res s ≡ stop_job b n s
  unfolding handle_command
  stop_command env b n res s stop =
      if_true (value res.overrides "stop" == "1") _ _
        (==_of_eq (value res.overrides "stop") "1" stop)

  -- What a message of a user with the command to stop does, where the goroutine that runs in its scope
  -- asks with the context.
  pub record Stopped (b : Config) (n : Normalized) (s : State M) (c : ℕ) (s' : State M)
      : Type 0 where
    pub halted : s'.jobs.cancelled c ≡ true
    pub spared : (d : ℕ) → d ≢ c → s'.jobs.cancelled d ≡ s.jobs.cancelled d
    pub runs_on : s'.running ≡ s.running
    pub told :
        s'.sent
        ≡ s.sent
          ++ record {
            bot_id = b.id;
            send_url = b.send_msg_url;
            content = format_stop_ack (not (s.jobs.cancelled c));
            open_id = n.open_id;
            reply = some (reply_meta n);
          }
            ∷ []

  stop_job-Stopped :
      (b : Config) (n : Normalized) (s : State M) (u : String) (c : Option ℕ)
      → Reach s
      → runs_in (queue_scope b n.open_id) s.running ≡ (u, c) ∷ []
      → (d : ℕ) × (c ≡ some d) × Stopped b n s d (stop_job b n s)
  unfolding stop_job reply_to send_tracked
  stop_job-Stopped b n s u c r h =
      let k = queue_scope b n.open_id in
      let g = reach-Good s r in
      let (d, ctx, halts) = holder-Halts s.jobs k u c g.queues (sym (g.runs k) ∙ h) in
      (
        d,
        ctx,
        record {
          halted = halts.halted;
          spared = halts.spared;
          runs_on = refl;
          told =
              ap
                (λ x.
                  s.sent
                  ++ record {
                    bot_id = b.id;
                    send_url = b.send_msg_url;
                    content = format_stop_ack x;
                    open_id = n.open_id;
                    reply = some (reply_meta n);
                  }
                    ∷ [])
                halts.told;
        },
      )

  new_command :
      (env : Env M) (b : Config) (n : Normalized) (s : State M)
      → targeted env b n ≡ true
      → allowed b n.open_id n.name ≡ true
      → handle_new env b n s ≡ handle_command env b n (command_of env b n) s
  unfolding handle_new
  new_command env b n s t a =
      ap
        (λ x.
          if not x
          then s
          else (if not (allowed b n.open_id n.name)
              then reply_to b n "你不在白名单中" s
              else handle_command env b n (command_of env b n) s))
        t
      ∙ ap
          (λ x.
            if not x
            then reply_to b n "你不在白名单中" s
            else handle_command env b n (command_of env b n) s)
          a

  -- In every state that messages and answers lead to, a message that is for the bot, of a user whom the
  -- bot serves, and that parses to the command to stop cancels the context of the job that runs in its
  -- scope and no other one, and the user is told whether it had not been cancelled before; the
  -- goroutine of the job goes on to its end.
  pub stop-Stopped :
      (env : Env M) (b : Config) (n : Normalized) (s : State M) (u : String) (c : Option ℕ)
      → Reach s
      → targeted env b n ≡ true
      → allowed b n.open_id n.name ≡ true
      → value (command_of env b n).overrides "stop" ≡ "1"
      → runs_in (queue_scope b n.open_id) s.running ≡ (u, c) ∷ []
      → (d : ℕ) × (c ≡ some d) × Stopped b n s d (handle_new env b n s)
  stop-Stopped env b n s u c r t a stop h =
      let (d, ctx, done) = stop_job-Stopped b n s u c r h in
      (
        d,
        ctx,
        subst (Stopped b n s d)
            (sym (new_command env b n s t a ∙ stop_command env b n (command_of env b n) s stop))
            done,
      )
