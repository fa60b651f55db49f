-- ===== src/Inbound/Run.antt =====
-- internal/inbound/inbound.go: runJob. A job goes on by the answers of the orchestrator, one `answer` for
-- each turn of its loop, so that messages and answers may come in any order.
use yzj_bot_bridge.Prelude.{
  Option, none, some, List, [], ◌∷◌, ◌++◌, ◌==◌, if◌then◌else◌, empty_dict,
}
use yzj_bot_bridge.Bots.{Config}
use yzj_bot_bridge.Jobs.{drain_extra, finish, context}
use yzj_bot_bridge.Jobs.Types.{Item, Notice}
use yzj_bot_bridge.Orchestrator.{DispatchResult}
use yzj_bot_bridge.Registry.{get_bot}
use yzj_bot_bridge.YzjOut.Replies.{
  format_completion_reply, format_queue_position, format_interrupt_reply,
}
use yzj_bot_bridge.Inbound.Types.{QueuedJob, Running, Env, State, zero_normalized, zero_result}
use yzj_bot_bridge.Inbound.Start.{queue_scope, reply_meta, send_tracked, start_job}

-- The job that Finish hands on, as the deferred function of runJob starts it.
unfoldable pub next_job : Config → Item QueuedJob → QueuedJob
next_job b next =
    let job : QueuedJob = elim next.payload [
      | none ↦ record { bot = b; n = zero_normalized; cmd = zero_result }
      | some job ↦ job
    ] in
    record job {
      n = record (job.n) {
        open_id = next.open_id;
        name = if next.name == "" then job.n.name else next.name;
      };
      cmd = record (job.cmd) { rest_text = next.content };
    }

module _ {M : Type 0} where
  -- notifyQueue
  unfoldable pub notify_queue : Env M → Config → List Notice → State M → State M
  unfolding send_tracked format_queue_position
  notify_queue env b [] s = s
  notify_queue env b (n ∷ ns) s =
      notify_queue env b ns
        (send_tracked b (format_queue_position env.show n.position) n.open_id none s)

  -- What is done with the item that Finish gives.
  unfoldable pub start_next : Env M → Config → Option (Item QueuedJob) → State M → State M
  unfolding next_job start_job
  start_next env b none s = s
  start_next env b (some next) s = start_job env (next_job b next) s

  -- The deferred function of runJob
  unfoldable pub end_job : Env M → QueuedJob → State M → State M
  unfolding queue_scope notify_queue start_next
  end_job env job s =
      let r = finish s.jobs (queue_scope job.bot job.n.open_id) job.n.open_id in
      start_next env job.bot (r.1) (notify_queue env job.bot (r.2) (record s { jobs = r.0 }))

  -- The reply to the orchestrator's answer, by the bot that made it.
  unfoldable pub reply_result : Env M → QueuedJob → DispatchResult → State M → State M
  unfolding get_bot format_interrupt_reply format_completion_reply
  reply_result env job dr s =
      let handler : Config = elim (get_bot dr.handler_bot_id env.registry) [
        | none ↦ job.bot
        | some h ↦ h
      ] in
      let n = job.n in
      let body =
        if dr.status == "interrupted"
        then format_interrupt_reply dr.reply n.open_id n.name handler.mention_on_reply
        else format_completion_reply dr.reply n.open_id n.name handler.mention_on_reply in
      record s {
        sent =
            s.sent
            ++ (record {
              bot_id = job.bot.id;
              send_url = handler.send_msg_url;
              content = body;
              open_id = n.open_id;
              reply = some (reply_meta n);
            }
                ∷ []);
      }

  -- One turn of the loop of runJob for a goroutine among others, with the orchestrator's answer.
  unfoldable pub answer :
      Env M → List Running → Running → List Running → DispatchResult → State M → State M
  unfolding reply_result end_job queue_scope
  answer env before r after dr s =
      let s' = reply_result env r.job dr s in
      let scope = queue_scope r.job.bot r.job.n.open_id in
      let d = drain_extra s'.jobs scope r.job.n.open_id in
      let done : State M = record s' { running = before ++ after } in
      if dr.status == "interrupted"
      then end_job env (r.job) done
      else (if d.1 == "" then end_job env (r.job) (record done { jobs = d.0 }) else record s' {
        jobs = d.0;
        running =
            before
            ++ (record r { content = d.1; overrides = empty_dict; ctx = context d.0 scope }
                ∷ after);
      })
