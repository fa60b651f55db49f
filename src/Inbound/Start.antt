-- ===== src/Inbound/Start.antt =====
-- internal/inbound/inbound.go: the queue of a user, the messages that the dispatcher sends, and how it
-- accepts and starts a job.
use yzj_bot_bridge.Prelude.{
  ℕ, String, Option, none, some, [], ◌∷◌, ◌++◌, ◌==◌, if◌then◌else◌, concat, trim_space,
}
use yzj_bot_bridge.Bots.{Config}
use yzj_bot_bridge.Jobs.{use_channel_queue, scope_key, try_accept, context}
use yzj_bot_bridge.Jobs.Types.{Item, Status, accepted, merged, queued}
use yzj_bot_bridge.YzjOut.Replies.{format_queue_position}
use yzj_bot_bridge.YzjOut.Send.{ReplyMeta}
use yzj_bot_bridge.Inbound.Types.{Normalized, QueuedJob, Env, State}

-- queueScope
unfoldable pub queue_scope : Config → String → String
unfolding scope_key use_channel_queue
queue_scope b open_id = scope_key b.id open_id (use_channel_queue b.session_mode b.job_queue)

-- FormatPendingAck
abbrev pub pending_ack : String
pending_ack = "正在处理中…"

-- The message that a reply refers to.
abbrev pub reply_meta : Normalized → ReplyMeta
reply_meta n = record {
  msg_id = n.msg_id;
  summary = n.content;
  person_name = n.name;
  group_type = n.group_type;
}

-- What a job gives TryAccept.
abbrev pub item_of : QueuedJob → Item QueuedJob
item_of job = record {
  open_id = job.n.open_id;
  name = job.n.name;
  content = job.cmd.rest_text;
  payload = some job;
}

module _ {M : Type 0} where
  -- sendTracked, with the bot's id and address
  unfoldable pub send_tracked : Config → String → String → Option ReplyMeta → State M → State M
  send_tracked b content open_id reply s = record s {
    sent =
        s.sent
        ++ (record {
          bot_id = b.id;
          send_url = b.send_msg_url;
          content = content;
          open_id = open_id;
          reply = reply;
        }
            ∷ []);
  }

  -- A reply to the message itself.
  unfoldable pub reply_to : Config → Normalized → String → State M → State M
  unfolding send_tracked
  reply_to b n content s = send_tracked b content n.open_id (some (reply_meta n)) s

  -- What runJob asks the orchestrator first: the text of the message behind its attachments.
  unfoldable pub first_content : Env M → QueuedJob → String
  unfolding trim_space concat
  first_content env job =
      let block = env.prepare_attachments job.bot job.n in
      if block == ""
      then job.cmd.rest_text
      else (if trim_space job.cmd.rest_text == ""
          then block
          else concat block (concat "\n\n" job.cmd.rest_text))

  -- startJob with its acknowledgement, up to the first call of the orchestrator
  unfoldable pub start_job : Env M → QueuedJob → State M → State M
  unfolding send_tracked first_content queue_scope
  start_job env job s =
      let acked =
        if job.bot.ack_pending then send_tracked job.bot pending_ack job.n.open_id none s else s in
      record acked {
        running =
            acked.running
            ++ (record {
              job = job;
              content = first_content env job;
              overrides = job.cmd.overrides;
              ctx = context acked.jobs (queue_scope job.bot job.n.open_id);
            }
                ∷ []);
      }

  -- The switch of Handle on what TryAccept answered.
  unfoldable pub on_status : Env M → QueuedJob → ℕ → State M → Status → State M
  unfolding send_tracked start_job format_queue_position
  on_status env job position s accepted = start_job env job s
  on_status env job position s merged =
      if job.bot.ack_pending then send_tracked job.bot "已合并补充内容，稍后一并处理" job.n.open_id none s else s
  on_status env job position s queued =
      send_tracked job.bot (format_queue_position env.show position) job.n.open_id none s

  -- The end of Handle: the job starts, joins the job that runs, or waits.
  unfoldable pub accept_job : Env M → QueuedJob → State M → State M
  unfolding queue_scope on_status
  accept_job env job s =
      let r = try_accept s.jobs (queue_scope job.bot job.n.open_id) (item_of job) in
      on_status env job r.1.position (record s { jobs = r.0 }) r.1.status
