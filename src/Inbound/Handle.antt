-- ===== src/Inbound/Handle.antt =====
-- internal/inbound/inbound.go: Handle, from its guards to the commands that need no engine.
use yzj_bot_bridge.Prelude.{
  String, inl, inr, Bool, true, false, not, ◌&&◌, ◌||◌, Option, none, some, List, [], ◌∷◌, ◌==◌,
  if◌then◌else◌, concat, trim_space, to_lower, equal_fold,
}
use yzj_bot_bridge.Bots.{Config}
use yzj_bot_bridge.Commands.{Result, value, parse, strip_bot_mention, message_targets_bot, allowed}
use yzj_bot_bridge.Dedupe.{already_seen}
use yzj_bot_bridge.Jobs.{cancel, snapshot}
use yzj_bot_bridge.Registry.{get_bot, names, resolve_mention}
use yzj_bot_bridge.YzjOut.Replies.{format_completion_reply, format_stop_ack, format_job_list}
use yzj_bot_bridge.Inbound.Types.{Normalized, MemoryService, Env, State}
use yzj_bot_bridge.Inbound.Start.{queue_scope, reply_to, accept_job}

any_name : List String → String → Bool
unfolding trim_space equal_fold
any_name [] target = false
any_name (name ∷ rest) target =
    not (trim_space name == "") && equal_fold (trim_space name) target || any_name rest target

-- websocketMessageForBot
unfoldable pub websocket_message_for_bot : Config → Normalized → Bool
unfolding any_name trim_space equal_fold
websocket_message_for_bot b n =
    if not (trim_space n.robot_id == "") && not (trim_space b.yzj_bot_open_id == "")
    then equal_fold (trim_space n.robot_id) (trim_space b.yzj_bot_open_id)
    else (if trim_space n.robot_name == ""
        then true
        else any_name (b.name ∷ b.yzj_bot_names) (trim_space n.robot_name))

-- The key under which a message is known, whichever channel delivers it.
abbrev pub dedupe_key : String → Normalized → String
dedupe_key bot_id n = concat bot_id (concat ":" n.msg_id)

module _ {M : Type 0} where
  -- Memory.SetOptOut, and the reply to its caller: the text of an error behind one of two texts.
  unfoldable pub opt_out :
      MemoryService M → State M → String → Bool → String → String → State M × String
  unfolding concat
  opt_out svc s open_id off failed done =
      let r = svc.set_opt_out s.memory open_id off in
      (record s { memory = r.0 }, elim r.1 [ none ↦ done | some err ↦ concat failed err ])

  -- handleMemoryCmd
  unfoldable pub handle_memory_cmd :
      Option (MemoryService M) → State M → String → String → State M × String
  unfolding opt_out trim_space to_lower
  handle_memory_cmd none s open_id sub = (s, "记忆服务未启用")
  handle_memory_cmd (some svc) s open_id sub =
      let user = trim_space open_id in
      let word = to_lower (trim_space sub) in
      if user == ""
      then (s, "无法识别用户 openID，无法操作记忆")
      else (if word == "off"
          then opt_out svc s user true "关闭记忆失败: " "已关闭你的用户记忆（不再注入、不再更新）。发送 /memory on 可重新开启。"
          else (if word == "on"
              then opt_out svc s user false "开启记忆失败: " "已开启你的用户记忆。"
              else (s, svc.format_show s.memory user)))

  unfoldable pub forget_user : MemoryService M → State M → String → State M × String
  unfolding concat
  forget_user svc s open_id =
      let r = svc.handle_forget s.memory open_id in
      (record s { memory = r.0 }, elim r.1 [ inl err ↦ concat "清除记忆失败: " err | inr reply ↦ reply ])

  -- handleForgetCmd
  unfoldable pub handle_forget_cmd : Option (MemoryService M) → State M → String → State M × String
  unfolding forget_user trim_space
  handle_forget_cmd none s open_id = (s, "记忆服务未启用")
  handle_forget_cmd (some svc) s open_id =
      if trim_space open_id == ""
      then (s, "无法识别用户 openID，无法清除记忆")
      else forget_user svc s (trim_space open_id)

  -- The replies of the commands about memory and of those that need no engine.
  unfoldable pub reply_complete : Config → Normalized → State M × String → State M
  unfolding reply_to format_completion_reply
  reply_complete b n r =
      reply_to b n (format_completion_reply r.1 n.open_id n.name b.mention_on_reply) r.0

  unfoldable pub stop_job : Config → Normalized → State M → State M
  unfolding reply_to queue_scope format_stop_ack
  stop_job b n s =
      let r = cancel s.jobs (queue_scope b n.open_id) in
      reply_to b n (format_stop_ack r.1) (record s { jobs = r.0 })

  unfoldable pub list_jobs : Env M → Config → Normalized → State M → State M
  unfolding reply_to queue_scope format_job_list
  list_jobs env b n s =
      reply_to b n (format_job_list env.show (snapshot s.jobs (queue_scope b n.open_id))) s

  -- Handle behind its guards, by what Parse made of the message.
  unfoldable pub handle_command : Env M → Config → Normalized → Result → State M → State M
  unfolding stop_job list_jobs handle_memory_cmd handle_forget_cmd reply_complete accept_job
      trim_space
  handle_command env b n res s =
      if value res.overrides "stop" == "1"
      then stop_job b n s
      else (if value res.overrides "jobs" == "1"
          then list_jobs env b n s
          else (if not (value res.overrides "memory" == "")
              then reply_complete b n
                  (handle_memory_cmd env.memory s n.open_id (value res.overrides "memory"))
              else (if value res.overrides "forget" == "1"
                  then reply_complete b n (handle_forget_cmd env.memory s n.open_id)
                  else (if res.handled && trim_space res.rest_text == ""
                      then reply_complete b n (s, trim_space res.reply)
                      else accept_job env (record { bot = b; n = n; cmd = res }) s))))

  -- The command in a message.
  unfoldable pub command_of : Env M → Config → Normalized → Result
  unfolding parse strip_bot_mention
  command_of env b n =
      parse (strip_bot_mention n.content (some b) (names env.registry) true) (some b)
        (env.status b.id)

  -- Whether a message is for the bot, by its text.
  unfoldable pub targeted : Env M → Config → Normalized → Bool
  unfolding message_targets_bot resolve_mention
  targeted env b n =
      n.force_target
      || message_targets_bot (λ content group. resolve_mention content group env.visited) n.content
          b n.group_type

  -- Handle behind the test for a message that was handled before.
  unfoldable pub handle_new : Env M → Config → Normalized → State M → State M
  unfolding targeted allowed command_of handle_command reply_to
  handle_new env b n s =
      if not (targeted env b n)
      then s
      else (if not (allowed b n.open_id n.name)
          then reply_to b n "你不在白名单中" s
          else handle_command env b n (command_of env b n) s)

  unfoldable pub handle_for : Env M → String → Config → Normalized → State M → State M
  unfolding websocket_message_for_bot already_seen handle_new concat
  handle_for env bot_id b n s =
      let r = already_seen env.order s.dedupe (dedupe_key bot_id n) in
      let s' : State M = record s { dedupe = r.0 } in
      if n.source == "websocket" && not (websocket_message_for_bot b n)
      then s
      else (if r.1 then s' else handle_new env b n s')

  -- Handle
  unfoldable pub handle : Env M → String → Normalized → State M → State M
  unfolding handle_for get_bot
  handle env bot_id n s = elim (get_bot bot_id env.registry) [
    | none ↦ s
    | some b ↦ handle_for env bot_id b n s
  ]
