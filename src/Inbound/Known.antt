-- ===== src/Inbound/Known.antt =====
-- What a message does to the store of the ids, and that a message that is in it changes nothing.
use mathlib.Core.Path.{subst}
use yzj_bot_bridge.Prelude.{
  ℕ, String, ◌≡◌, refl, sym, ap, ◌∙◌, ◌≢◌, ◌⊎◌, inl, inr, Bool, true, false, not, ◌&&◌, Option,
  none, some, arith, ◌==◌, if◌then◌else◌, Bool-cases, Option-cases, concat, trim_space, to_lower,
  rune_count,
}
use yzj_bot_bridge.Bots.{Config}
use yzj_bot_bridge.Commands.{Result, value, allowed}
use yzj_bot_bridge.Dedupe.{already_seen}
use yzj_bot_bridge.Jobs.Types.{Status, accepted, merged, queued}
use yzj_bot_bridge.Jobs.{try_accept}
use yzj_bot_bridge.Registry.{get_bot}
use yzj_bot_bridge.Inbound.Types.{Normalized, QueuedJob, MemoryService, Env, State}
use yzj_bot_bridge.Inbound.Start.{
  queue_scope, send_tracked, reply_to, start_job, on_status, item_of, accept_job,
}
use yzj_bot_bridge.Inbound.Handle.{
  handle_memory_cmd, handle_forget_cmd, opt_out, forget_user, reply_complete, stop_job, list_jobs,
  handle_command, command_of, targeted, handle_new, handle_for, handle, dedupe_key,
  websocket_message_for_bot,
}

pub key_some : (bot_id : String) (n : Normalized) → dedupe_key bot_id n ≢ ""
unfolding concat rune_count
key_some String.[] n e = omega (arith, ap rune_count e)
key_some (String.◌∷◌ c s) n e = omega (arith, ap rune_count e)

module _ {M : Type 0} where
  -- A state that knows the messages that another knows.
  abbrev pub Knows : State M → State M → Type 0
  Knows s s' = s'.dedupe ≡ s.dedupe

  pub if_Knows :
      (s : State M) (c : Bool) (a b : State M)
      → Knows s a
      → Knows s b
      → Knows s (if c then a else b)
  if_Knows s true a b ga gb = ga
  if_Knows s false a b ga gb = gb

  if_reply :
      (s : State M) (c : Bool) (a b : State M × String)
      → Knows s a.0
      → Knows s b.0
      → Knows s (if c then a else b).0
  if_reply s true a b ga gb = ga
  if_reply s false a b ga gb = gb

  memory-Knows :
      (svc : Option (MemoryService M)) (s : State M) (open_id sub : String)
      → Knows s (handle_memory_cmd svc s open_id sub).0
  unfolding handle_memory_cmd opt_out
  memory-Knows none s open_id sub = refl
  memory-Knows (some svc) s open_id sub = if_reply s (trim_space open_id == "") _ _ refl (
      if_reply s (to_lower (trim_space sub) == "off") _ _ refl
        (if_reply s (to_lower (trim_space sub) == "on") _ _ refl refl))

  forget-Knows :
      (svc : Option (MemoryService M)) (s : State M) (open_id : String)
      → Knows s (handle_forget_cmd svc s open_id).0
  unfolding handle_forget_cmd forget_user
  forget-Knows none s open_id = refl
  forget-Knows (some svc) s open_id = if_reply s (trim_space open_id == "") _ _ refl refl

  pub start_job-Knows :
      (env : Env M) (job : QueuedJob) (s : State M) → Knows s (start_job env job s)
  unfolding start_job send_tracked
  start_job-Knows env job s = if_Knows s job.bot.ack_pending _ _ refl refl

  on_status-Knows :
      (env : Env M) (job : QueuedJob) (i : ℕ) (s : State M) (st : Status)
      → Knows s (on_status env job i s st)
  unfolding on_status send_tracked
  on_status-Knows env job i s accepted = start_job-Knows env job s
  on_status-Knows env job i s merged = if_Knows s job.bot.ack_pending _ _ refl refl
  on_status-Knows env job i s queued = refl

  accept_job-Knows : (env : Env M) (job : QueuedJob) (s : State M) → Knows s (accept_job env job s)
  unfolding accept_job
  accept_job-Knows env job s =
      let r = try_accept s.jobs (queue_scope job.bot job.n.open_id) (item_of job) in
      on_status-Knows env job r.1.position (record s { jobs = r.0 }) r.1.status

  handle_command-Knows :
      (env : Env M) (b : Config) (n : Normalized) (res : Result) (s : State M)
      → Knows s (handle_command env b n res s)
  unfolding handle_command stop_job list_jobs reply_complete reply_to send_tracked
  handle_command-Knows env b n res s = if_Knows s (value res.overrides "stop" == "1") _ _ refl (
      if_Knows s (value res.overrides "jobs" == "1") _ _ refl (
        if_Knows s (not (value res.overrides "memory" == "")) _ _
          (memory-Knows env.memory s n.open_id (value res.overrides "memory"))
          (if_Knows s (value res.overrides "forget" == "1") _ _
            (forget-Knows env.memory s n.open_id)
            (if_Knows s (res.handled && trim_space res.rest_text == "") _ _ refl
              (accept_job-Knows env (record { bot = b; n = n; cmd = res }) s)))))

  handle_new-Knows :
      (env : Env M) (b : Config) (n : Normalized) (s : State M) → Knows s (handle_new env b n s)
  unfolding handle_new reply_to send_tracked
  handle_new-Knows env b n s = if_Knows s (not (targeted env b n)) _ _ refl (
      if_Knows s (not (allowed b n.open_id n.name)) _ _ refl
        (handle_command-Knows env b n (command_of env b n) s))

  same_if : (c : Bool) (s : State M) → (if c then s else s) ≡ s
  same_if true s = refl
  same_if false s = refl

  -- The message was seen: nothing happens.
  seen_before :
      (env : Env M) (bot_id : String) (b : Config) (n : Normalized) (s : State M)
      → already_seen env.order s.dedupe (dedupe_key bot_id n) ≡ (s.dedupe, true)
      → handle_for env bot_id b n s ≡ s
  unfolding handle_for
  seen_before env bot_id b n s h =
      subst
        (λ r.
          (if n.source == "websocket" && not (websocket_message_for_bot b n)
            then s
            else (if r.1
                then record s { dedupe = r.0 }
                else handle_new env b n (record s { dedupe = r.0 })))
          ≡ s)
        (sym h) (same_if (n.source == "websocket" && not (websocket_message_for_bot b n)) s)

  pub seen_before_by :
      (env : Env M) (bot_id : String) (n : Normalized) (s : State M)
      → already_seen env.order s.dedupe (dedupe_key bot_id n) ≡ (s.dedupe, true)
      → handle env bot_id n s ≡ s
  unfolding handle
  seen_before_by env bot_id n s h = elim (Option-cases (get_bot bot_id env.registry)) [
    | inl none_there ↦ rw (handle, none_there) refl
    | inr (b, found) ↦ rw (handle, found) (seen_before env bot_id b n s h)
  ]

  pub handle_for-dedupe :
      (env : Env M) (bot_id : String) (b : Config) (n : Normalized) (s : State M)
      → (n.source == "websocket" && not (websocket_message_for_bot b n)) ≡ false
      → (handle_for env bot_id b n s).dedupe
        ≡ (already_seen env.order s.dedupe (dedupe_key bot_id n)).0
  unfolding handle_for
  handle_for-dedupe env bot_id b n s pass =
      let r = already_seen env.order s.dedupe (dedupe_key bot_id n) in
      let s' : State M = record s { dedupe = r.0 } in
      ap (λ c. (if c then s else (if r.1 then s' else handle_new env b n s')).dedupe) pass
      ∙ if_Knows s' r.1 _ _ refl (handle_new-Knows env b n s')

  pub handle-found :
      (env : Env M) (bot_id : String) (b : Config) (n : Normalized) (s : State M)
      → get_bot bot_id env.registry ≡ some b
      → handle env bot_id n s ≡ handle_for env bot_id b n s
  unfolding handle
  handle-found env bot_id b n s found = rw (handle, found) refl

  -- A message leaves the store of the ids as it is, or gives it one key.
  pub handle-dedupe :
      (env : Env M) (bot_id : String) (n : Normalized) (s : State M)
      → ((handle env bot_id n s).dedupe ≡ s.dedupe)
        ⊎ ((handle env bot_id n s).dedupe
            ≡ (already_seen env.order s.dedupe (dedupe_key bot_id n)).0)
  unfolding handle handle_for
  handle-dedupe env bot_id n s = elim (Option-cases (get_bot bot_id env.registry)) [
    | inl none_there ↦ inl (rw (handle, none_there) refl)
    | inr (b, found) ↦
        elim (Bool-cases (n.source == "websocket" && not (websocket_message_for_bot b n))) [
          | inl drop_it ↦ inl (rw (handle, found, handle_for, drop_it) refl)
          | inr pass ↦ inr (rw (handle, found) (handle_for-dedupe env bot_id b n s pass))
        ]
  ]
