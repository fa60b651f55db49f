-- ===== src/Inbound/Idle.antt =====
-- What makes the dispatcher start a job or add to a line of waiters.
use yzj_bot_bridge.Prelude.{
  String, ◌≡◌, refl, sym, ◌∙◌, ◌≢◌, ◌⊎◌, inl, inr, Bool, true, false, not, ◌&&◌, some, arith,
  eq_iff, ◌==◌, if◌then◌else◌, Bool-cases, Option-cases, ==_of_ne, trim_space,
}
use yzj_bot_bridge.Bots.{Config}
use yzj_bot_bridge.Commands.{Result, value, allowed, strip_bot_mention}
use yzj_bot_bridge.Commands.Handled.{parse-handled}
use yzj_bot_bridge.Dedupe.{contains, already_seen}
use yzj_bot_bridge.Jobs.{cancel}
use yzj_bot_bridge.Registry.{get_bot, names}
use yzj_bot_bridge.Inbound.Types.{Normalized, Env, State}
use yzj_bot_bridge.Inbound.Start.{send_tracked, reply_to}
use yzj_bot_bridge.Inbound.Known.{key_some}
use yzj_bot_bridge.Inbound.Handle.{
  reply_complete, stop_job, list_jobs, handle_command, command_of, targeted, handle_new, handle_for,
  handle, dedupe_key, websocket_message_for_bot,
}
use yzj_bot_bridge.Inbound.Reach.{memory-Same, forget-Same}

blank_and : (h : Bool) (rest : String) → h ≡ true → rest ≡ "" → (h && trim_space rest == "") ≢ false
unfolding trim_space
blank_and h rest e r n = true_false (sym (both h rest e r) ∙ n)
  where
    true_false : true ≡ false → ⊥
    true_false x = cc

    both : (h : Bool) (rest : String) → h ≡ true → rest ≡ "" → (h && trim_space rest == "") ≡ true
    both h rest e r = rw (e, r) refl

apart : (s t : String) → (s == t) ≡ false → s ≢ t
apart s t h = ground (arith, eq_iff s t)

same_texts : (s t : String) → not (s == t) ≡ false → s ≡ t
same_texts s t h = ground (arith, eq_iff s t)

undo : (b : Bool) → not b ≡ false → b ≡ true
undo b h = ground arith

if_either {ℓ κ} :
    {A : Type ℓ} (P : A → Type κ) (c : Bool) (x y : A)
    → (c ≡ true → P x)
    → (c ≡ false → P y)
    → P (if c then x else y)
if_either P true x y f g = f refl
if_either P false x y f g = g refl

-- The end of Handle is reached by a message that is no command.
record Open (res : Result) : Type 0 where
  no_stop : value res.overrides "stop" ≢ "1"
  no_list : value res.overrides "jobs" ≢ "1"
  no_memory : value res.overrides "memory" ≡ ""
  no_forget : value res.overrides "forget" ≢ "1"
  rest : (res.handled && trim_space res.rest_text == "") ≡ false

module _ {M : Type 0} where
  -- No goroutine starts, and no queue changes but by the cancelling of a scope.
  pub record Quiet (s s' : State M) : Type 0 where
    pub runs : s'.running ≡ s.running
    pub queues : (s'.jobs ≡ s.jobs) ⊎ ((k : String) × (s'.jobs ≡ (cancel s.jobs k).0))

  -- A message that the bot is to work on: a bot of that id is there, the id of the message is new, it is
  -- for the bot and of a user whom the bot serves, and it is no command that needs no engine.
  pub record Served (env : Env M) (bot_id : String) (b : Config) (n : Normalized) (s : State M)
      : Type 0 where
    pub there : get_bot bot_id env.registry ≡ some b
    pub is_new : contains s.dedupe.seen (dedupe_key bot_id n) ≡ false
    pub for_bot : targeted env b n ≡ true
    pub served : allowed b n.open_id n.name ≡ true
    pub no_stop : value (command_of env b n).overrides "stop" ≢ "1"
    pub no_list : value (command_of env b n).overrides "jobs" ≢ "1"
    pub no_memory : value (command_of env b n).overrides "memory" ≡ ""
    pub no_forget : value (command_of env b n).overrides "forget" ≢ "1"
    pub no_command : (command_of env b n).handled ≡ false

  quiet : (s s' : State M) → s'.running ≡ s.running → s'.jobs ≡ s.jobs → Quiet s s'
  quiet s s' e f = record { runs = e; queues = inl f }

  command_of-blank :
      (env : Env M) (b : Config) (n : Normalized)
      → (command_of env b n).handled ≡ true
      → (command_of env b n).rest_text ≡ ""
  unfolding command_of
  command_of-blank env b n h =
      parse-handled (strip_bot_mention n.content (some b) (names env.registry) true) (some b)
        (env.status b.id) h

  not_handled :
      (env : Env M) (b : Config) (n : Normalized)
      → ((command_of env b n).handled && trim_space (command_of env b n).rest_text == "") ≡ false
      → (command_of env b n).handled ≡ false
  not_handled env b n h = elim (Bool-cases (command_of env b n).handled) [
    | inl yes_handled ↦ absurd (
        blank_and (command_of env b n).handled (command_of env b n).rest_text yes_handled
          (command_of-blank env b n yes_handled) h)
    | inr unhandled ↦ unhandled
  ]

  command-Quiet :
      (env : Env M) (b : Config) (n : Normalized) (res : Result) (s : State M)
      → Quiet s (handle_command env b n res s) ⊎ Open res
  unfolding handle_command stop_job list_jobs reply_complete reply_to send_tracked
  command-Quiet env b n res s =
      let P : State M → Type 0 = λ x. Quiet s x ⊎ Open res in
      if_either P (value res.overrides "stop" == "1") _ _
        (λ e. inl (record { runs = refl; queues = inr (_, refl) }))
        (λ e1.
          if_either P (value res.overrides "jobs" == "1") _ _ (λ e. inl (quiet s _ refl refl))
            (λ e2.
              if_either P (not (value res.overrides "memory" == "")) _ _
                (λ e.
                  let m = memory-Same env.memory s n.open_id (value res.overrides "memory") in
                  inl (quiet s _ (m.1) (m.0)))
                (λ e3.
                  if_either P (value res.overrides "forget" == "1") _ _
                    (λ e. let m = forget-Same env.memory s n.open_id in inl (quiet s _ (m.1) (m.0)))
                    (λ e4.
                      if_either P (res.handled && trim_space res.rest_text == "") _ _
                        (λ e. inl (quiet s _ refl refl))
                        (λ e5. inr (record {
                          no_stop = apart (value res.overrides "stop") "1" e1;
                          no_list = apart (value res.overrides "jobs") "1" e2;
                          no_memory = same_texts (value res.overrides "memory") "" e3;
                          no_forget = apart (value res.overrides "forget") "1" e4;
                          rest = e5;
                        }))))))

  new-Quiet :
      (env : Env M) (b : Config) (n : Normalized) (s : State M)
      → Quiet s (handle_new env b n s)
        ⊎ ((targeted env b n ≡ true)
            × (allowed b n.open_id n.name ≡ true)
            × Open (command_of env b n))
  unfolding handle_new reply_to send_tracked
  new-Quiet env b n s =
      let Q : Type 0 =
        (targeted env b n ≡ true)
        × (allowed b n.open_id n.name ≡ true)
        × Open (command_of env b n) in
      if_either (λ x. Quiet s x ⊎ Q) (not (targeted env b n)) _ _ (λ e. inl (quiet s s refl refl))
        (λ e1.
          if_either (λ x. Quiet s x ⊎ Q) (not (allowed b n.open_id n.name)) _ _
            (λ e. inl (quiet s _ refl refl))
            (λ e2. elim (command-Quiet env b n (command_of env b n) s) [
              | inl q ↦ inl q
              | inr o ↦ inr (undo (targeted env b n) e1, undo (allowed b n.open_id n.name) e2, o)
            ]))

  fresh_key :
      (env : Env M) (bot_id : String) (n : Normalized) (s : State M)
      → (already_seen env.order s.dedupe (dedupe_key bot_id n)).1 ≡ false
      → contains s.dedupe.seen (dedupe_key bot_id n) ≡ false
  unfolding already_seen
  fresh_key env bot_id n s h = elim (Bool-cases (contains s.dedupe.seen (dedupe_key bot_id n))) [
    | inl old ↦ absurd (true_false (sym (seen old) ∙ h))
    | inr fresh ↦ fresh
  ]
    where
      true_false : true ≡ false → ⊥
      true_false x = cc

      seen :
          contains s.dedupe.seen (dedupe_key bot_id n) ≡ true
          → (already_seen env.order s.dedupe (dedupe_key bot_id n)).1 ≡ true
      seen old = rw (already_seen, ==_of_ne (dedupe_key bot_id n) "" (key_some bot_id n), old) refl

  for-Quiet :
      (env : Env M) (bot_id : String) (b : Config) (n : Normalized) (s : State M)
      → get_bot bot_id env.registry ≡ some b
      → Quiet s (handle_for env bot_id b n s) ⊎ Served env bot_id b n s
  unfolding handle_for
  for-Quiet env bot_id b n s found =
      let r = already_seen env.order s.dedupe (dedupe_key bot_id n) in
      let s' : State M = record s { dedupe = r.0 } in
      let P : State M → Type 0 = λ x. Quiet s x ⊎ Served env bot_id b n s in
      if_either P (n.source == "websocket" && not (websocket_message_for_bot b n)) _ _
        (λ e. inl (quiet s s refl refl))
        (λ e1.
          if_either P r.1 s' (handle_new env b n s') (λ e. inl (quiet s s' refl refl))
            (λ e2. elim (new-Quiet env b n s') [
              | inl q ↦ inl (record { runs = q.runs; queues = q.queues })
              | inr (t, a, o) ↦ inr (record {
                there = found;
                is_new = fresh_key env bot_id n s e2;
                for_bot = t;
                served = a;
                no_stop = o.no_stop;
                no_list = o.no_list;
                no_memory = o.no_memory;
                no_forget = o.no_forget;
                no_command = not_handled env b n o.rest;
              })
            ]))

  -- A message starts a job, joins a queue or adds to a running job only if the bot is to work on it: a
  -- bot of that id is there, the id of the message is not known, the message is for the bot and of a
  -- user whom it serves, and it is not handled as a command. Any other message starts no goroutine and
  -- leaves all queues as they are, but for the cancelling of a scope.
  pub handle-Served :
      (env : Env M) (bot_id : String) (n : Normalized) (s : State M)
      → Quiet s (handle env bot_id n s) ⊎ ((b : Config) × Served env bot_id b n s)
  unfolding handle
  handle-Served env bot_id n s = elim (Option-cases (get_bot bot_id env.registry)) [
    | inl none_there ↦ inl (rw (handle, none_there) (quiet s s refl refl))
    | inr (b, found) ↦ elim (for-Quiet env bot_id b n s found) [
      | inl q ↦ inl (rw (handle, found) q)
      | inr served ↦ inr (b, served)
    ]
  ]
