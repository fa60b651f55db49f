-- ===== src/Inbound/Once.antt =====
-- The same message from two channels, with others between.
use yzj_bot_bridge.Prelude.{
  ℕ, suc, ◌+◌, ◌≤◌, ◌<◌, String, ◌≡◌, refl, sym, ap, ◌∙◌, inl, inr, true, false, not, ◌&&◌, Option,
  none, some, List, [], ◌∷◌, ◌++◌, arith, ◌==◌, length, concat,
}
use mathlib.Core.Path.{subst}
use yzj_bot_bridge.Bots.{Config}
use yzj_bot_bridge.Dedupe.{max_seen, contains, already_seen}
use yzj_bot_bridge.Dedupe.Kept.{
  already_seen_known, already_seen-contains, already_seen_keeps, already_seen-length,
}
use yzj_bot_bridge.Jobs.{drain_extra, finish}
use yzj_bot_bridge.Jobs.Types.{Notice, Item}
use yzj_bot_bridge.Orchestrator.{DispatchResult}
use yzj_bot_bridge.Registry.{get_bot}
use yzj_bot_bridge.Inbound.Types.{Normalized, QueuedJob, Running, Env, State}
use yzj_bot_bridge.Inbound.Start.{queue_scope, send_tracked}
use yzj_bot_bridge.Inbound.Handle.{handle, dedupe_key, websocket_message_for_bot}
use yzj_bot_bridge.Inbound.Run.{notify_queue, start_next, end_job, reply_result, answer, next_job}
use yzj_bot_bridge.Inbound.Known.{
  Knows, if_Knows, start_job-Knows, key_some, seen_before_by, handle_for-dedupe, handle-found,
  handle-dedupe,
}

module _ {M : Type 0} where
  notify-Knows :
      (env : Env M) (b : Config) (ns : List Notice) (s : State M)
      → Knows s (notify_queue env b ns s)
  unfolding notify_queue send_tracked
  notify-Knows env b [] s = refl
  notify-Knows env b (n ∷ ns) s = notify-Knows env b ns _

  start_next-Knows :
      (env : Env M) (b : Config) (next : Option (Item QueuedJob)) (s : State M)
      → Knows s (start_next env b next s)
  unfolding start_next
  start_next-Knows env b none s = refl
  start_next-Knows env b (some next) s = start_job-Knows env (next_job b next) s

  end_job-Knows : (env : Env M) (job : QueuedJob) (s : State M) → Knows s (end_job env job s)
  unfolding end_job
  end_job-Knows env job s =
      let r = finish s.jobs (queue_scope job.bot job.n.open_id) job.n.open_id in
      let freed : State M = record s { jobs = r.0 } in
      start_next-Knows env job.bot (r.1) (notify_queue env job.bot (r.2) freed)
      ∙ notify-Knows env job.bot (r.2) freed

  answer-Knows :
      (env : Env M) (before : List Running) (r : Running) (after : List Running)
      (dr : DispatchResult) (s : State M)
      → Knows s (answer env before r after dr s)
  unfolding answer reply_result
  answer-Knows env before r after dr s =
      let s' = reply_result env r.job dr s in
      let d = drain_extra s'.jobs (queue_scope r.job.bot r.job.n.open_id) r.job.n.open_id in
      let done : State M = record s' { running = before ++ after } in
      if_Knows s (dr.status == "interrupted") _ _ (end_job-Knows env r.job done)
        (if_Knows s (d.1 == "") _ _ (end_job-Knows env r.job (record done { jobs = d.0 })) refl)

  -- What comes between two deliveries: answers of the orchestrator, and as many messages as the number
  -- says, for any bots and with any settings.
  pub data Between (s : State M) : ℕ → State M → Type 0 where
    at_once : Between s 0 s
    then_message :
        (m : ℕ) (s' : State M) (env : Env M) (bot_id : String) (n : Normalized)
        → Between s m s'
        → Between s (suc m) (handle env bot_id n s')
    then_answer :
        (m : ℕ) (s' : State M) (env : Env M) (before : List Running) (r : Running)
        (after : List Running) (dr : DispatchResult)
        → Between s m s'
        → Between s m (answer env before r after dr s')

  -- The store has the key, and at most so many.
  record Has (key : String) (n : ℕ) (s : State M) : Type 0 where
    has : contains s.dedupe.seen key ≡ true
    few : length s.dedupe.seen ≤ n

  Knows-Has : (key : String) (n : ℕ) (s s' : State M) → Knows s s' → Has key n s → Has key n s'
  Knows-Has key n s s' e h = record {
    has = subst (λ d. contains d.seen key ≡ true) (sym e) h.has;
    few = subst (λ d. length d.seen ≤ n) (sym e) h.few;
  }

  handle-Has :
      (env : Env M) (bot_id : String) (n : Normalized) (s : State M) (key : String) (c : ℕ)
      → c < max_seen
      → Has key c s
      → Has key (suc c) (handle env bot_id n s)
  handle-Has env bot_id n s key c room h = elim (handle-dedupe env bot_id n s) [
    | inl e ↦
        Knows-Has key (suc c) s (handle env bot_id n s) e
          (record { has = h.has; few = omega (arith, h.few) })
    | inr e ↦ record {
      has =
          subst (λ d. contains d.seen key ≡ true) (sym e)
            (already_seen_keeps env.order s.dedupe (dedupe_key bot_id n) key (omega (arith, h.few))
              h.has);
      few =
          subst (λ d. length d.seen ≤ suc c) (sym e)
            (omega (
              arith,
              h.few,
              already_seen-length env.order s.dedupe (dedupe_key bot_id n) (omega (arith, h.few)),
            ));
    }
  ]

  between-Has :
      (s s' : State M) (key : String) (m c : ℕ)
      → Between s m s'
      → c + m ≤ max_seen
      → Has key c s
      → Has key (c + m) s'
  between-Has s _ key _ c at_once room h = record { has = h.has; few = omega (arith, h.few) }
  between-Has s _ key _ c (then_message m s' env bot_id n b) room h =
      let g =
        handle-Has env bot_id n s' key (c + m) (omega arith)
          (between-Has s s' key m c b (omega arith) h) in
      record { has = g.has; few = omega (arith, g.few) }
  between-Has s _ key _ c (then_answer m s' env before r after dr b) room h =
      Knows-Has key (c + m) s' (answer env before r after dr s')
        (answer-Knows env before r after dr s') (between-Has s s' key m c b room h)

  -- A message that a bot has handled changes nothing when it comes again, whichever channel delivers it
  -- and whatever else it says, after any messages and answers between: provided that it has the same
  -- id, and that the ids known before and the messages until then are fewer than the 5000 that the
  -- store holds.
  pub handle_once :
      (env env' : Env M) (bot_id : String) (b : Config) (n n' : Normalized) (s s' : State M) (m : ℕ)
      → get_bot bot_id env.registry ≡ some b
      → (n.source == "websocket" && not (websocket_message_for_bot b n)) ≡ false
      → length s.dedupe.seen + m < max_seen
      → n'.msg_id ≡ n.msg_id
      → Between (handle env bot_id n s) m s'
      → handle env' bot_id n' s' ≡ s'
  handle_once env env' bot_id b n n' s s' m found pass room same between =
      seen_before_by env' bot_id n' s' (
        already_seen_known env'.order s'.dedupe (dedupe_key bot_id n') (key_some bot_id n')
          (subst (λ k. contains s'.dedupe.seen k ≡ true) (sym same_key) after.has))
    where
      key : String
      key = dedupe_key bot_id n

      same_key : dedupe_key bot_id n' ≡ key
      same_key = ap (λ i. concat bot_id (concat ":" i)) same

      known : (handle env bot_id n s).dedupe ≡ (already_seen env.order s.dedupe key).0
      known =
          ap (λ t. t.dedupe) (handle-found env bot_id b n s found)
          ∙ handle_for-dedupe env bot_id b n s pass

      first : Has key (suc (length s.dedupe.seen)) (handle env bot_id n s)
      first = record {
        has =
            subst (λ d. contains d.seen key ≡ true) (sym known)
              (already_seen-contains env.order s.dedupe key (key_some bot_id n) (omega arith));
        few =
            subst (λ d. length d.seen ≤ suc (length s.dedupe.seen)) (sym known)
              (already_seen-length env.order s.dedupe key (omega arith));
      }

      after : Has key (suc (length s.dedupe.seen) + m) s'
      after =
          between-Has (handle env bot_id n s) s' key m (suc (length s.dedupe.seen)) between
            (omega arith) first
