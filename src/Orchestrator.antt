-- ===== src/Orchestrator.antt =====
-- internal/orchestrator/orchestrator.go: which bot answers a message, under which run lock, and with what
-- its engine is asked. `dispatch` is `begin`, up to the call of the engine, and `complete`, behind it; in
-- between other dispatches go on. The engine, the skills and the appendix of the memory are arguments.
pub mod Locked
pub mod Examples
use mathlib.Core.Option
use yzj_bot_bridge.Prelude.{
  String, Bool, true, false, ◌||◌, Option, none, some, List, [], ◌∷◌, ◌==◌, if◌then◌else◌, Dict,
  concat, trim_space, to_lower,
}
use yzj_bot_bridge.Bots.{Config}
use yzj_bot_bridge.Commands.{value, strip_bot_mention}
use yzj_bot_bridge.Registry.{Registry, get_bot, names, resolve_mention}
use yzj_bot_bridge.RunLock
use yzj_bot_bridge.RunLock.{
  World, Chance, Outcome, granted, failed, waiting, acquire, release, after_acquire, drop_held,
  normalize_engine, session_key,
}
use yzj_bot_bridge.Sessions.Keys.{resolve_session_key, run_lock_key}
use yzj_bot_bridge.Sessions.Store.{Store, resolve_agent_workspace, change, clear_session}

pub record DispatchResult : Type 0 where
  pub reply : String
  pub status : String
  pub handler_bot_id : String
  pub receive_bot_id : String

-- What dispatch makes of RunOpts
pub record RunOpts : Type 0 where
  pub workspace : String
  pub mode : String
  pub skills : List String
  pub skill_prompt : String
  pub skill_tools : List String
  pub memory_prompt : String
  pub model : String
  pub operator_open_id : String
  pub operator_name : String
  pub overrides : Dict String

pub record RunResult : Type 0 where
  pub reply : String
  pub status : String

-- What dispatch uses of the skills: the packages of a list, if they resolve, the name of the tool that
-- offers them, if there is one, and the two texts for the prompt.
pub record SkillService (Pkgs : Type 0) : Type 0 where
  pub resolve : List String → Option Pkgs
  pub tool : Pkgs → Option String
  pub system_hint : String
  pub prompt_appendix : Pkgs → String

-- What a dispatch goes by: the registry and its bots as a range visits them, whether a bot has an engine,
-- the test of a directory and the default one, the skills, MemoryPromptFor, and the times of a clear.
pub record Env (Pkgs : Type 0) : Type 0 where
  pub registry : Registry
  pub visited : List Config
  pub has_backend : String → Bool
  pub is_dir : String → Bool
  pub default_workspace : String
  pub skills : Option (SkillService Pkgs)
  pub memory_prompt : Config → String → String → String
  pub stamp : String

-- The state that dispatches share: the run locks and the sessions.
pub record Desk : Type 0 where
  pub locks : World
  pub store : Store

-- A call of the engine, under the lock of a key.
pub record Ask : Type 0 where
  pub handler : Config
  pub lock_key : String
  pub prompt : String
  pub opts : RunOpts
  pub receive_bot_id : String

-- Where a dispatch stands: it has its result, waits for the lock, or asks the engine.
pub data Begun : Type 0 where
  refused : DispatchResult → Begun
  waits : Ask → Begun
  asks : Ask → Begun

-- The loop over the bots that a message mentions.
unfoldable pub other_bot : String → List Config → String
other_bot receive_id [] = receive_id
other_bot receive_id (b ∷ bs) = if b.id == receive_id then other_bot receive_id bs else b.id

-- The id of the bot that answers
unfoldable pub handler_id : Registry → List Config → String → String → String
unfolding other_bot get_bot resolve_mention
handler_id reg visited receive_bot_id content = elim (get_bot receive_bot_id reg) [
  | none ↦ receive_bot_id
  | some receive ↦ other_bot receive.id (resolve_mention content receive.group visited)
]

is_empty : List String → Bool
is_empty [] = true
is_empty (x ∷ xs) = false

-- The lock of a bot and a user
unfoldable pub lock_key : Config → String → String
unfolding session_key normalize_engine run_lock_key
lock_key handler open_id =
    session_key (normalize_engine handler.backend) handler.id (run_lock_key handler open_id)

unfoldable pub interrupted : String → String → DispatchResult
interrupted handler_bot_id receive_bot_id = record {
  reply = "任务已中断";
  status = "interrupted";
  handler_bot_id = handler_bot_id;
  receive_bot_id = receive_bot_id;
}

module _ {Pkgs : Type 0} where
  with_packages : SkillService Pkgs → Config → RunOpts → Option Pkgs → RunOpts
  unfolding to_lower
  with_packages svc cfg opts none = opts
  with_packages svc cfg opts (some pkgs) =
      let backend = to_lower cfg.backend in
      if backend == "openai" || backend == "opencode"
      then record opts {
        skill_prompt = svc.system_hint;
        skill_tools = elim (svc.tool pkgs) [ none ↦ [] | some name ↦ name ∷ [] ];
      }
      else record opts { skill_prompt = svc.prompt_appendix pkgs }

  -- The part of dispatch about skills
  unfoldable pub with_skills : Option (SkillService Pkgs) → Config → RunOpts → RunOpts
  unfolding with_packages is_empty
  with_skills none cfg opts = opts
  with_skills (some svc) cfg opts =
      if is_empty cfg.skills then opts else with_packages svc cfg opts (svc.resolve cfg.skills)

  -- The options of the call of the engine
  unfoldable pub run_opts : Env Pkgs → Config → String → String → String → Dict String → RunOpts
  unfolding with_skills trim_space
  run_opts env handler ws open_id name overrides =
      let opts : RunOpts = record {
        workspace = ws;
        mode = if value overrides "mode" == "" then "agent" else value overrides "mode";
        skills = handler.skills;
        skill_prompt = "";
        skill_tools = [];
        memory_prompt = "";
        model = value overrides "model";
        operator_open_id = open_id;
        operator_name = name;
        overrides = overrides;
      } in
      record (with_skills env.skills handler opts) {
        memory_prompt =
            env.memory_prompt handler open_id (trim_space (value overrides "memory_bind_open_id"));
      }

  -- ClearSession, where the overrides ask for it and there is a session
  unfoldable pub clear_asked : Env Pkgs → Config → String → Dict String → Store → Store
  unfolding resolve_session_key change
  clear_asked env handler open_id overrides store =
      let cleared : Store = elim (resolve_session_key handler open_id) [
        | none ↦ store
        | some key ↦ change store handler.id key (clear_session env.stamp)
      ] in
      if value overrides "clear" == "1" then cleared else store

  -- Behind Acquire: its two errors are those of the context.
  unfoldable pub after_lock : Env Pkgs → Desk → Ask → String → Dict String → Outcome → Desk × Begun
  unfolding clear_asked interrupted
  after_lock env d ask open_id overrides granted =
      (record d { store = clear_asked env ask.handler open_id overrides d.store }, asks ask)
  after_lock env d ask open_id overrides (failed e) =
      (d, refused (interrupted (ask.handler.id) ask.receive_bot_id))
  after_lock env d ask open_id overrides waiting = (d, waits ask)

  unfoldable pub ask_of :
      Env Pkgs → Desk → Config → String → String → String → String → Dict String → Ask
  unfolding run_opts lock_key strip_bot_mention resolve_agent_workspace
  ask_of env d handler receive_bot_id content open_id name overrides = record {
    handler = handler;
    lock_key = lock_key handler open_id;
    prompt = strip_bot_mention content (some handler) (names env.registry) false;
    opts =
        run_opts env handler
          (resolve_agent_workspace env.is_dir env.default_workspace handler open_id (some d.store))
          open_id name overrides;
    receive_bot_id = receive_bot_id;
  }

  -- Acquire looks at the lock, with what the dispatch resolved before.
  unfoldable pub look : Env Pkgs → Desk → Ask → String → Dict String → Chance → Desk × Begun
  unfolding after_lock
  look env d ask open_id overrides c =
      let a = acquire d.locks.manager ask.lock_key c in
      after_lock env (record d { locks = after_acquire d.locks ask.lock_key a }) ask open_id
        overrides (a.1)

  -- The locks are there, as runtime.go sets them.
  unfoldable pub begin_with :
      Env Pkgs
      → Desk
      → Option Config
      → String
      → String
      → String
      → String
      → Dict String
      → Chance
      → Desk × Begun
  unfolding look ask_of concat
  begin_with env d none receive_bot_id content open_id name overrides c = (
    d,
    refused (record {
      reply = concat "未找到处理机器人: " (handler_id env.registry env.visited receive_bot_id content);
      status = "";
      handler_bot_id = handler_id env.registry env.visited receive_bot_id content;
      receive_bot_id = receive_bot_id;
    }),
  )
  begin_with env d (some handler) receive_bot_id content open_id name overrides c =
      look env d (ask_of env d handler receive_bot_id content open_id name overrides) open_id
        overrides c

  -- dispatch up to the call of the engine, or to its wait for the lock
  unfoldable pub begin :
      Env Pkgs → Desk → String → String → String → String → Dict String → Chance → Desk × Begun
  unfolding begin_with handler_id
  begin env d receive_bot_id content open_id name overrides c =
      let id = handler_id env.registry env.visited receive_bot_id content in
      let handler = if env.has_backend id then get_bot id env.registry else none in
      begin_with env d handler receive_bot_id content open_id name overrides c

-- dispatch behind the call of the engine, with the deferred release
unfoldable pub complete : Desk → Ask → RunResult → Desk × DispatchResult
complete d ask result = (
  record d {
    locks = record {
      manager = release d.locks.manager ask.lock_key;
      held = drop_held ask.lock_key d.locks.held;
    };
  },
  record {
    reply = result.reply;
    status = result.status;
    handler_bot_id = ask.handler.id;
    receive_bot_id = ask.receive_bot_id;
  },
)
