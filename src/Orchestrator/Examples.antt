-- ===== src/Orchestrator/Examples.antt =====
-- A dispatch that asks the engine of a bot.
use yzj_bot_bridge.Prelude.{◌≤◌, ◌≡◌, refl, true, false, none, [], ◌∷◌, empty_dict, has_prefix}
use yzj_bot_bridge.Bots.{Config, blank_config}
use yzj_bot_bridge.Registry
use yzj_bot_bridge.Registry.{replace}
use yzj_bot_bridge.RunLock
use yzj_bot_bridge.RunLock.{holders, Chance}
use yzj_bot_bridge.Sessions.Store.{Store}
use yzj_bot_bridge.Orchestrator.{Env}
use yzj_bot_bridge.Orchestrator.Locked.{
  Work, Reach, start, next, begins, begun, working_on, engine_exclusive,
}

abbrev coder : Config
coder = record blank_config { id = "b1"; name = "Coder"; backend = "cursor" }

abbrev no_sessions : Store
no_sessions = record { version = 3; bots = empty_dict }

abbrev env : Env Unit
env = record {
  registry = replace (coder ∷ []) Registry.new;
  visited = coder ∷ [];
  has_backend = λ id. true;
  is_dir = λ d. true;
  default_workspace = "workspace";
  skills = none;
  memory_prompt = λ cfg open_id bind. "";
  stamp = "t";
}

abbrev at_once : Chance
at_once = record { done = none; prefer_done = false }

abbrev idle : Work
idle = record { desk = record { locks = RunLock.init; store = no_sessions }; working = [] }

abbrev asked : Work
asked = begun env idle "b1" "hi" "u1" "Ann" empty_dict at_once

asked-Reach : Reach asked
asked-Reach =
    next idle asked (start no_sessions) (begins env "b1" "hi" "u1" "Ann" empty_dict at_once)

engine_exclusive_example :
    (working_on "cursor:b1:u1" asked.working ≤ 1)
    × (working_on "cursor:b1:u1" asked.working ≡ holders "cursor:b1:u1" asked.desk.locks.held)
engine_exclusive_example = engine_exclusive asked "cursor:b1:u1" asked-Reach

it_works : working_on "cursor:b1:u1" asked.working ≡ 1
unfolding working_on begun replace RunLock.new RunLock.acquire has_prefix
it_works = refl
