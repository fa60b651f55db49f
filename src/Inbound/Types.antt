-- ===== src/Inbound/Types.antt =====
-- internal/inbound/inbound.go: a message as the channels deliver it, and what the dispatcher of the
-- messages holds. The messages that it sends and the jobs that it starts are lists of the state.
use yzj_bot_bridge.Prelude.{ℕ, String, ◌⊎◌, Bool, false, Option, List, [], Dict, empty_dict}
use yzj_bot_bridge.Bots.{Config, RuntimeStatus}
use yzj_bot_bridge.Commands.{Result}
use yzj_bot_bridge.Dedupe
use yzj_bot_bridge.Jobs
use yzj_bot_bridge.Registry.{Registry}
use yzj_bot_bridge.YzjOut.Send.{ReplyMeta}

pub record Attachment : Type 0 where
  pub kind : String
  pub file_id : String
  pub name : String
  pub ext : String
  pub size : ℕ
  pub width : ℕ
  pub height : ℕ

-- Normalized, without the decoded object that it was read from
pub record Normalized : Type 0 where
  pub open_id : String
  pub name : String
  pub msg_id : String
  pub content : String
  pub robot_id : String
  pub robot_name : String
  pub group_type : ℕ
  pub group_id : String
  pub source : String
  pub attachments : List Attachment
  pub force_target : Bool

abbrev pub zero_normalized : Normalized
zero_normalized = record {
  open_id = "";
  name = "";
  msg_id = "";
  content = "";
  robot_id = "";
  robot_name = "";
  group_type = 0;
  group_id = "";
  source = "";
  attachments = [];
  force_target = false;
}

abbrev pub zero_result : Result
zero_result = record { reply = ""; rest_text = ""; overrides = empty_dict; handled = false }

-- queuedJob
pub record QueuedJob : Type 0 where
  pub bot : Config
  pub n : Normalized
  pub cmd : Result

-- A message sent by sendTracked; a failure of the delivery is only logged.
pub record Outbound : Type 0 where
  pub bot_id : String
  pub send_url : String
  pub content : String
  pub open_id : String
  pub reply : Option ReplyMeta

-- A goroutine of runJob that waits for the orchestrator: the content, the overrides and the context
-- that it asked with.
pub record Running : Type 0 where
  pub job : QueuedJob
  pub content : String
  pub overrides : Dict String
  pub ctx : Option ℕ

-- What the dispatcher uses of the memory service, on a state of that service. An error is its text.
pub record MemoryService (M : Type 0) : Type 0 where
  pub set_opt_out : M → String → Bool → M × Option String
  pub format_show : M → String → String
  pub handle_forget : M → String → M × (String ⊎ String)

-- What a message is handled with: the registry and its bots as a range visits them, the order of the
-- range that drops old message ids, the state that each bot shows, the decimal form of a number, the
-- memory service if there is one, and prepareAttachments.
pub record Env (M : Type 0) : Type 0 where
  pub registry : Registry
  pub visited : List Config
  pub order : Dedupe.RangeOrder
  pub status : String → RuntimeStatus
  pub show : ℕ → String
  pub memory : Option (MemoryService M)
  pub prepare_attachments : Config → Normalized → String

pub record State (M : Type 0) : Type 0 where
  pub dedupe : Dedupe.Store
  pub jobs : Jobs.Manager QueuedJob
  pub memory : M
  pub sent : List Outbound
  pub running : List Running
