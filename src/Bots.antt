-- ===== src/Bots.antt =====
-- internal/bot/bot.go: the settings of a bot and the modes of its channel. `max_budget_usd`, a floating
-- point number that is passed on to an engine, is left out; numbers of the settings are not negative.
use yzj_bot_bridge.Prelude.{ℕ, String, Bool, false, ◌||◌, List, [], ◌==◌}

pub record Config : Type 0 where
  pub id : String
  pub name : String
  pub group : String
  pub send_msg_url : String
  pub role_id : String
  pub channel_key : String
  pub backend : String
  pub system_prompt : String
  pub skills : List String
  pub model : String
  pub workspace : String
  pub allow_users : List String
  pub allow_open_ids : List String
  pub cursor_api_key : String
  pub cursor_bin : String
  pub cursor_sandbox : String
  pub cursor_force : Bool
  pub cursor_stream : Bool
  pub cursor_stream_partial : Bool
  pub cursor_timeout : ℕ
  pub cursor_daily_reset : Bool
  pub claude_bin : String
  pub permission_mode : String
  pub allowed_tools : List String
  pub opencode_bin : String
  pub dsh_mode : String
  pub dsh_desktop_path : String
  pub node_bin : String
  pub dsh_entry : String
  pub dsh_profile : String
  pub dsh_provider : String
  pub dsh_model : String
  pub dsh_reasoning_effort : String
  pub dsh_thinking_format : String
  pub dsh_timeout : ℕ
  pub dsh_ttl_seconds : ℕ
  pub dsh_max_warm : ℕ
  pub dsh_home : String
  pub openai_base_url : String
  pub openai_api_key : String
  pub openai_timeout : ℕ
  pub openai_max_tool_rounds : ℕ
  pub conversations_dir : String
  pub openai_compact : Bool
  pub openai_compact_keep : ℕ
  pub openai_compact_after_turns : ℕ
  pub openai_compact_after_runes : ℕ
  pub session_mode : String
  pub session_idle_reset_hours : ℕ
  pub job_queue : String
  pub shared_session_key : String
  pub ack_pending : Bool
  pub mention_on_reply : Bool
  pub commands_enabled : Bool
  pub inbound_mode : String
  pub webhook_path : String
  pub secret : String
  pub yzj_group_id : String
  pub yzj_group_name : String
  pub yzj_profile : String
  pub yzj_bot_names : List String
  pub yzj_bot_open_id : String
  pub yzj_image_trigger : String
  pub yzj_trigger : String
  pub memory_enabled : Bool

-- A bot with no settings.
abbrev pub blank_config : Config
blank_config = record {
  id = "";
  name = "";
  group = "";
  send_msg_url = "";
  role_id = "";
  channel_key = "";
  backend = "";
  system_prompt = "";
  skills = [];
  model = "";
  workspace = "";
  allow_users = [];
  allow_open_ids = [];
  cursor_api_key = "";
  cursor_bin = "";
  cursor_sandbox = "";
  cursor_force = false;
  cursor_stream = false;
  cursor_stream_partial = false;
  cursor_timeout = 0;
  cursor_daily_reset = false;
  claude_bin = "";
  permission_mode = "";
  allowed_tools = [];
  opencode_bin = "";
  dsh_mode = "";
  dsh_desktop_path = "";
  node_bin = "";
  dsh_entry = "";
  dsh_profile = "";
  dsh_provider = "";
  dsh_model = "";
  dsh_reasoning_effort = "";
  dsh_thinking_format = "";
  dsh_timeout = 0;
  dsh_ttl_seconds = 0;
  dsh_max_warm = 0;
  dsh_home = "";
  openai_base_url = "";
  openai_api_key = "";
  openai_timeout = 0;
  openai_max_tool_rounds = 0;
  conversations_dir = "";
  openai_compact = false;
  openai_compact_keep = 0;
  openai_compact_after_turns = 0;
  openai_compact_after_runes = 0;
  session_mode = "";
  session_idle_reset_hours = 0;
  job_queue = "";
  shared_session_key = "";
  ack_pending = false;
  mention_on_reply = false;
  commands_enabled = false;
  inbound_mode = "";
  webhook_path = "";
  secret = "";
  yzj_group_id = "";
  yzj_group_name = "";
  yzj_profile = "";
  yzj_bot_names = [];
  yzj_bot_open_id = "";
  yzj_image_trigger = "";
  yzj_trigger = "";
  memory_enabled = false;
}

-- ModeUsesWS
unfoldable pub mode_uses_ws : String → Bool
mode_uses_ws mode = mode == "" || mode == "websocket" || mode == "both"

-- ModeUsesWebhook
unfoldable pub mode_uses_webhook : String → Bool
mode_uses_webhook mode = mode == "webhook" || mode == "both"

-- ModeUsesPoll
unfoldable pub mode_uses_poll : String → Bool
mode_uses_poll mode = mode == "yzj_cli" || mode == "poll"

-- RuntimeStatus, without the times that it shows
pub record RuntimeStatus : Type 0 where
  pub connected : Bool
  pub ws_enabled : Bool
  pub last_error : String
  pub inbound_mode : String
  pub poll_enabled : Bool
  pub last_poll_error : String
