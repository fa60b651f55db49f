-- ===== src/Commands/Examples.antt =====
-- Commands and mentions in concrete messages.
use yzj_bot_bridge.Prelude.{◌≡◌, refl, true, false, some, [], ◌∷◌, trim_space, to_lower}
use yzj_bot_bridge.Bots.{Config, RuntimeStatus, blank_config}
use yzj_bot_bridge.Commands.Patterns.{flag_pattern, find_all, mention_pattern}
use yzj_bot_bridge.Commands.Handled.{parse-handled}
use yzj_bot_bridge.Commands.Mentions.{mention_targets}
use yzj_bot_bridge.Commands.{parse, strip_bot_mention, message_targets_bot}
use yzj_bot_bridge.Registry.{has_id, resolve, resolve_mention}

abbrev coder : Config
coder = record blank_config { id = "b1"; name = "Coder"; group = "g1"; commands_enabled = true }

abbrev idle_status : RuntimeStatus
idle_status = record {
  connected = false;
  ws_enabled = false;
  last_error = "";
  inbound_mode = "";
  poll_enabled = false;
  last_poll_error = "";
}

clear_handled : (parse "/clear" (some coder) idle_status).handled ≡ true
unfolding parse flag_pattern
clear_handled = refl

parse-handled_example : (parse "/clear" (some coder) idle_status).rest_text ≡ ""
parse-handled_example = parse-handled "/clear" (some coder) idle_status clear_handled

-- A mention of a name in Chinese, with a space behind it, is not taken out.
kept_mention : strip_bot_mention "@助手 hi" (some (record coder { name = "助手" })) [] true ≡ "@助手 hi"
unfolding strip_bot_mention
kept_mention = refl

mentioned_here : has_id (find_all mention_pattern "@Coder hi") "Coder" ≡ true
unfolding has_id find_all mention_pattern
mentioned_here = refl

resolved_here : resolve "Coder" "g1" (coder ∷ []) ≡ some coder
unfolding resolve to_lower trim_space
resolved_here = refl

mention_targets_example :
    message_targets_bot (λ c g. resolve_mention c g (coder ∷ [])) "@Coder hi" coder 1 ≡ true
mention_targets_example =
    mention_targets "@Coder hi" "Coder" (coder ∷ []) coder 1 mentioned_here resolved_here
