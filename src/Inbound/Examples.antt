-- ===== src/Inbound/Examples.antt =====
-- The dispatcher with one bot and two messages of a user.
use yzj_bot_bridge.Prelude.{
  ℕ, ◌+◌, ◌<◌, ◌≡◌, refl, ◌≢◌, ◌⊎◌, true, false, none, some, [], ◌∷◌, arith, eq_iff, length,
}
use yzj_bot_bridge.Bots.{Config, RuntimeStatus, blank_config}
use yzj_bot_bridge.Commands.{value, allowed}
use yzj_bot_bridge.Commands.Patterns.{flag_pattern}
use yzj_bot_bridge.Dedupe
use yzj_bot_bridge.Dedupe.{RangeOrder}
use yzj_bot_bridge.Jobs
use yzj_bot_bridge.Jobs.{try_accept, context}
use yzj_bot_bridge.Jobs.Holders.{holder}
use yzj_bot_bridge.Registry
use yzj_bot_bridge.Registry.{replace, get_bot}
use yzj_bot_bridge.Inbound.Types.{Attachment, Normalized, zero_normalized, Env, State}
use yzj_bot_bridge.Inbound.Start.{queue_scope}
use yzj_bot_bridge.Inbound.Handle.{handle, handle_new, command_of, targeted}
use yzj_bot_bridge.Inbound.RunsIn.{runs_in}
use yzj_bot_bridge.Inbound.Reach.{Reach, begin, next, message, init, one_job_per_scope}
use yzj_bot_bridge.Inbound.Stop.{Stopped, stop-Stopped}
use yzj_bot_bridge.Inbound.Once.{Between, at_once, then_message, handle_once}
use yzj_bot_bridge.Inbound.Idle.{Quiet, Served, handle-Served}
use yzj_bot_bridge.Inbound.Attachments.{Limits, Tools, fetched, no_tally, take_all}
use yzj_bot_bridge.Inbound.Limits.{Within, attachments-Within}

abbrev coder : Config
coder = record blank_config { id = "b1"; name = "Coder" }

abbrev idle_status : RuntimeStatus
idle_status = record {
  connected = false;
  ws_enabled = false;
  last_error = "";
  inbound_mode = "";
  poll_enabled = false;
  last_poll_error = "";
}

abbrev as_given : RangeOrder
as_given = record { order = λ keys. keys; order_length = λ keys. refl }

abbrev env : Env Unit
env = record {
  registry = replace (coder ∷ []) Registry.new;
  visited = coder ∷ [];
  order = as_given;
  status = λ id. idle_status;
  show = λ n. "1";
  memory = none;
  prepare_attachments = λ b n. "";
}

abbrev hello : Normalized
hello = record zero_normalized {
  open_id = "u1";
  msg_id = "m1";
  content = "hi";
  force_target = true;
}

abbrev begun : State Unit
begun = handle env "b1" hello (init tt)

named : hello.open_id ≢ ""
named e = ground (arith, eq_iff "u1" "")

begun-Reach : Reach begun
begun-Reach = next (init tt) begun (begin tt) (message env "b1" hello named)

the_runner : runs_in (queue_scope coder "u1") begun.running ≡ ("u1", some 0) ∷ []
unfolding handle runs_in replace Dedupe.new Jobs.new try_accept context flag_pattern
the_runner = refl

one_job_per_scope_example :
    runs_in (queue_scope coder "u1") begun.running ≡ holder begun.jobs (queue_scope coder "u1")
one_job_per_scope_example = one_job_per_scope begun (queue_scope coder "u1") begun-Reach

abbrev please_stop : Normalized
please_stop = record hello { content = "--stop" }

for_coder : targeted env coder please_stop ≡ true
unfolding targeted
for_coder = refl

may_ask : allowed coder please_stop.open_id please_stop.name ≡ true
unfolding allowed
may_ask = refl

says_stop : value (command_of env coder please_stop).overrides "stop" ≡ "1"
unfolding command_of flag_pattern
says_stop = refl

stop-Stopped_example :
    (d : ℕ) × (some 0 ≡ some d)
    × Stopped coder please_stop begun d (handle_new env coder please_stop begun)
stop-Stopped_example =
    stop-Stopped env coder please_stop begun "u1" (some 0) begun-Reach for_coder may_ask says_stop
      the_runner

coder_there : get_bot "b1" env.registry ≡ some coder
unfolding get_bot replace
coder_there = refl

room : length Dedupe.new.seen + 1 < 5000
unfolding Dedupe.new
room = omega arith

abbrev hello_again : Normalized
hello_again = record hello { source = "webhook" }

abbrev other : Normalized
other = record hello { msg_id = "m2"; open_id = "u2" }

one_between :
    Between
      (handle env "b1" hello (init tt))
      1
      (handle env "b1" other (handle env "b1" hello (init tt)))
one_between = then_message 0 (handle env "b1" hello (init tt)) env "b1" other at_once

handle_once_example :
    handle env "b1" hello_again (handle env "b1" other (handle env "b1" hello (init tt)))
    ≡ handle env "b1" other (handle env "b1" hello (init tt))
handle_once_example =
    handle_once env env "b1" coder hello hello_again (init tt)
      (handle env "b1" other (handle env "b1" hello (init tt))) 1 coder_there refl room refl
      one_between

handle-Served_example :
    Quiet begun (handle env "b1" please_stop begun)
    ⊎ ((b : Config) × Served env "b1" b please_stop begun)
handle-Served_example = handle-Served env "b1" please_stop begun

abbrev limits : Limits
limits = record {
  image_enabled = true;
  image_max_mb = 1;
  image_types = [];
  file_enabled = true;
  file_max_mb = 2;
  file_block_ext = "exe" ∷ [];
  max_attachments = 1;
}

abbrev tools : Tools
tools = record {
  download = λ id out. fetched 100;
  sniff = λ out. some "image/png";
  join = λ d f. f;
  ext_of_name = λ name. "";
  show = λ n. "1";
  human_size = λ n. "100B";
}

abbrev photo : Attachment
photo = record {
  kind = "image";
  file_id = "f1";
  name = "photo";
  ext = "png";
  size = 100;
  width = 10;
  height = 10;
}

attachments-Within_example :
    Within limits (take_all tools limits "d" "m1" (photo ∷ photo ∷ []) no_tally)
attachments-Within_example = attachments-Within tools limits "d" "m1" (photo ∷ photo ∷ [])

one_saved : length (take_all tools limits "d" "m1" (photo ∷ photo ∷ []) no_tally).images ≡ 1
unfolding take_all
one_saved = refl
