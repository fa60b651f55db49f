-- ===== src/Commands.antt =====
-- internal/commands/commands.go: the commands in a message, the mentions of a bot, and who may ask it.
-- The names and patterns of the commands are those of the source; the state that `--status` shows is an
-- argument.
pub mod Patterns
pub mod Handled
pub mod Mentions
pub mod Examples
use yzj_bot_bridge.Prelude.{
  ℕ, String, Bool, true, false, not, ◌&&◌, ◌||◌, Option, none, some, List, [], ◌∷◌, ◌++◌, nat_eq,
  ◌==◌, if◌then◌else◌, Dict, empty_dict, put, concat, trim_space, to_lower, equal_fold,
}
use yzj_bot_bridge.Bots.{Config, RuntimeStatus}
use Patterns.{
  Pattern, find, matches, find_all, replace_all, flag_pattern, forget_pattern, model_pattern,
  project_pattern, memory_pattern, name_pattern, line_pattern, mention_pattern,
}

pub record Result : Type 0 where
  pub reply : String
  pub rest_text : String
  pub overrides : Dict String
  pub handled : Bool

-- What a read of the map gives; a missing key reads as the empty text.
abbrev pub value : Dict String → String → String
value m k = elim (m k) [ none ↦ "" | some v ↦ v ]

abbrev stop_words : List String
stop_words = "stop" ∷ "abort" ∷ "interrupt" ∷ "停止" ∷ "中断" ∷ []

abbrev jobs_words : List String
jobs_words = "jobs" ∷ "queue" ∷ "list" ∷ "tasks" ∷ "任务" ∷ "队列" ∷ "列表" ∷ []

abbrev cmd_words : List String
cmd_words =
    "clear" ∷ "new" ∷ "help" ∷ "status" ∷ "whoami" ∷ "plan" ∷ "ask" ∷ "agent" ∷ "prompt"
      ∷ stop_words
    ++ jobs_words
    ++ "memory" ∷ "forget" ∷ []

-- stopFlagRe, jobsFlagRe and cmdFlagRe
abbrev pub stop_flag : Pattern
stop_flag = flag_pattern stop_words

abbrev pub jobs_flag : Pattern
jobs_flag = flag_pattern jobs_words

abbrev pub cmd_flag : Pattern
cmd_flag = flag_pattern cmd_words

-- The loop of StripBotMention over the names.
unfoldable pub strip_names : List String → String → String
unfolding replace_all name_pattern trim_space
strip_names [] out = out
strip_names (n ∷ ns) out =
    let keep = strip_names ns out in
    let cut = strip_names ns (replace_all (name_pattern (trim_space n)) "" out) in
    if trim_space n == "" then keep else cut

own_names : Option Config → List String
own_names none = []
own_names (some b) = b.name ∷ b.id ∷ b.role_id ∷ []

-- StripBotMention
unfoldable pub strip_bot_mention : String → Option Config → List String → Bool → String
unfolding strip_names own_names replace_all line_pattern trim_space
strip_bot_mention t b extra only_self =
    if only_self
    then trim_space (strip_names (own_names b) t)
    else trim_space (replace_all line_pattern "" (strip_names (own_names b ++ "Fairy" ∷ extra) t))

show_bool : Bool → String
show_bool true = "true"
show_bool false = "false"

-- strings.ToLower(f[1]), one of some words
unfoldable pub is_one_of : List String → String → Bool
is_one_of [] w = false
is_one_of (x ∷ xs) w = x == w || is_one_of xs w

help_text : String
help_text =
    "命令: --clear/--new/--stop/--jobs/--help/--status/--whoami/--plan/--ask/--agent/--prompt --project --model --memory off|on|show --forget\n"

status_line : Config → RuntimeStatus → String
unfolding concat show_bool
status_line b st = concat "bot=" (
    concat b.id (
      concat " backend=" (
        concat b.backend (
          concat " connected=" (
            concat (show_bool st.connected) (
              concat " ws_enabled=" (
                concat (show_bool st.ws_enabled) (concat " err=" (concat st.last_error "\n")))))))))

whoami_line : Config → String
unfolding concat
whoami_line b =
    concat "role="
      (concat b.role_id (concat " name=" (concat b.name (concat " group=" (concat b.group "\n")))))

abbrev say : String → Result → Result
say t r = record r { reply = concat r.reply t }

abbrev handle : Result → Result
handle r = record r { handled = true }

abbrev override : String → String → Result → Result
override k v r = record r { overrides = put k v r.overrides }

-- One turn of the loop over the flags.
unfoldable pub apply_flag : Config → RuntimeStatus → String → Result → Result
unfolding is_one_of help_text status_line whoami_line concat to_lower
apply_flag b st f r =
    let w = to_lower f in
    if w == "clear" || w == "new"
    then handle (say "已清除会话\n" (override "clear" "1" r))
    else if is_one_of stop_words w
    then handle (override "stop" "1" r)
    else if w == "help"
    then handle (say help_text r)
    else if w == "status"
    then handle (say (status_line b st) r)
    else if w == "whoami"
    then handle (say (whoami_line b) r)
    else if w == "plan" || w == "ask" || w == "agent"
    then say (concat "本轮模式: " (concat f "\n")) (override "mode" w r)
    else if w == "prompt"
    then handle (say (concat "system_prompt:\n" (concat b.system_prompt "\n")) r)
    else if w == "memory" || w == "forget"
    then handle r
    else r

unfoldable pub apply_flags : Config → RuntimeStatus → List String → Result → Result
unfolding apply_flag
apply_flags b st [] r = r
apply_flags b st (f ∷ fs) r = apply_flags b st fs (apply_flag b st f r)

-- The text that is left and the result so far.
abbrev pub Parsed : Type 0
Parsed = String × Result

unfoldable pub parse_model : Parsed → Parsed
unfolding find replace_all model_pattern concat
parse_model (t, r) = elim (find model_pattern none t) [
  | none ↦ (t, r)
  | some m ↦ (
    replace_all model_pattern "" t,
    say (concat "已设置本轮模型: " (concat m.group "\n")) (override "model" m.group r),
  )
]

unfoldable pub parse_project : Parsed → Parsed
unfolding find replace_all project_pattern concat trim_space
parse_project (t, r) = elim (find project_pattern none t) [
  | none ↦ (t, r)
  | some m ↦
      let left = replace_all project_pattern "" t in
      (
        left,
        record (say (concat "project 命令已接收: " (concat m.group "（请在会话中确认项目目录）\n")) r) {
          handled = trim_space left == "" && not (m.group == "");
        },
      )
]

unfoldable pub parse_memory : Parsed → Parsed
unfolding find replace_all memory_pattern to_lower trim_space
parse_memory (t, r) = elim (find memory_pattern none t) [
  | none ↦ (t, r)
  | some m ↦
      let sub = if trim_space m.group == "" then "show" else to_lower (trim_space m.group) in
      (replace_all memory_pattern "" t, handle (override "memory" sub r))
]

unfoldable pub parse_forget : Parsed → Parsed
unfolding matches replace_all forget_pattern
parse_forget (t, r) =
    if matches forget_pattern t
    then (replace_all forget_pattern "" t, handle (override "forget" "1" r))
    else (t, r)

unfoldable pub parse_flags : Config → RuntimeStatus → Parsed → Result
unfolding find_all replace_all apply_flags trim_space
parse_flags b st (t, r) =
    let r' = apply_flags b st (find_all cmd_flag t) r in
    let rest = trim_space (replace_all cmd_flag " " t) in
    record r' { rest_text = rest; handled = if rest == "" then r'.handled else false }

unfoldable pub no_result : String → Result
no_result t = record { reply = ""; rest_text = t; overrides = empty_dict; handled = false }

unfoldable pub parse_commands : String → Option Config → RuntimeStatus → Result
unfolding parse_model parse_project parse_memory parse_forget parse_flags no_result
parse_commands t none st = no_result t
parse_commands t (some b) st =
    if not b.commands_enabled
    then no_result t
    else parse_flags b st
        (parse_forget (parse_memory (parse_project (parse_model (t, no_result t)))))

unfoldable pub only_flag : String → Result
only_flag k = record {
  reply = "";
  rest_text = "";
  overrides = put k "1" empty_dict;
  handled = true;
}

-- Parse
unfoldable pub parse : String → Option Config → RuntimeStatus → Result
unfolding matches only_flag parse_commands
parse t b st =
    if matches stop_flag t
    then only_flag "stop"
    else (if matches jobs_flag t then only_flag "jobs" else parse_commands t b st)

-- The loop of MessageTargetsBot over the bots that a message mentions.
unfoldable pub mentions_one : Config → List Config → Bool
unfolding equal_fold
mentions_one receive [] = false
mentions_one receive (m ∷ ms) =
    m.id == receive.id
    || m.role_id == receive.role_id
    || equal_fold m.name receive.name
    || mentions_one receive ms

-- MessageTargetsBot, for a bot of the registry; `resolved` is what ResolveMention gives for a text and
-- a group. A group type of 3 is a private chat.
unfoldable pub message_targets_bot : (String → String → List Config) → String → Config → ℕ → Bool
unfolding matches mention_pattern mentions_one
message_targets_bot resolved content receive group_type = elim (resolved content receive.group) [
  | [] ↦ nat_eq group_type 3 || not (matches mention_pattern content)
  | m ∷ ms ↦ mentions_one receive (m ∷ ms)
]

any_fold : List String → String → Bool
unfolding equal_fold
any_fold [] name = false
any_fold (u ∷ us) name = equal_fold u name || any_fold us name

abbrev pub is_nil : List String → Bool
is_nil [] = true
is_nil (x ∷ xs) = false

-- Allowed
unfoldable pub allowed : Config → String → String → Bool
unfolding is_one_of any_fold
allowed cfg open_id name =
    is_nil cfg.allow_open_ids && is_nil cfg.allow_users
    || is_one_of cfg.allow_open_ids open_id
    || any_fold cfg.allow_users name
