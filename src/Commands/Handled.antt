-- ===== src/Commands/Handled.antt =====
-- What Parse leaves of a message that is a command.
use yzj_bot_bridge.Prelude.{
  String, ◌≡◌, refl, Bool, true, false, not, Option, none, some, arith, eq_iff, ◌==◌, if◌then◌else◌,
  trim_space,
}
use yzj_bot_bridge.Bots.{Config, RuntimeStatus}
use yzj_bot_bridge.Commands.Patterns.{matches, find_all, replace_all}
use yzj_bot_bridge.Commands.{
  Result, parse, parse_commands, parse_flags, parse_forget, parse_memory, parse_project,
  parse_model, only_flag, stop_flag, jobs_flag, cmd_flag, apply_flags, no_result, Parsed,
}

-- A result that has no text left if it is handled.
abbrev Clean : Result → Type 0
Clean r = r.handled ≡ true → r.rest_text ≡ ""

if-Clean : (c : Bool) (a b : Result) → Clean a → Clean b → Clean (if c then a else b)
if-Clean true a b ca cb = ca
if-Clean false a b ca cb = cb

no_result-Clean : (t : String) → Clean (no_result t)
unfolding no_result
no_result-Clean t h = absurd (not_true h)
  where
    not_true : false ≡ true → ⊥
    not_true e = cc

left_blank : (rest : String) (h : Bool) → (if rest == "" then h else false) ≡ true → rest ≡ ""
left_blank rest h e = ground (arith, eq_iff rest "")

parse_flags-Clean : (b : Config) (st : RuntimeStatus) (p : Parsed) → Clean (parse_flags b st p)
unfolding parse_flags
parse_flags-Clean b st (t, r) h =
    left_blank (trim_space (replace_all cmd_flag " " t))
      (apply_flags b st (find_all cmd_flag t) r).handled h

parse_commands-Clean :
    (t : String) (b : Option Config) (st : RuntimeStatus) → Clean (parse_commands t b st)
unfolding parse_commands
parse_commands-Clean t none st = no_result-Clean t
parse_commands-Clean t (some b) st =
    if-Clean (not b.commands_enabled) (no_result t) (parse_flags b st parsed) (no_result-Clean t)
      (parse_flags-Clean b st parsed)
  where
    parsed : Parsed
    parsed = parse_forget (parse_memory (parse_project (parse_model (t, no_result t))))

only_flag-Clean : (k : String) → Clean (only_flag k)
unfolding only_flag
only_flag-Clean k h = refl

-- Nothing is left of a message that is handled as a command.
pub parse-handled :
    (t : String) (b : Option Config) (st : RuntimeStatus)
    → (parse t b st).handled ≡ true
    → (parse t b st).rest_text ≡ ""
unfolding parse
parse-handled t b st =
    if-Clean (matches stop_flag t) (only_flag "stop")
      (if matches jobs_flag t then only_flag "jobs" else parse_commands t b st)
      (only_flag-Clean "stop")
      (if-Clean (matches jobs_flag t) (only_flag "jobs") (parse_commands t b st)
        (only_flag-Clean "jobs") (parse_commands-Clean t b st))
