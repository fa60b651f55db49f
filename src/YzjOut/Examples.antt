-- ===== src/YzjOut/Examples.antt =====
-- The theorems about the messages to the robot at concrete texts and servers.
use yzj_bot_bridge.Prelude.{
  ℕ, ◌≤◌, String, ◌≡◌, refl, true, none, List, [], ◌∷◌, arith, nat_eq, if◌then◌else◌, length, All,
  concat, trim_space, rune_count, first_runes,
}
use yzj_bot_bridge.YzjOut.Send.{Attempt, no_answer, answers}
use yzj_bot_bridge.YzjOut.Roots.{Rounds, collapse_repeated_reply-Rounds}
use yzj_bot_bridge.YzjOut.Reflow.{suffix, at_least_one, reflow_to_max, reflow_to_max_bounds}
use yzj_bot_bridge.YzjOut.Collapse.{collapse_repeated_reply}
use yzj_bot_bridge.YzjOut.Replies.{format_interrupt_reply}

abbrev show : ℕ → String
show n = "500"

-- The first try gets no answer, the second gets through.
abbrev server : ℕ → Attempt
server i = if nat_eq i 0 then no_answer "timeout" else answers 200 none

abbrev chunks : List String
chunks = "one" ∷ ("two" ∷ ("three" ∷ []))

suffix-short : rune_count suffix ≤ 20
unfolding rune_count
suffix-short = omega arith

reflow_to_max_bounds_example :
    (length (reflow_to_max chunks 20 2) ≤ at_least_one 2)
    × All (λ c. rune_count c ≤ 20) (reflow_to_max chunks 20 2)
reflow_to_max_bounds_example = reflow_to_max_bounds chunks 20 2 suffix-short

collapse_repeated_reply-Rounds_example :
    Rounds (trim_space "hahahaha") (collapse_repeated_reply "hahahaha")
collapse_repeated_reply-Rounds_example = collapse_repeated_reply-Rounds "hahahaha"

is_ha : collapse_repeated_reply "hahahaha" ≡ "ha"
unfolding collapse_repeated_reply trim_space rune_count first_runes concat
is_ha = refl

interrupted : format_interrupt_reply " " "" "Ann" true ≡ "@Ann 任务已中断"
unfolding format_interrupt_reply concat trim_space
interrupted = refl
