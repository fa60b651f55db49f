-- ===== src/LogBuf/Examples.antt =====
-- The theorems about the log ring at a ring of two lines.
use yzj_bot_bridge.Prelude.{String, ◌≡◌, refl, true, false, List, [], ◌∷◌, arith, length}
use yzj_bot_bridge.LogBuf.Bot.{Line, match_bot}
use yzj_bot_bridge.LogBuf.Window.{Entry, append_all, newest, Numbered, ring_history, since-history}
use yzj_bot_bridge.LogBuf.{Buffer, new_with_dir, since}

abbrev entry : String → Entry
entry text = record {
  now = record { stamp = "2026-01-01 00:00:00"; day = "2026-01-01" };
  files = record { mkdir = true; open_file = true; marshal = true };
  level = "info";
  bot = "dev";
  message = text;
}

abbrev three : List Entry
three = entry "a" ∷ entry "b" ∷ entry "c" ∷ []

abbrev reached : Buffer × List Line
reached = append_all (new_with_dir 2 "logs") three

ring_history_example :
    (reached.0.lines ≡ newest (new_with_dir 2 "logs").cap reached.1)
    × Numbered 0 reached.1
    × (reached.0.seq ≡ length three)
ring_history_example = ring_history 2 "logs" three

since-history_example :
    since (append_all reached.0 (entry "d" ∷ [])).0.lines reached.0.seq ""
    ≡ (append_all reached.0 (entry "d" ∷ [])).1
unfolding new_with_dir
since-history_example = since-history 2 "logs" three (entry "d" ∷ []) (omega arith)

abbrev line : String → String → Line
line bot message = record { seq = 1; time = ""; level = "info"; bot = bot; message = message }

filters :
    (match_bot (line "dev__g1" "x") "dev" ≡ true)
    × (match_bot (line "dev__g1" "x") "dev__g2" ≡ false)
    × (match_bot (line "" "[GUI] up") "gui" ≡ true)
unfolding match_bot
filters = (refl, refl, refl)
