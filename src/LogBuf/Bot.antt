-- ===== src/LogBuf/Bot.antt =====
-- internal/logbuf/logbuf.go: a line, and whose it is.
use Prim.Native.Char.{code}
use yzj_bot_bridge.Prelude.{
  ℕ, String, ◌≡◌, refl, Bool, true, ◌||◌, none, some, List, [], ◌∷◌, nat_eq, ◌==◌, if◌then◌else◌,
  concat, trim_space, has_prefix, behind, contains_text,
}

pub record Line : Type 0 where
  pub seq : ℕ
  pub time : String
  pub level : String
  pub bot : String
  pub message : String

-- rest[:strings.IndexAny(rest, " ]:\n\t")], or the whole text.
cut_any : String → String
cut_any String.[] = String.[]
cut_any (String.◌∷◌ c s) =
    let n = code c in
    let rest = cut_any s in
    if nat_eq n 32 || nat_eq n 93 || nat_eq n 58 || nat_eq n 10 || nat_eq n 9
    then String.[]
    else String.◌∷◌ c rest

-- The loop over the prefixes.
guess_among : List String → String → String
unfolding behind cut_any trim_space
guess_among [] message = ""
guess_among (prefix ∷ prefixes) message =
    let others = guess_among prefixes message in
    elim (behind prefix message) [ none ↦ others | some rest ↦ trim_space (cut_any rest) ]

-- guessBot
unfoldable pub guess_bot : String → String
unfolding guess_among
guess_bot message = guess_among ("bot=" ∷ "[cursor:" ∷ "[claude:" ∷ []) message

-- matchBot
unfoldable pub match_bot : Line → String → Bool
unfolding contains_text has_prefix guess_bot concat
match_bot l bot_filter =
    let msg_bot = if l.bot == "" then guess_bot l.message else l.bot in
    if bot_filter == ""
    then true
    else if contains_text bot_filter "__"
    then msg_bot == bot_filter
    else if bot_filter == "gui"
    then msg_bot == "gui" || has_prefix l.message "[GUI]"
    else msg_bot == bot_filter || has_prefix msg_bot (concat bot_filter "__")

guesses :
    (guess_bot "run bot=dev__g1: ok" ≡ "dev__g1")
    × (guess_bot "[claude:qa] hi" ≡ "qa")
    × (guess_bot "nothing" ≡ "")
unfolding guess_bot
guesses = (refl, refl, refl)
