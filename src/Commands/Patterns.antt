-- ===== src/Commands/Patterns.antt =====
-- The regular expressions of internal/commands/commands.go and internal/registry/registry.go, as
-- searches in a text. `\s` and `\b` are the ASCII ones of Go's regexp package, and `(?i)` folds the
-- letters that fold to an ASCII one.
use Prim.Native.Char.{Char, code}
use yzj_bot_bridge.Prelude.{
  ℕ, zero, suc, ◌-◌, String, ◌≡◌, refl, Bool, true, false, not, ◌&&◌, ◌||◌, Option, none, some,
  List, [], ◌∷◌, leb, nat_eq, ◌==◌, if◌then◌else◌, concat, equal_fold, fold_code, has_prefix,
  rune_count, first_runes, rest_runes,
}

-- A match that begins at some place: its group, and the text behind it.
pub record Match : Type 0 where
  pub group : String
  pub rest : String

-- A match in a text, with the text before it.
pub record Found : Type 0 where
  pub before : String
  pub group : String
  pub rest : String

-- A pattern: whether it matches at a place, given the character before the place and the text there.
abbrev pub Pattern : Type 0
Pattern = Option ℕ → String → Option Match

-- `\s`
unfoldable pub re_space : ℕ → Bool
re_space c = nat_eq c 9 || nat_eq c 10 || nat_eq c 12 || nat_eq c 13 || nat_eq c 32

-- A character that `\b` takes for a part of a word.
unfoldable pub word_char : ℕ → Bool
word_char c = leb 48 c && leb c 57 || leb 65 c && leb c 90 || nat_eq c 95 || leb 97 c && leb c 122

found_behind : Char → Option Found → Option Found
found_behind c none = none
found_behind c (some f) = some (record f { before = String.◌∷◌ c f.before })

-- The leftmost match in a text.
unfoldable pub find : Pattern → Option ℕ → String → Option Found
unfolding found_behind
find at prev String.[] = elim (at prev String.[]) [
  | none ↦ none
  | some m ↦ some (record { before = ""; group = m.group; rest = m.rest })
]
find at prev (String.◌∷◌ c s) =
    let further = found_behind c (find at (some (code c)) s) in
    elim (at prev (String.◌∷◌ c s)) [
      | none ↦ further
      | some m ↦ some (record { before = ""; group = m.group; rest = m.rest })
    ]

last_code : Option ℕ → String → Option ℕ
last_code prev String.[] = prev
last_code prev (String.◌∷◌ c s) = last_code (some (code c)) s

-- The character before the rest of a text.
prev_of : String → String → Option ℕ
unfolding last_code first_runes rune_count
prev_of s rest = last_code none (first_runes (rune_count s - rune_count rest) s)

-- FindAllStringSubmatch: the groups of the matches that follow one another; a match is not empty, so
-- that the number of characters is fuel enough.
unfoldable pub all_groups : ℕ → Pattern → Option ℕ → String → List String
unfolding find prev_of
all_groups zero at prev s = []
all_groups (suc n) at prev s = elim (find at prev s) [
  | none ↦ []
  | some f ↦ f.group ∷ all_groups n at (prev_of s f.rest) f.rest
]

unfoldable pub find_all : Pattern → String → List String
unfolding all_groups rune_count
find_all at s = all_groups (suc (rune_count s)) at none s

-- ReplaceAllString, of a text without `$`
unfoldable pub replace_on : ℕ → Pattern → String → Option ℕ → String → String
unfolding find prev_of concat
replace_on zero at by prev s = s
replace_on (suc n) at by prev s = elim (find at prev s) [
  | none ↦ s
  | some f ↦ concat f.before (concat by (replace_on n at by (prev_of s f.rest) f.rest))
]

unfoldable pub replace_all : Pattern → String → String → String
unfolding replace_on rune_count
replace_all at by s = replace_on (suc (rune_count s)) at by none s

-- MatchString
unfoldable pub matches : Pattern → String → Bool
unfolding find
matches at s = elim (find at none s) [ none ↦ false | some f ↦ true ]

-- The text up to the first character that a test holds of, and from there on.
unfoldable pub until : (ℕ → Bool) → String → String
until stop String.[] = ""
until stop (String.◌∷◌ c s) =
    let more = until stop s in if stop (code c) then "" else String.◌∷◌ c more

unfoldable pub from : (ℕ → Bool) → String → String
from stop String.[] = ""
from stop (String.◌∷◌ c s) =
    let more = from stop s in if stop (code c) then String.◌∷◌ c s else more

-- `\s*`
unfoldable pub skip_spaces : String → String
unfolding re_space
skip_spaces s = from (λ c. not (re_space c)) s

starts_blank : String → Bool
unfolding re_space
starts_blank String.[] = false
starts_blank (String.◌∷◌ c s) = re_space (code c)

-- `(?:--|/)`
dashes : String → Option String
unfolding has_prefix rest_runes
dashes s =
    if has_prefix s "--"
    then some (rest_runes 2 s)
    else (if has_prefix s "/" then some (rest_runes 1 s) else none)

-- A word in any case, with whether its last character in the text is a part of a word.
unfoldable pub fold_after : Bool → String → String → Option (Bool × String)
unfolding word_char fold_code
fold_after w String.[] s = some (w, s)
fold_after w (String.◌∷◌ n ns) String.[] = none
fold_after w (String.◌∷◌ n ns) (String.◌∷◌ c s) =
    let more = fold_after (word_char (code c)) ns s in
    if nat_eq (fold_code (code n)) (fold_code (code c)) then more else none

-- `(?:--|/)` and a word
named : String → String → Option String
unfolding dashes fold_after
named word s = elim (dashes s) [
  | none ↦ none
  | some r ↦ elim (fold_after false word r) [ none ↦ none | some m ↦ some (m.1) ]
]

fold_member : List String → String → Bool
unfolding equal_fold
fold_member [] w = false
fold_member (n ∷ ns) w = equal_fold n w || fold_member ns w

word_flag : List String → String → Option Match
unfolding dashes until from fold_member re_space rest_runes
word_flag words s = elim (dashes s) [
  | none ↦ none
  | some r ↦
      if fold_member words (until re_space r)
      then some (record { group = until re_space r; rest = rest_runes 1 (from re_space r) })
      else none
]

behind_blank : List String → String → Option Match
unfolding word_flag re_space
behind_blank words String.[] = none
behind_blank words (String.◌∷◌ c s) =
    let flag = word_flag words s in if re_space (code c) then flag else none

-- `(?i)(?:^|\s)(?:--|/)(words)(?:\s|$)`
unfoldable pub flag_pattern : List String → Pattern
unfolding word_flag behind_blank
flag_pattern words none s = elim (word_flag words s) [
  | none ↦ behind_blank words s
  | some m ↦ some m
]
flag_pattern words (some c) s = behind_blank words s

-- `(?i)(?:--|/)forget(?:\s|$)`
unfoldable pub forget_pattern : Pattern
unfolding named starts_blank rest_runes
forget_pattern prev s = elim (named "forget" s) [
  | none ↦ none
  | some r ↦
      if r == "" || starts_blank r
      then some (record { group = ""; rest = rest_runes 1 r })
      else none
]

-- `\s+(\S+)`
spaced_word : String → Option Match
unfolding starts_blank skip_spaces until from re_space
spaced_word r =
    let t = skip_spaces r in
    if starts_blank r && not (t == "")
    then some (record { group = until re_space t; rest = from re_space t })
    else none

-- `(?i)(?:--|/)model(?:\s+(\S+))`
unfoldable pub model_pattern : Pattern
unfolding named spaced_word
model_pattern prev s = elim (named "model" s) [ none ↦ none | some r ↦ spaced_word r ]

-- `(?i)(?:--|/)project(?:\s+(\S+))?`
unfoldable pub project_pattern : Pattern
unfolding named spaced_word
project_pattern prev s = elim (named "project" s) [
  | none ↦ none
  | some r ↦ elim (spaced_word r) [
    | none ↦ some (record { group = ""; rest = r })
    | some m ↦ some m
  ]
]

-- The first of some words that a text begins with.
one_of : List String → String → Option Match
unfolding fold_after first_runes rune_count
one_of [] t = none
one_of (w ∷ ws) t = elim (fold_after false w t) [
  | none ↦ one_of ws t
  | some m ↦ some (record { group = first_runes (rune_count w) t; rest = m.1 })
]

-- `(?i)(?:--|/)memory(?:\s+(off|on|show))?`
unfoldable pub memory_pattern : Pattern
unfolding named one_of starts_blank skip_spaces
memory_pattern prev s = elim (named "memory" s) [
  | none ↦ none
  | some r ↦
      let bare : Match = record { group = ""; rest = r } in
      let with_sub : Match = elim (one_of ("off" ∷ "on" ∷ "show" ∷ []) (skip_spaces r)) [
        | none ↦ bare
        | some m ↦ m
      ] in
      some (if starts_blank r then with_sub else bare)
]

next_is_word : String → Bool
unfolding word_char
next_is_word String.[] = false
next_is_word (String.◌∷◌ c s) = word_char (code c)

-- `\b`, where a word character comes before it or not
unfoldable pub at_boundary : Bool → String → Bool
unfolding next_is_word
at_boundary true s = not (next_is_word s)
at_boundary false s = next_is_word s

-- `(?i)@name\b\s*`
unfoldable pub name_pattern : String → Pattern
unfolding fold_after at_boundary skip_spaces
name_pattern name prev String.[] = none
name_pattern name prev (String.◌∷◌ c s) =
    let tail : Option Match = elim (fold_after false name s) [
      | none ↦ none
      | some m ↦
          if at_boundary (m.0) (m.1)
          then some (record { group = ""; rest = skip_spaces (m.1) })
          else none
    ] in
    if nat_eq (code c) b'@' then tail else none

line_start : Option ℕ → Bool
line_start none = true
line_start (some c) = nat_eq c 10

-- `(?m)^@\S+\s*`
unfoldable pub line_pattern : Pattern
unfolding line_start until from skip_spaces re_space
line_pattern prev String.[] = none
line_pattern prev (String.◌∷◌ c s) =
    if line_start prev && nat_eq (code c) b'@' && not (until re_space s == "")
    then some (record { group = ""; rest = skip_spaces (from re_space s) })
    else none

mention_end : ℕ → Bool
unfolding re_space
mention_end c = re_space c || nat_eq c b'@'

-- `@([^\s@]+)`
unfoldable pub mention_pattern : Pattern
unfolding until from mention_end
mention_pattern prev String.[] = none
mention_pattern prev (String.◌∷◌ c s) =
    if nat_eq (code c) b'@' && not (until mention_end s == "")
    then some (record { group = until mention_end s; rest = from mention_end s })
    else none

-- A space that ends one flag does not begin the next: of two flags next to each other the second is
-- not found.
adjacent_flags : find_all (flag_pattern ("clear" ∷ "help" ∷ [])) "--clear --help" ≡ "clear" ∷ []
unfolding find_all flag_pattern
adjacent_flags = refl

a_model : find_all model_pattern "use --model x1 --model  x2" ≡ "x1" ∷ "x2" ∷ []
unfolding find_all model_pattern
a_model = refl

a_path : find_all memory_pattern "see /var/memory one" ≡ "on" ∷ []
unfolding find_all memory_pattern from
a_path = refl
