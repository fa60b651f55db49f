-- ===== src/Prelude/Text.antt =====
-- The parts of Go's `strings` package that the program uses, on texts as lists of characters (the
-- program's texts are UTF-8, and a character is a Unicode scalar value).
use Prim.Native.Nat.{ℕ, zero, suc, ◌+◌, ◌-◌, ◌≤◌}
use native.Mathlib.Omega.{arith}
use Prim.Native.Char.{Char, code}
use Prim.Native.String.{String}
use mathlib.Core.Bool.{Bool, true, false, ◌&&◌, ◌||◌}
use mathlib.Core.Path.{◌≡◌, refl}
use mathlib.Core.Option.{Option, none, some}
use mathlib.Core.Logic.{inl, inr}
use yzj_bot_bridge.Prelude.Tests.{Bool-cases, leb, nat_eq, if◌then◌else◌, ◌==◌}

-- `s + t`
unfoldable pub concat : String → String → String
concat String.[] t = t
concat (String.◌∷◌ c s) t = String.◌∷◌ c (concat s t)

-- unicode.IsSpace
is_space : ℕ → Bool
is_space c =
    leb 9 c && leb c 13
    || nat_eq c 32
    || nat_eq c 133
    || nat_eq c 160
    || nat_eq c 5760
    || leb 8192 c && leb c 8202
    || nat_eq c 8232
    || nat_eq c 8233
    || nat_eq c 8239
    || nat_eq c 8287
    || nat_eq c 12288

trim_left : String → String
trim_left String.[] = String.[]
trim_left (String.◌∷◌ c s) =
    let rest = trim_left s in if is_space (code c) then rest else String.◌∷◌ c s

-- A character kept before a trimmed rest: a blank one only if something follows it.
keep_char : Char → String → String
keep_char c String.[] = if is_space (code c) then String.[] else String.◌∷◌ c String.[]
keep_char c (String.◌∷◌ d s) = String.◌∷◌ c (String.◌∷◌ d s)

trim_right : String → String
unfolding keep_char
trim_right String.[] = String.[]
trim_right (String.◌∷◌ c s) = keep_char c (trim_right s)

-- strings.TrimSpace
unfoldable pub trim_space : String → String
unfolding trim_left trim_right is_space
trim_space s = trim_right (trim_left s)

-- The character at a place of a text, or the given one past its end.
char_at_or : Char → String → ℕ → Char
char_at_or d String.[] n = d
char_at_or d (String.◌∷◌ c s) zero = c
char_at_or d (String.◌∷◌ c s) (suc n) = char_at_or d s n

-- unicode.ToLower on the characters whose lower case is an ASCII letter: A to Z, the Kelvin sign
-- and the dotted capital I. The others stay as they are.
lower_char : Char → Char
unfolding char_at_or
lower_char c =
    let n = code c in
    if leb 65 n && leb n 90
    then char_at_or c "abcdefghijklmnopqrstuvwxyz" (n - 65)
    else if nat_eq n 8490
    then "k"
    else if nat_eq n 304
    then "i"
    else c

-- strings.ToLower
unfoldable pub to_lower : String → String
unfolding lower_char
to_lower String.[] = String.[]
to_lower (String.◌∷◌ c s) = String.◌∷◌ (lower_char c) (to_lower s)

-- The simple folding of unicode.SimpleFold on the letters that fold to an ASCII letter: A to Z,
-- the Kelvin sign and the long s.
unfoldable pub fold_code : ℕ → ℕ
fold_code n =
    if leb 65 n && leb n 90
    then n + 32
    else if nat_eq n 8490
    then b'k'
    else if nat_eq n 383
    then b's'
    else n

-- strings.EqualFold
unfoldable pub equal_fold : String → String → Bool
unfolding fold_code
equal_fold String.[] String.[] = true
equal_fold String.[] (String.◌∷◌ d t) = false
equal_fold (String.◌∷◌ c s) String.[] = false
equal_fold (String.◌∷◌ c s) (String.◌∷◌ d t) =
    nat_eq (fold_code (code c)) (fold_code (code d)) && equal_fold s t

-- strings.HasPrefix
unfoldable pub has_prefix : String → String → Bool
has_prefix s String.[] = true
has_prefix String.[] (String.◌∷◌ c t) = false
has_prefix (String.◌∷◌ d s) (String.◌∷◌ c t) = nat_eq (code d) (code c) && has_prefix s t

-- The rest of a text behind a prefix that it has.
after_prefix : String → String → String
after_prefix s String.[] = s
after_prefix String.[] (String.◌∷◌ c p) = String.[]
after_prefix (String.◌∷◌ d s) (String.◌∷◌ c p) = after_prefix s p

-- strings.TrimPrefix
unfoldable pub trim_prefix : String → String → String
unfolding after_prefix has_prefix
trim_prefix s p = if has_prefix s p then after_prefix s p else s

-- message[strings.Index(message, prefix)+len(prefix):], where the prefix occurs.
unfoldable pub behind : String → String → Option String
unfolding after_prefix has_prefix
behind prefix String.[] = if prefix == "" then some "" else none
behind prefix (String.◌∷◌ c s) =
    let rest = behind prefix s in
    if has_prefix (String.◌∷◌ c s) prefix then some (after_prefix (String.◌∷◌ c s) prefix) else rest

-- strings.Contains
unfoldable pub contains_text : String → String → Bool
unfolding behind
contains_text s part = elim (behind part s) [ none ↦ false | some rest ↦ true ]

trims : trim_space " a b\n" ≡ "a b"
unfolding trim_space
trims = refl

lowers : to_lower "Claude_CODE" ≡ "claude_code"
unfolding to_lower
lowers = refl

folds : equal_fold "Shared" "sHARED" ≡ true
unfolding equal_fold
folds = refl

-- strings.Join(strings.Fields(s), " "): the words so far have started, and a gap came after them.
words : Bool → Bool → String → String
unfolding is_space
words started gap String.[] = String.[]
words started gap (String.◌∷◌ c s) =
    let skip = words started started s in
    let word = String.◌∷◌ c (words true false s) in
    if is_space (code c) then skip else (if gap then concat " " word else word)

unfoldable pub join_fields : String → String
unfolding words
join_fields s = words false false s

-- utf8.RuneCountInString
unfoldable pub rune_count : String → ℕ
rune_count String.[] = 0
rune_count (String.◌∷◌ c s) = suc (rune_count s)

-- The first runes of a text.
unfoldable pub first_runes : ℕ → String → String
first_runes zero s = String.[]
first_runes (suc n) String.[] = String.[]
first_runes (suc n) (String.◌∷◌ c s) = String.◌∷◌ c (first_runes n s)

-- The rest of a text behind its first characters.
unfoldable pub rest_runes : ℕ → String → String
rest_runes zero s = s
rest_runes (suc n) String.[] = String.[]
rest_runes (suc n) (String.◌∷◌ c s) = rest_runes n s

pub rune_count-first_runes : (n : ℕ) (s : String) → rune_count (first_runes n s) ≤ n
unfolding rune_count first_runes
rune_count-first_runes zero s = omega arith
rune_count-first_runes (suc n) String.[] = omega arith
rune_count-first_runes (suc n) (String.◌∷◌ c s) = omega (arith, rune_count-first_runes n s)

pub rune_count-concat : (s t : String) → rune_count (concat s t) ≡ rune_count s + rune_count t
unfolding rune_count concat
rune_count-concat String.[] t = omega arith
rune_count-concat (String.◌∷◌ c s) t = omega (arith, rune_count-concat s t)

rune_count-trim_left : (s : String) → rune_count (trim_left s) ≤ rune_count s
unfolding rune_count trim_left
rune_count-trim_left String.[] = omega arith
rune_count-trim_left (String.◌∷◌ c s) = ground (arith, rune_count-trim_left s)

rune_count-keep_char : (c : Char) (s : String) → rune_count (keep_char c s) ≤ suc (rune_count s)
unfolding rune_count keep_char
rune_count-keep_char c String.[] = elim (Bool-cases (is_space (code c))) [
  | inl blank ↦ rw blank (omega arith)
  | inr dark ↦ rw dark (omega arith)
]
rune_count-keep_char c (String.◌∷◌ d s) = omega arith

rune_count-trim_right : (s : String) → rune_count (trim_right s) ≤ rune_count s
unfolding rune_count trim_right
rune_count-trim_right String.[] = omega arith
rune_count-trim_right (String.◌∷◌ c s) =
    omega (arith, rune_count-keep_char c (trim_right s), rune_count-trim_right s)

pub rune_count-trim_space : (s : String) → rune_count (trim_space s) ≤ rune_count s
unfolding trim_space
rune_count-trim_space s = omega (arith, rune_count-trim_right (trim_left s), rune_count-trim_left s)
