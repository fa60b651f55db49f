-- ===== src/Memory/Blank.antt =====
-- trimSpace of internal/memory/types.go.
use Prim.Native.Char.{Char, code}
use yzj_bot_bridge.Prelude.{ℕ, String, Bool, ◌||◌, nat_eq, if◌then◌else◌}

blank_code : ℕ → Bool
blank_code c = nat_eq c 32 || nat_eq c 9 || nat_eq c 10 || nat_eq c 13

trim_blank_left : String → String
unfolding blank_code
trim_blank_left String.[] = ""
trim_blank_left (String.◌∷◌ c s) =
    let rest = trim_blank_left s in if blank_code (code c) then rest else String.◌∷◌ c s

keep_blank : Char → String → String
unfolding blank_code
keep_blank c String.[] = if blank_code (code c) then "" else String.◌∷◌ c ""
keep_blank c (String.◌∷◌ d s) = String.◌∷◌ c (String.◌∷◌ d s)

trim_blank_right : String → String
unfolding keep_blank
trim_blank_right String.[] = ""
trim_blank_right (String.◌∷◌ c s) = keep_blank c (trim_blank_right s)

-- trimSpace of types.go, which knows four blanks
unfoldable pub trim_blank : String → String
unfolding trim_blank_left trim_blank_right
trim_blank s = trim_blank_right (trim_blank_left s)
