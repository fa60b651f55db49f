-- ===== src/Json.antt =====
-- Values that encoding/json decodes into `any`. An object gives its member for each name, and null where
-- it has none: the program reads both alike.
use yzj_bot_bridge.Prelude.{
  ℕ, String, ◌≡◌, refl, inl, inr, Bool, arith, eq_iff, nat_eq, ◌==◌, if◌then◌else◌, Bool-cases,
}

pub data Json : Type 0 where
  null : Json
  bool : Bool → Json
  num : ℕ → Json
  text : String → Json
  arr : ℕ → (ℕ → Json) → Json
  obj : (String → Json) → Json

-- asStr of internal/sessions/sessions.go
unfoldable pub as_str : Json → String
as_str (text s) = s
as_str _ = ""

-- asInt64 of internal/sessions/sessions.go
unfoldable pub as_int64 : Json → ℕ
as_int64 (num n) = n
as_int64 _ = 0

-- What `omitempty` writes of a text and of a number.
unfoldable pub omit_text : String → Json
omit_text s = if s == "" then null else text s

unfoldable pub omit_num : ℕ → Json
omit_num n = if nat_eq n 0 then null else num n

pub as_str-omit_text : (s : String) → as_str (omit_text s) ≡ s
unfolding as_str omit_text
as_str-omit_text s = elim (Bool-cases (s == "")) [
  | inl blank ↦ rw (omit_text, blank) (ground (arith, eq_iff s ""))
  | inr some_text ↦ rw (omit_text, some_text) refl
]

pub as_int64-omit_num : (n : ℕ) → as_int64 (omit_num n) ≡ n
unfolding as_int64 omit_num
as_int64-omit_num n = elim (Bool-cases (nat_eq n 0)) [
  | inl none_left ↦ rw (omit_num, none_left) (ground arith)
  | inr some_left ↦ rw (omit_num, some_left) refl
]
