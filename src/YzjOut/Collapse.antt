-- ===== src/YzjOut/Collapse.antt =====
-- internal/yzjout/yzjout.go: collapseRepeatedReply. The source cuts the text by bytes; a cut that gives
-- equal parts of a UTF-8 text is between two characters, so the parts are counted in characters here.
use mathlib.Core.Path.{subst}
use native.Mathlib.Nat.{mul-suc}
use yzj_bot_bridge.Prelude.{
  ℕ, zero, suc, ◌*◌, ◌/◌, ◌<◌, String, ◌≡◌, refl, ◌∙◌, Bool, true, false, not, ◌&&◌, Option, none,
  some, arith, eq_refl, nat_eq, ◌==◌, if◌then◌else◌, concat, trim_space, rune_count, first_runes,
  rune_count-first_runes, rune_count-trim_space,
}

-- strings.Repeat
unfoldable pub repeat_text : ℕ → String → String
repeat_text zero s = ""
repeat_text (suc n) s = concat s (repeat_text n s)

-- The loop body for one k: what is left of a text that is k times one part.
unfoldable pub part_of : ℕ → String → Option String
unfolding repeat_text
part_of k t =
    let size = rune_count t / k in
    let part = first_runes size t in
    if nat_eq (size * k) (rune_count t) && not (trim_space part == "") && repeat_text k part == t
    then some (trim_space part)
    else none

-- The loop over k from 2 to 4.
unfoldable pub shorter : String → Option String
unfolding part_of
shorter t = elim (part_of 2 t) [
  | some p ↦ some p
  | none ↦ elim (part_of 3 t) [ some p ↦ some p | none ↦ part_of 4 t ]
]

-- The outer loop; a text shrinks in each round, so its length is fuel enough.
unfoldable pub collapse_on : ℕ → String → String
unfolding shorter
collapse_on zero t = t
collapse_on (suc fuel) t = elim (shorter t) [ none ↦ t | some p ↦ collapse_on fuel p ]

-- collapseRepeatedReply
unfoldable pub collapse_repeated_reply : String → String
unfolding collapse_on
collapse_repeated_reply s = collapse_on (rune_count (trim_space s)) (trim_space s)

pub when_some :
    (b : Bool) (q p : String) → (if b then some q else none) ≡ some p → (b ≡ true) × (q ≡ p)
when_some true q p e = (refl, ground (arith, e))
when_some false q p e = absurd cc

runes_pos : (s : String) → (s == "") ≡ false → 0 < rune_count s
unfolding rune_count
runes_pos String.[] h = absurd (not_eq h)
  where
    not_eq : ("" == "") ≡ false → ⊥
    not_eq h = ground (arith, eq_refl "")
runes_pos (String.◌∷◌ c s) h = omega arith

part_of-shrinks :
    (j : ℕ) (t p : String) → part_of (suc (suc j)) t ≡ some p → rune_count p < rune_count t
unfolding part_of
part_of-shrinks j t p e = subst (λ q. rune_count q < rune_count t) is.1 smaller
  where
    size : ℕ
    size = rune_count t / suc (suc j)

    part : String
    part = first_runes size t

    equal : Bool
    equal = repeat_text (suc (suc j)) part == t

    is :
        ((nat_eq (size * suc (suc j)) (rune_count t) && not (trim_space part == "") && equal)
          ≡ true)
        × (trim_space part ≡ p)
    is =
        when_some
          (nat_eq (size * suc (suc j)) (rune_count t) && not (trim_space part == "") && equal)
          (trim_space part) p e

    smaller : rune_count (trim_space part) < rune_count t
    smaller =
        let whole : size * suc (suc j) ≡ rune_count t = ground (arith, is.0) in
        let some_text : (trim_space part == "") ≡ false = ground (arith, is.0) in
        omega (
          arith,
          whole,
          mul-suc size (suc j),
          mul-suc size j,
          runes_pos (trim_space part) some_text,
          rune_count-trim_space part,
          rune_count-first_runes size t,
        )

pub shorter-shrinks : (t p : String) → shorter t ≡ some p → rune_count p < rune_count t
unfolding shorter
shorter-shrinks t p e = go (part_of 2 t) (part_of 3 t) (part_of 4 t) refl refl refl e
  where
    go :
        (a b c : Option String)
        → part_of 2 t ≡ a
        → part_of 3 t ≡ b
        → part_of 4 t ≡ c
        → (elim a as (λ o. Option String) [
          | some q ↦ some q
          | none ↦ elim b [ some q ↦ some q | none ↦ c ]
        ])
          ≡ some p
        → rune_count p < rune_count t
    go (some q) b c ea eb ec e = part_of-shrinks 0 t p (ea ∙ e)
    go none (some q) c ea eb ec e = part_of-shrinks 1 t p (eb ∙ e)
    go none none c ea eb ec e = part_of-shrinks 2 t p (ec ∙ e)
