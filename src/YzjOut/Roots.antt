-- ===== src/YzjOut/Roots.antt =====
-- What collapseRepeatedReply makes of a text that repeats itself.
use native.Mathlib.Nat.{mul-div_cancel, mul-suc}
use mathlib.Core.Path.{subst}
use yzj_bot_bridge.Prelude.{
  ℕ, zero, suc, ◌*◌, ◌/◌, ◌≤◌, String, ◌≡◌, refl, sym, ap, ◌∙◌, ◌≢◌, Bool, true, not, ◌&&◌, Option,
  none, some, arith, eq_iff, nat_eq, ◌==◌, ==_of_ne, ==_of_eq, concat, trim_space, rune_count,
  first_runes, rune_count-concat,
}
use yzj_bot_bridge.YzjOut.Collapse.{
  repeat_text, part_of, shorter, collapse_on, collapse_repeated_reply, when_some, shorter-shrinks,
}

-- The text is not so many times one part that is more than blanks.
pub NoParts : ℕ → String → Type 0
NoParts k t = (part : String) → trim_space part ≢ "" → t ≢ repeat_text k part

-- The rounds from a text to the one that is returned: a text of two, three or four equal parts, the
-- fewest that it has, is its part without the blanks around it; one that has no such parts is left.
pub data Rounds : String → String → Type 0 where
  left : (t : String) → NoParts 2 t → NoParts 3 t → NoParts 4 t → Rounds t t
  halves :
      (t part r : String)
      → trim_space part ≢ ""
      → t ≡ repeat_text 2 part
      → Rounds (trim_space part) r
      → Rounds t r
  thirds :
      (t part r : String)
      → NoParts 2 t
      → trim_space part ≢ ""
      → t ≡ repeat_text 3 part
      → Rounds (trim_space part) r
      → Rounds t r
  quarters :
      (t part r : String)
      → NoParts 2 t
      → NoParts 3 t
      → trim_space part ≢ ""
      → t ≡ repeat_text 4 part
      → Rounds (trim_space part) r
      → Rounds t r

rune_count-repeat_text : (k : ℕ) (s : String) → rune_count (repeat_text k s) ≡ rune_count s * k
unfolding repeat_text rune_count
rune_count-repeat_text zero s = omega arith
rune_count-repeat_text (suc k) s = omega (
  arith,
  rune_count-concat s (repeat_text k s),
  rune_count-repeat_text k s,
  mul-suc (rune_count s) k,
)

first_runes-concat : (a b : String) → first_runes (rune_count a) (concat a b) ≡ a
unfolding first_runes rune_count concat
first_runes-concat String.[] b = refl
first_runes-concat (String.◌∷◌ c a) b = ap (λ x. String.◌∷◌ c x) (first_runes-concat a b)

found_part :
    (k : ℕ) (t part : String)
    → t ≡ repeat_text k part
    → rune_count t / k ≡ rune_count part
    → rune_count t ≡ rune_count part * k
    → first_runes (rune_count part) t ≡ part
    → trim_space part ≢ ""
    → part_of k t ≡ some (trim_space part)
unfolding part_of
found_part k t part is size whole cut some_text =
    rw
      (
        part_of,
        size,
        cut,
        same_count,
        ==_of_ne (trim_space part) "" some_text,
        ==_of_eq (repeat_text k part) t (sym is),
      )
      refl
  where
    same_count : nat_eq (rune_count part * k) (rune_count t) ≡ true
    same_count = ground (arith, whole)

-- A text of equal parts is found to be one.
part_of-repeat_text :
    (j : ℕ) (t part : String)
    → trim_space part ≢ ""
    → t ≡ repeat_text (suc j) part
    → part_of (suc j) t ≡ some (trim_space part)
unfolding repeat_text
part_of-repeat_text j t part some_text is =
    found_part (suc j) t part is
      (ap (λ n. n / suc j) count ∙ mul-div_cancel (rune_count part) (omega arith)) count
      (ap (first_runes (rune_count part)) is ∙ first_runes-concat part (repeat_text j part))
      some_text
  where
    count : rune_count t ≡ rune_count part * suc j
    count = ap rune_count is ∙ rune_count-repeat_text (suc j) part

part_of-NoParts : (j : ℕ) (t : String) → part_of (suc j) t ≡ none → NoParts (suc j) t
unfolding NoParts
part_of-NoParts j t e part some_text is =
    some_none (sym (part_of-repeat_text j t part some_text is) ∙ e)
  where
    some_none : {x : String} → some x ≡ none → ⊥
    some_none h = cc

-- What is found is one of equal parts.
part_of-found :
    (k : ℕ) (t p : String)
    → part_of k t ≡ some p
    → (part : String) × (trim_space part ≢ "") × (t ≡ repeat_text k part) × (trim_space part ≡ p)
unfolding part_of
part_of-found k t p e = (part, some_text, same, is.1)
  where
    size : ℕ
    size = rune_count t / k

    part : String
    part = first_runes size t

    equal : Bool
    equal = repeat_text k part == t

    is :
        ((nat_eq (size * k) (rune_count t) && not (trim_space part == "") && equal) ≡ true)
        × (trim_space part ≡ p)
    is =
        when_some (nat_eq (size * k) (rune_count t) && not (trim_space part == "") && equal)
          (trim_space part) p e

    some_text : trim_space part ≢ ""
    some_text = ground (arith, is.0, eq_iff (trim_space part) "")

    same : t ≡ repeat_text k part
    same = ground (arith, is.0, eq_iff (repeat_text k part) t)

-- A step of the loop.
round :
    (t r : String)
    → ((p : String) → shorter t ≡ some p → Rounds p r)
    → (shorter t ≡ none → t ≡ r)
    → Rounds t r
unfolding shorter
round t r on stop = go (part_of 2 t) (part_of 3 t) (part_of 4 t) refl refl refl
  where
    found : Option String → Option String → Option String → Option String
    found a b c = elim a [ some p ↦ some p | none ↦ elim b [ some p ↦ some p | none ↦ c ] ]

    is :
        (a b c : Option String)
        → part_of 2 t ≡ a
        → part_of 3 t ≡ b
        → part_of 4 t ≡ c
        → shorter t ≡ found a b c
    is a b c ea eb ec =
        ap (λ x. found x (part_of 3 t) (part_of 4 t)) ea
        ∙ ap (λ x. found a x (part_of 4 t)) eb
        ∙ ap (found a b) ec

    go : (a b c : Option String) → part_of 2 t ≡ a → part_of 3 t ≡ b → part_of 4 t ≡ c → Rounds t r
    go (some p) b c ea eb ec =
        let (part, some_text, same, e) = part_of-found 2 t p ea in
        halves t part r some_text same
          (subst (λ x. Rounds x r) (sym e) (on p (is (some p) b c ea eb ec)))
    go none (some p) c ea eb ec =
        let (part, some_text, same, e) = part_of-found 3 t p eb in
        thirds t part r (part_of-NoParts 1 t ea) some_text same
          (subst (λ x. Rounds x r) (sym e) (on p (is none (some p) c ea eb ec)))
    go none none (some p) ea eb ec =
        let (part, some_text, same, e) = part_of-found 4 t p ec in
        quarters t part r (part_of-NoParts 1 t ea) (part_of-NoParts 2 t eb) some_text same
          (subst (λ x. Rounds x r) (sym e) (on p (is none none (some p) ea eb ec)))
    go none none none ea eb ec =
        subst (Rounds t) (stop (is none none none ea eb ec))
          (left t (part_of-NoParts 1 t ea) (part_of-NoParts 2 t eb) (part_of-NoParts 3 t ec))

collapse_on-Rounds : (fuel : ℕ) (t : String) → rune_count t ≤ fuel → Rounds t (collapse_on fuel t)
unfolding collapse_on
collapse_on-Rounds zero t h =
    round t t (λ p e. absurd (omega (arith, shorter-shrinks t p e))) (λ e. refl)
collapse_on-Rounds (suc fuel) t h =
    round t (collapse_on (suc fuel) t)
      (λ p e.
        subst (Rounds p) (sym (further p e))
          (collapse_on-Rounds fuel p (omega (arith, shorter-shrinks t p e))))
      (λ e. rw (collapse_on, e) refl)
  where
    further : (p : String) → shorter t ≡ some p → collapse_on (suc fuel) t ≡ collapse_on fuel p
    further p e = rw (collapse_on, e) refl

-- collapseRepeatedReply returns the root of the trimmed text: as long as the text is two, three or four
-- times one part that is more than blanks, it goes on with that part, trimmed and for the fewest
-- parts that there are, and it returns the text that has no such parts.
pub collapse_repeated_reply-Rounds :
    (s : String) → Rounds (trim_space s) (collapse_repeated_reply s)
unfolding collapse_repeated_reply
collapse_repeated_reply-Rounds s =
    collapse_on-Rounds (rune_count (trim_space s)) (trim_space s) (omega arith)
