-- ===== src/YzjOut/Reflow.antt =====
-- internal/yzjout/yzjout.go: reflowToMax, which cuts a text into a bounded number of messages.
use mathlib.Core.Path.{subst}
use native.Mathlib.Nat.{suc-mul, mul_comm, mod-add-div', mod-lt}
use yzj_bot_bridge.Prelude.{
  ℕ, zero, suc, ◌+◌, ◌-◌, ◌*◌, ◌/◌, ◌≤◌, ◌<◌, String, ◌≡◌, refl, sym, ap, ◌∙◌, inl, inr, List, [],
  ◌∷◌, arith, ltb, nat_eq, if◌then◌else◌, Bool-cases, le-not_ltb, length, take, All, concat,
  rune_count, first_runes, rest_runes, rune_count-first_runes, rune_count-concat,
}

-- strings.Join with a blank line.
unfoldable pub join_paragraphs : List String → String
join_paragraphs [] = ""
join_paragraphs (c ∷ []) = c
join_paragraphs (c ∷ (d ∷ ds)) = concat c (concat "\n\n" (join_paragraphs (d ∷ ds)))

-- The loop that cuts; `left` is the number of messages that there is still room for.
unfoldable pub cut_chunks : ℕ → ℕ → String → List String
cut_chunks zero take s = []
cut_chunks (suc left) take s =
    let rest = cut_chunks left take (rest_runes take s) in
    if nat_eq (rune_count s) 0 then [] else first_runes take s ∷ rest

abbrev pub suffix : String
suffix = "\n\n…（内容过长，已截断）"

-- The last message ends in the mark of the cut.
unfoldable pub mark_last : ℕ → List String → List String
mark_last limit [] = []
mark_last limit (c ∷ []) = concat (first_runes (limit - rune_count suffix) c) suffix ∷ []
mark_last limit (c ∷ (d ∷ ds)) = c ∷ mark_last limit (d ∷ ds)

abbrev pub at_least_one : ℕ → ℕ
at_least_one n = if ltb n 1 then 1 else n

abbrev pub at_most : ℕ → ℕ → ℕ
at_most bound n = if ltb bound n then bound else n

-- The size of a message: the text in equal parts, the limit at most.
abbrev pub take_of : ℕ → ℕ → String → ℕ
take_of limit max r = at_most limit ((rune_count r + max - 1) / max)

reflow_joined : ℕ → ℕ → String → List String
unfolding cut_chunks mark_last
reflow_joined limit max joined =
    let kept = first_runes (at_least_one (limit * max - rune_count suffix)) joined in
    if ltb (limit * max) (rune_count joined)
    then mark_last limit (cut_chunks max (take_of limit max kept) kept)
    else cut_chunks max (take_of limit max joined) joined

-- reflowToMax
unfoldable pub reflow_to_max : List String → ℕ → ℕ → List String
unfolding join_paragraphs reflow_joined
reflow_to_max chunks limit max = reflow_joined limit (at_least_one max) (join_paragraphs chunks)

length-cut_chunks : (left take : ℕ) (s : String) → length (cut_chunks left take s) ≤ left
unfolding cut_chunks
length-cut_chunks zero take s = omega arith
length-cut_chunks (suc left) take s =
    ground (arith, length-cut_chunks left take (rest_runes take s))

Within-cut_chunks :
    (left take : ℕ) (s : String) → All (λ c. rune_count c ≤ take) (cut_chunks left take s)
unfolding cut_chunks
Within-cut_chunks zero take s = tt
Within-cut_chunks (suc left) take s = elim (Bool-cases (nat_eq (rune_count s) 0)) [
  | inl done ↦ rw done tt
  | inr more ↦
      rw more (rune_count-first_runes take s, Within-cut_chunks left take (rest_runes take s))
]

unfoldable pub concat_all : List String → String
concat_all [] = ""
concat_all (c ∷ cs) = concat c (concat_all cs)

first-rest : (n : ℕ) (s : String) → concat (first_runes n s) (rest_runes n s) ≡ s
unfolding concat first_runes rest_runes
first-rest zero s = refl
first-rest (suc n) String.[] = refl
first-rest (suc n) (String.◌∷◌ c s) = ap (λ u. String.◌∷◌ c u) (first-rest n s)

rune_count-rest_runes : (n : ℕ) (s : String) → rune_count (rest_runes n s) ≡ rune_count s - n
unfolding rune_count rest_runes
rune_count-rest_runes zero s = omega arith
rune_count-rest_runes (suc n) String.[] = omega arith
rune_count-rest_runes (suc n) (String.◌∷◌ c s) = omega (arith, rune_count-rest_runes n s)

no_runes : (s : String) → rune_count s ≡ 0 → "" ≡ s
unfolding rune_count
no_runes String.[] h = refl
no_runes (String.◌∷◌ c s) h = absurd (omega arith)

-- With room for the whole text, the messages are the text in parts.
cut_chunks-whole :
    (left take : ℕ) (s : String)
    → rune_count s ≤ left * take
    → concat_all (cut_chunks left take s) ≡ s
unfolding cut_chunks concat_all
cut_chunks-whole zero take s h = no_runes s (omega arith)
cut_chunks-whole (suc left) take s h = elim (Bool-cases (nat_eq (rune_count s) 0)) [
  | inl done ↦ rw done (no_runes s (ground arith))
  | inr more ↦ rw more (
      ap (concat (first_runes take s)) (cut_chunks-whole left take (rest_runes take s) room)
      ∙ first-rest take s)
]
  where
    room : rune_count (rest_runes take s) ≤ left * take
    room = omega (arith, rune_count-rest_runes take s, suc-mul left take)

mark_last_lem :
    (limit : ℕ) (cs : List String)
    → rune_count suffix ≤ limit
    → All (λ c. rune_count c ≤ limit) cs
    → (length (mark_last limit cs) ≡ length cs)
      × All (λ c. rune_count c ≤ limit) (mark_last limit cs)
unfolding mark_last
mark_last_lem limit [] h a = (refl, tt)
mark_last_lem limit (c ∷ []) h a = (
  refl,
  (
    omega (
      arith,
      rune_count-concat (first_runes (limit - rune_count suffix) c) suffix,
      rune_count-first_runes (limit - rune_count suffix) c,
    ),
    tt,
  ),
)
mark_last_lem limit (c ∷ (d ∷ ds)) h a =
    let (len, rest) = mark_last_lem limit (d ∷ ds) h a.1 in (ap suc len, (a.0, rest))

All-weaken :
    (take limit : ℕ) (cs : List String)
    → take ≤ limit
    → All (λ c. rune_count c ≤ take) cs
    → All (λ c. rune_count c ≤ limit) cs
All-weaken take limit [] h a = tt
All-weaken take limit (c ∷ cs) h a = (omega (arith, a.0), All-weaken take limit cs h a.1)

cut_lem :
    (limit max : ℕ) (s : String)
    → (length (cut_chunks max (take_of limit max s) s) ≤ max)
      × All (λ c. rune_count c ≤ limit) (cut_chunks max (take_of limit max s) s)
cut_lem limit max s = (
  length-cut_chunks max (take_of limit max s) s,
  All-weaken (take_of limit max s) limit (cut_chunks max (take_of limit max s) s) (ground arith)
      (Within-cut_chunks max (take_of limit max s) s),
)

-- reflowToMax gives `max` messages at most (one, for a `max` below 1), and none is longer than the
-- limit, if the limit has room for the mark of the cut.
pub reflow_to_max_bounds :
    (chunks : List String) (limit max : ℕ)
    → rune_count suffix ≤ limit
    → (length (reflow_to_max chunks limit max) ≤ at_least_one max)
      × All (λ c. rune_count c ≤ limit) (reflow_to_max chunks limit max)
unfolding reflow_to_max reflow_joined
reflow_to_max_bounds chunks limit max h =
    elim (Bool-cases (ltb (limit * at_least_one max) (rune_count (join_paragraphs chunks)))) [
      | inl over ↦
          rw (reflow_to_max, reflow_joined, over)
            (subst (λ n. n ≤ at_least_one max) (sym marked.0) cut.0, marked.1)
      | inr fits ↦
          rw (reflow_to_max, reflow_joined, fits)
            (cut_lem limit (at_least_one max) (join_paragraphs chunks))
    ]
  where
    kept : String
    kept =
        first_runes (at_least_one (limit * at_least_one max - rune_count suffix))
          (join_paragraphs chunks)

    pieces : List String
    pieces = cut_chunks (at_least_one max) (take_of limit (at_least_one max) kept) kept

    cut : (length pieces ≤ at_least_one max) × All (λ c. rune_count c ≤ limit) pieces
    cut = cut_lem limit (at_least_one max) kept

    marked :
        (length (mark_last limit pieces) ≡ length pieces)
        × All (λ c. rune_count c ≤ limit) (mark_last limit pieces)
    marked = mark_last_lem limit pieces h cut.1

-- The equal parts reach the end of the text.
parts_reach : (n m : ℕ) → 0 < m → n ≤ (n + m - 1) / m * m
parts_reach n m h = omega (arith, mod-add-div' (n + m - 1) m, mod-lt (n + m - 1) h)

-- Chunks whose joined text fits in `max` messages are reflowed without a loss: the messages, one
-- behind the other, are the joined text.
reflow_to_max_whole :
    (chunks : List String) (limit max : ℕ)
    → rune_count (join_paragraphs chunks) ≤ limit * at_least_one max
    → concat_all (reflow_to_max chunks limit max) ≡ join_paragraphs chunks
unfolding reflow_to_max reflow_joined
reflow_to_max_whole chunks limit max h =
    rw (reflow_to_max, reflow_joined, le-not_ltb _ _ h)
      (cut_chunks-whole (at_least_one max) (take_of limit (at_least_one max) joined) joined room)
  where
    joined : String
    joined = join_paragraphs chunks

    m : ℕ
    m = at_least_one max

    room : rune_count joined ≤ m * take_of limit m joined
    room = elim (Bool-cases (ltb limit ((rune_count joined + m - 1) / m))) [
      | inl capped ↦ rw capped (omega (arith, h, mul_comm m limit))
      | inr even ↦ rw even (
          omega (
            arith,
            parts_reach (rune_count joined) m (ground arith),
            mul_comm m ((rune_count joined + m - 1) / m),
          ))
    ]
