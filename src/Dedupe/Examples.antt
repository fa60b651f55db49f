-- ===== src/Dedupe/Examples.antt =====
-- The theorems about the store of seen keys at concrete stores.
use yzj_bot_bridge.Prelude.{
  ℕ, zero, suc, String, ◌≡◌, refl, ap, true, false, List, [], ◌∷◌, arith, eq_iff, length,
}
use yzj_bot_bridge.Dedupe.{new, max_seen, contains, already_seen}
use yzj_bot_bridge.Dedupe.Window.{answers, repeats, newest_first, answers-new, overflow_forgets}

abbrev keys : List String
keys = "b:1" ∷ "b:2" ∷ "b:1" ∷ "" ∷ "" ∷ []

answers-new_example : answers newest_first new keys ≡ repeats [] keys
answers-new_example = answers-new newest_first keys (omega arith)

the_answers : repeats [] keys ≡ false ∷ false ∷ true ∷ false ∷ false ∷ []
unfolding contains
the_answers = refl

-- A full store: one key, repeated, stands for five thousand others.
fill : ℕ → List String
fill zero = []
fill (suc n) = "old" ∷ fill n

length-fill : (n : ℕ) → length (fill n) ≡ n
unfolding fill
length-fill zero = refl
length-fill (suc n) = ap suc (length-fill n)

contains-fill : (n : ℕ) → contains (fill n) "new" ≡ false
unfolding contains fill
contains-fill zero = refl
contains-fill (suc n) = contains-fill n

overflow_forgets_example :
    ((already_seen newest_first (record { seen = fill max_seen }) "new").1 ≡ false)
    × ((already_seen newest_first
          (already_seen newest_first (record { seen = fill max_seen }) "new").0
          "new").1
        ≡ false)
overflow_forgets_example =
    overflow_forgets (record { seen = fill max_seen }) "new" (ground (arith, eq_iff "new" ""))
      (contains-fill max_seen) (length-fill max_seen)
