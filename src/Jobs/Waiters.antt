-- ===== src/Jobs/Waiters.antt =====
-- The line of waiters as the list of its users, and what the loop over it does to that list.
use yzj_bot_bridge.Prelude.{
  ℕ, suc, ◌≡◌, ◌≢◌, refl, sym, ap, inl, inr, String, Option, none, some, List, [], ◌∷◌, ◌++◌, All,
  All-append, arith, eq_iff, ◌==◌, Bool-cases, get_elem?, length,
}
use yzj_bot_bridge.Jobs.Types.{Item, merge_waiting, push_back}

-- No entry of the line is this user's.
abbrev pub Absent : String → List String → Type 0
Absent u us = All (λ v. v ≢ u) us

abbrev pub Distinct : List String → Type 0
Distinct [] = Unit
Distinct (u ∷ us) = Absent u us × Distinct us

-- A user who was not in line goes to its end.
pub Distinct-append :
    (us : List String) (u : String) → Distinct us → Absent u us → Distinct (us ++ u ∷ [])
Distinct-append [] u d a = (tt, tt)
Distinct-append (v ∷ us) u d a =
    (All-append (λ w. w ≢ v) us (u ∷ []) d.0 ((λ e. a.0 (sym e)), tt), Distinct-append us u d.1 a.1)

pub get_elem?-append_last :
    (us : List String) (u : String) → get_elem? (us ++ u ∷ []) (length us) ≡ some u
get_elem?-append_last [] u = refl
get_elem?-append_last (v ∷ us) u = get_elem?-append_last us u

module _ {P : Type 0} where
  abbrev pub users : List (Item P) → List String
  users [] = []
  users (q ∷ qs) = q.open_id ∷ users qs

  pub length-users : (qs : List (Item P)) → length (users qs) ≡ length qs
  length-users [] = refl
  length-users (q ∷ qs) = ap suc (length-users qs)

  pub users-append : (qs rs : List (Item P)) → users (qs ++ rs) ≡ users qs ++ users rs
  users-append [] rs = refl
  users-append (q ∷ qs) rs = ap (λ us. q.open_id ∷ us) (users-append qs rs)

  -- The users of a line after the loop over it, and the place that the loop found.
  pub record Merged (u : String) (qs qs' : List (Item P)) (i : ℕ) : Type 0 where
    pub same_users : users qs' ≡ users qs
    pub at_place : get_elem? (users qs) i ≡ some u

  push_back-Merged :
      (u : String) (q : Item P) (qs rs : List (Item P)) (i : ℕ) (r : Option (List (Item P) × ℕ))
      → ((ss : List (Item P)) (j : ℕ) → r ≡ some (ss, j) → Merged u qs ss j)
      → push_back q r ≡ some (rs, i)
      → Merged u (q ∷ qs) rs i
  push_back-Merged u q qs rs i none ih h = cc
  push_back-Merged u q qs rs i (some (ss, j)) ih h =
      let m = ih ss j refl in ground (arith, m.same_users, m.at_place)

  pub merge_waiting-Merged :
      (u name content : String) (payload : Option P) (qs rs : List (Item P)) (i : ℕ)
      → merge_waiting u name content payload qs ≡ some (rs, i)
      → Merged u qs rs i
  unfolding merge_waiting
  merge_waiting-Merged u name content payload [] rs i h = cc
  merge_waiting-Merged u name content payload (q ∷ qs) rs i h = elim (Bool-cases (q.open_id == u)) [
    | inl hit ↦ ground (arith, eq_iff q.open_id u)
    | inr miss ↦
        push_back-Merged u q qs rs i (merge_waiting u name content payload qs)
          (merge_waiting-Merged u name content payload qs) (rw miss at h)
  ]

  push_back-none : (q : Item P) (r : Option (List (Item P) × ℕ)) → push_back q r ≡ none → r ≡ none
  push_back-none q none h = refl
  push_back-none q (some (ss, j)) h = cc

  -- The loop gives up only on a user who does not wait.
  pub merge_waiting-none :
      (u name content : String) (payload : Option P) (qs : List (Item P))
      → merge_waiting u name content payload qs ≡ none
      → Absent u (users qs)
  unfolding merge_waiting
  merge_waiting-none u name content payload [] h = tt
  merge_waiting-none u name content payload (q ∷ qs) h = elim (Bool-cases (q.open_id == u)) [
    | inl hit ↦ absurd (ground arith)
    | inr miss ↦ (
      (λ e. ground (arith, eq_iff q.open_id u)),
      merge_waiting-none u name content payload qs
          (push_back-none q (merge_waiting u name content payload qs) (rw miss at h)),
    )
  ]
