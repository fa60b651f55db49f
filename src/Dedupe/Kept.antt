-- ===== src/Dedupe/Kept.antt =====
-- What a call of AlreadySeen keeps, on a store that has room: keys stay, and there is one more at most.
use yzj_bot_bridge.Prelude.{
  suc, ◌≤◌, ◌<◌, String, ◌≡◌, refl, ◌≢◌, inl, inr, true, ◌∷◌, arith, ◌==◌, Bool-cases, ==_of_ne,
  ==_of_eq, length,
}
use yzj_bot_bridge.Dedupe.{RangeOrder, Store, max_seen, contains, already_seen}
use yzj_bot_bridge.Dedupe.Window.{record_key_room}

module _ (r : RangeOrder) (s : Store) (k : String) where
  -- A key that the store has is old.
  pub already_seen_known : k ≢ "" → contains s.seen k ≡ true → already_seen r s k ≡ (s, true)
  unfolding already_seen
  already_seen_known n old = rw (already_seen, ==_of_ne k "" n, old) refl

  pub already_seen-contains :
      k ≢ "" → length s.seen < max_seen → contains (already_seen r s k).0.seen k ≡ true
  unfolding already_seen contains
  already_seen-contains n h = elim (Bool-cases (contains s.seen k)) [
    | inl old ↦ rw (already_seen, ==_of_ne k "" n, old) old
    | inr fresh ↦
        rw
          (
            already_seen,
            ==_of_ne k "" n,
            fresh,
            record_key_room r (k ∷ s.seen) (omega arith),
            ==_of_eq k k refl,
          )
          refl
  ]

  pub already_seen_keeps :
      (j : String)
      → length s.seen < max_seen
      → contains s.seen j ≡ true
      → contains (already_seen r s k).0.seen j ≡ true
  unfolding already_seen contains
  already_seen_keeps j h has = elim (Bool-cases (k == "")) [
    | inl blank ↦ rw (already_seen, blank) has
    | inr named ↦ elim (Bool-cases (contains s.seen k)) [
      | inl old ↦ rw (already_seen, named, old) has
      | inr fresh ↦
          rw (already_seen, named, fresh, record_key_room r (k ∷ s.seen) (omega arith))
            (ground (arith, has))
    ]
  ]

  pub already_seen-length :
      length s.seen < max_seen → length (already_seen r s k).0.seen ≤ suc (length s.seen)
  unfolding already_seen
  already_seen-length h = elim (Bool-cases (k == "")) [
    | inl blank ↦ rw (already_seen, blank) (omega arith)
    | inr named ↦ elim (Bool-cases (contains s.seen k)) [
      | inl old ↦ rw (already_seen, named, old) (omega arith)
      | inr fresh ↦
          rw (already_seen, named, fresh, record_key_room r (k ∷ s.seen) (omega arith))
            (omega arith)
    ]
  ]
