-- ===== src/Dedupe/Window.antt =====
-- What the store promises: a bound on its size, each key passed once among the first messages, and
-- what its overflow breaks.
use mathlib.Core.Path.{subst}
use yzj_bot_bridge.Prelude.{
  ℕ, zero, suc, ◌+◌, ◌-◌, ◌≤◌, ◌<◌, String, ◌≡◌, refl, sym, ap, ◌∙◌, ◌≢◌, inl, inr, Bool, true,
  false, List, [], ◌∷◌, arith, eq_iff, ltb, ◌==◌, if◌then◌else◌, Bool-cases, ==_of_ne, lt→ltb,
  not-ltb-le, le-not_ltb, length, drop, length-drop,
}
use yzj_bot_bridge.Dedupe.{
  RangeOrder, Store, new, max_seen, contains, evict, record_key, already_seen,
}

-- The answers to a sequence of keys, one after the other.
pub answers : RangeOrder → Store → List String → List Bool
answers r s [] = []
answers r s (k ∷ ks) = let (s', b) = already_seen r s k in b ∷ answers r s' ks

pub after : RangeOrder → Store → List String → Store
after r s [] = s
after r s (k ∷ ks) = after r (already_seen r s k).0 ks

-- The specification: a key is old if it is not empty and was given before.
abbrev pub repeats : List String → List String → List Bool
repeats old [] = []
repeats old (k ∷ ks) = (if k == "" then false else contains old k) ∷ repeats (k ∷ old) ks

length-evict : (r : RangeOrder) (keys : List String) → length (evict r keys) ≡ length keys - 2500
unfolding evict
length-evict r keys = rw (length-drop 2500 (r.order keys), r.order_length keys)

record_key-bound :
    (r : RangeOrder) (keys : List String)
    → length keys ≤ max_seen + 1
    → length (record_key r keys) ≤ max_seen
unfolding record_key
record_key-bound r keys h = elim (Bool-cases (ltb max_seen (length keys))) [
  | inl over ↦ rw (record_key, over) (omega (arith, length-evict r keys))
  | inr room ↦ rw (record_key, room) (not-ltb-le max_seen (length keys) room)
]

pub record_key_room :
    (r : RangeOrder) (keys : List String) → length keys ≤ max_seen → record_key r keys ≡ keys
unfolding record_key
record_key_room r keys h = rw (le-not_ltb max_seen (length keys) h)

already_seen-bound :
    (r : RangeOrder) (s : Store) (k : String)
    → length s.seen ≤ max_seen
    → length (already_seen r s k).0.seen ≤ max_seen
unfolding already_seen
already_seen-bound r s k h = ground (arith, record_key-bound r (k ∷ s.seen))

after-bound :
    (r : RangeOrder) (s : Store) (ks : List String)
    → length s.seen ≤ max_seen
    → length (after r s ks).seen ≤ max_seen
unfolding after
after-bound r s [] h = h
after-bound r s (k ∷ ks) h = after-bound r (already_seen r s k).0 ks (already_seen-bound r s k h)

-- Whatever messages come and in whatever order the map is ranged over, the store never holds more
-- than 5000 keys.
pub after-le-max_seen :
    (r : RangeOrder) (ks : List String) → length (after r new ks).seen ≤ max_seen
unfolding new
after-le-max_seen r ks = after-bound r new ks (omega arith)

-- Two lists hold the same keys, the empty one left out.
abbrev SameKeys : List String → List String → Type 0
SameKeys xs ys = (k : String) → k ≢ "" → contains xs k ≡ contains ys k

SameKeys-cons : (k : String) (xs ys : List String) → SameKeys xs ys → SameKeys (k ∷ xs) (k ∷ ys)
unfolding contains
SameKeys-cons k xs ys h j n = rw (h j n)

-- A key that the first list has already, or the empty one.
SameKeys-old :
    (k : String) (xs ys : List String)
    → (k ≢ "" → contains xs k ≡ true)
    → SameKeys xs ys
    → SameKeys xs (k ∷ ys)
unfolding contains
SameKeys-old k xs ys old h j n = elim (Bool-cases (k == j)) [
  | inl e ↦
      let p : k ≡ j = (eq_iff k j).0 e in
      rw e (subst (λ i. contains xs i ≡ true) p (old (λ q. n (sym p ∙ q))))
  | inr e ↦ rw e (h j n)
]

answers-repeats :
    (r : RangeOrder) (s : Store) (old ks : List String)
    → SameKeys s.seen old
    → length s.seen + length ks ≤ max_seen
    → answers r s ks ≡ repeats old ks
unfolding answers already_seen
answers-repeats r s old [] same room = refl
answers-repeats r s old (k ∷ ks) same room = elim (Bool-cases (k == "")) [
  | inl blank ↦
      rw (already_seen, blank)
        (ap (λ bs. false ∷ bs)
          (answers-repeats r s (k ∷ old) ks
            (SameKeys-old k s.seen old (λ n. absurd (n ((eq_iff k "").0 blank))) same)
            (omega arith)))
  | inr named ↦
      let n : k ≢ "" = λ e. cc (named, (eq_iff k "").1 e) in
      elim (Bool-cases (contains s.seen k)) [
        | inl old_key ↦
            rw (already_seen, named, old_key, ← same k n, old_key)
              (ap (λ bs. true ∷ bs)
                (answers-repeats r s (k ∷ old) ks (SameKeys-old k s.seen old (λ _. old_key) same)
                  (omega arith)))
        | inr new_key ↦
            rw
              (
                already_seen,
                named,
                new_key,
                ← same k n,
                new_key,
                record_key_room r (k ∷ s.seen) (omega arith),
              )
              (ap (λ bs. false ∷ bs)
                (answers-repeats r (record s { seen = k ∷ s.seen }) (k ∷ old) ks
                  (SameKeys-cons k s.seen old same) (omega arith)))
      ]
]

-- Among the first 5000 messages each key passes exactly once: a call answers true exactly if its
-- key is not empty and came before. Empty keys are never held back.
pub answers-new :
    (r : RangeOrder) (ks : List String) → length ks ≤ max_seen → answers r new ks ≡ repeats [] ks
unfolding new
answers-new r ks h = answers-repeats r new [] ks (λ k n. refl) (omega arith)

contains-drop :
    (n : ℕ) (xs : List String) (k : String) → contains xs k ≡ false → contains (drop n xs) k ≡ false
unfolding contains
contains-drop zero xs k h = h
contains-drop (suc n) [] k h = refl
contains-drop (suc n) (x ∷ xs) k h = contains-drop n xs k (ground arith)

-- Go may range over the keys from the newest on.
abbrev pub newest_first : RangeOrder
newest_first = record { order = λ keys. keys; order_length = λ keys. refl }

evict_newest :
    (k : String) (xs : List String)
    → contains xs k ≡ false
    → contains (evict newest_first (k ∷ xs)) k ≡ false
unfolding evict
evict_newest k xs h = contains-drop 2499 xs k h

record_key_full :
    (keys : List String)
    → max_seen < length keys
    → record_key newest_first keys ≡ evict newest_first keys
unfolding record_key
record_key_full keys h = rw (lt→ltb max_seen (length keys) h)

-- The message that makes the store overflow may itself be forgotten: on a full store, an order of
-- the range exists in which a new key passes, and passes again when it comes at once a second
-- time.
pub overflow_forgets :
    (s : Store) (k : String)
    → k ≢ ""
    → contains s.seen k ≡ false
    → length s.seen ≡ max_seen
    → ((already_seen newest_first s k).1 ≡ false)
      × ((already_seen newest_first (already_seen newest_first s k).0 k).1 ≡ false)
unfolding already_seen
overflow_forgets s k n h full =
    rw
      (
        already_seen,
        ==_of_ne k "" n,
        h,
        record_key_full (k ∷ s.seen) (omega arith),
        evict_newest k s.seen h,
      )
      (refl, refl)
