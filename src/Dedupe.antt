-- ===== src/Dedupe.antt =====
-- internal/dedupe/dedupe.go: the keys of the messages that were seen. The map is the list of its
-- keys; the order in which Go ranges over it is an argument.
pub mod Window
pub mod Kept
mod Examples
use yzj_bot_bridge.Prelude.{
  ℕ, ◌/◌, String, ◌≡◌, Bool, true, false, ◌||◌, List, [], ◌∷◌, ltb, ◌==◌, if◌then◌else◌, length,
  drop,
}

abbrev pub max_seen : ℕ
max_seen = 5000

-- A range over a map visits every key once, in an order that Go leaves open.
pub record RangeOrder : Type 0 where
  pub order : List String → List String
  pub order_length : (keys : List String) → length (order keys) ≡ length keys

pub record Store : Type 0 where
  pub seen : List String

unfoldable pub new : Store
new = record { seen = [] }

unfoldable pub contains : List String → String → Bool
contains [] k = false
contains (x ∷ xs) k = x == k || contains xs k

-- The loop that drops half of the keys, the first of the range.
pub evict : RangeOrder → List String → List String
evict r keys = drop (max_seen / 2) (r.order keys)

pub record_key : RangeOrder → List String → List String
record_key r keys = if ltb max_seen (length keys) then evict r keys else keys

-- AlreadySeen
unfoldable pub already_seen : RangeOrder → Store → String → Store × Bool
unfolding contains
already_seen r s key =
    if key == ""
    then (s, false)
    else if contains s.seen key
    then (s, true)
    else (record s { seen = record_key r (key ∷ s.seen) }, false)
