-- ===== src/Registry.antt =====
-- internal/registry/registry.go: the bots by id, in the order of the configuration. The order in which
-- Go ranges over the map is an argument: the bots as the range visits them.
pub mod Listing
pub mod Examples
use yzj_bot_bridge.Prelude.{
  String, Bool, false, not, ◌&&◌, ◌||◌, Option, none, some, List, [], ◌∷◌, ◌++◌, ◌==◌,
  if◌then◌else◌, Dict, empty_dict, put, trim_space, to_lower,
}
use yzj_bot_bridge.Bots.{Config}
use yzj_bot_bridge.Commands.Patterns.{find_all, mention_pattern}

pub record Registry : Type 0 where
  pub bots : Dict Config
  pub order : List String

-- New
abbrev pub new : Registry
new = record { bots = empty_dict; order = [] }

-- The loop of Replace.
unfoldable pub add_bots : List Config → Registry → Registry
add_bots [] r = r
add_bots (b ∷ bs) r =
    add_bots bs (record { bots = put b.id b r.bots; order = r.order ++ b.id ∷ [] })

-- Replace
unfoldable pub replace : List Config → Registry → Registry
unfolding add_bots
replace bs r = add_bots bs new

-- Get
unfoldable pub get_bot : String → Registry → Option Config
get_bot id r = r.bots id

unfoldable pub list_from : Dict Config → List String → List Config
list_from bots [] = []
list_from bots (id ∷ ids) = elim (bots id) [
  | none ↦ list_from bots ids
  | some b ↦ b ∷ list_from bots ids
]

-- List
unfoldable pub list_bots : Registry → List Config
unfolding list_from
list_bots r = list_from r.bots r.order

-- The tests of Resolve on one bot, for a token that is trimmed and in lower case.
unfoldable pub answers_to : String → Config → Bool
answers_to token b =
    to_lower b.id == token || to_lower b.role_id == token || to_lower b.name == token

-- The loop of Resolve over the bots as the range visits them.
unfoldable pub resolve_in : String → String → List Config → Option Config → Option Config
unfolding answers_to
resolve_in token group [] fallback = if not (group == "") then none else fallback
resolve_in token group (b ∷ bs) fallback =
    let skip = resolve_in token group bs fallback in
    let next = resolve_in token group bs (elim fallback [ none ↦ some b | some f ↦ some f ]) in
    if answers_to token b
    then (if not (group == "") && b.group == group then some b else next)
    else skip

-- Resolve
unfoldable pub resolve : String → String → List Config → Option Config
unfolding resolve_in
resolve token group visited =
    let key = to_lower (trim_space token) in
    if key == "" then none else resolve_in key group visited none

unfoldable pub has_id : List String → String → Bool
has_id [] id = false
has_id (x ∷ xs) id = x == id || has_id xs id

-- The ids that the loop of ResolveMention has seen, with the bots of the mentions that follow.
unfoldable pub mentioned : (String → Option Config) → List String → List String → List Config
unfolding has_id
mentioned find seen [] = []
mentioned find seen (m ∷ ms) = elim (find m) [
  | none ↦ mentioned find seen ms
  | some b ↦
      let skip = mentioned find seen ms in
      let keep = b ∷ mentioned find (b.id ∷ seen) ms in if has_id seen b.id then skip else keep
]

names_of : List Config → List String
names_of [] = []
names_of (b ∷ bs) = let rest = names_of bs in if b.name == "" then rest else b.name ∷ rest

-- Names
unfoldable pub names : Registry → List String
unfolding list_bots names_of
names r = names_of (list_bots r)

-- ResolveMention, with the bots as each range visits them
unfoldable pub resolve_mention : String → String → List Config → List Config
unfolding mentioned resolve find_all mention_pattern
resolve_mention content group visited =
    mentioned (λ token. resolve token group visited) [] (find_all mention_pattern content)
