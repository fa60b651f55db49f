-- ===== src/YzjCli/State.antt =====
-- internal/yzjcli/state.go: the polling cursor of each group and its ring of handled messages. The
-- file that the store is saved to is left out: every caller goes on when saving fails.
use yzj_bot_bridge.Prelude.{
  ℕ, ◌-◌, ◌≤◌, ◌<◌, String, ◌≡◌, inl, inr, Bool, true, false, ◌||◌, none, some, List, [], ◌∷◌, ◌++◌,
  arith, eq_refl, ltb, nat_eq, ◌==◌, if◌then◌else◌, Bool-cases, length, drop, length-append,
  length-drop, drop-append_short, Dict, put,
}

pub record GroupState : Type 0 where
  pub last_msg_id : String
  pub last_send_time : String
  pub recent_msg_ids : List String
  pub bot_open_ids : List String
  pub contact_names : List (String × String)
  pub updated_at : ℕ

abbrev pub zero_state : GroupState
zero_state = record {
  last_msg_id = "";
  last_send_time = "";
  recent_msg_ids = [];
  bot_open_ids = [];
  contact_names = [];
  updated_at = 0;
}

abbrev pub StateStore : Type 0
StateStore = Dict GroupState

-- Put
unfoldable pub put_state : ℕ → String → GroupState → StateStore → StateStore
put_state now key st store = put key (record st { updated_at = now }) store

-- The state that Update starts from.
abbrev pub stored : StateStore → String → GroupState
stored store key = elim (store key) [ none ↦ zero_state | some st ↦ st ]

-- Update
unfoldable pub update_state : ℕ → String → (GroupState → GroupState) → StateStore → StateStore
update_state now key f store = put key (record (f (stored store key)) { updated_at = now }) store

-- HasRecent
unfoldable pub has_recent : List String → String → Bool
has_recent [] id = false
has_recent (v ∷ vs) id = v == id || has_recent vs id

-- The bound of AppendRecent; one below 1 means 200.
abbrev pub ring_max : ℕ → ℕ
ring_max max = if nat_eq max 0 then 200 else max

unfoldable pub cut_ring : ℕ → List String → List String
cut_ring max ids = if ltb max (length ids) then drop (length ids - max) ids else ids

-- AppendRecent
unfoldable pub append_recent : List String → String → ℕ → List String
unfolding has_recent cut_ring
append_recent ids id max =
    if has_recent ids id then ids else cut_ring (ring_max max) (ids ++ id ∷ [])

cut_ring-length : (max : ℕ) (ids : List String) → length (cut_ring max ids) ≤ max
unfolding cut_ring
cut_ring-length max ids = ground (arith, length-drop (length ids - max) ids)

has_recent-append : (ids : List String) (id : String) → has_recent (ids ++ id ∷ []) id ≡ true
unfolding has_recent
has_recent-append [] id = rw (eq_refl id)
has_recent-append (v ∷ vs) id = ground (arith, has_recent-append vs id)

-- The newest id stays when the front of the ring is cut.
has_recent-drop :
    (n : ℕ) (ids : List String) (id : String)
    → n ≤ length ids
    → has_recent (drop n (ids ++ id ∷ [])) id ≡ true
has_recent-drop n ids id h =
    rw (drop-append_short n ids (id ∷ []) h) (has_recent-append (drop n ids) id)

has_recent-cut :
    (max : ℕ) (ids : List String) (id : String)
    → 0 < max
    → has_recent (cut_ring max (ids ++ id ∷ [])) id ≡ true
unfolding cut_ring
has_recent-cut max ids id h = elim (Bool-cases (ltb max (length (ids ++ id ∷ [])))) [
  | inl over ↦
      rw (cut_ring, over)
        (has_recent-drop (length (ids ++ id ∷ []) - max) ids id
          (omega (arith, length-append ids (id ∷ []))))
  | inr room ↦ rw (cut_ring, room) (has_recent-append ids id)
]

-- A ring within its bound stays within it, and has the id that was recorded last.
pub append_recent_lem :
    (ids : List String) (id : String) (max : ℕ)
    → length ids ≤ ring_max max
    → (has_recent (append_recent ids id max) id ≡ true)
      × (length (append_recent ids id max) ≤ ring_max max)
unfolding append_recent
append_recent_lem ids id max h = elim (Bool-cases (has_recent ids id)) [
  | inl old ↦ rw (append_recent, old) (old, h)
  | inr new ↦ rw (append_recent, new) (found, cut_ring-length (ring_max max) (ids ++ id ∷ []))
]
  where
    found : has_recent (cut_ring (ring_max max) (ids ++ id ∷ [])) id ≡ true
    found = has_recent-cut (ring_max max) ids id (ground arith)
