-- ===== src/Jobs/Types.antt =====
-- internal/jobs/jobs.go: the types, and the operations on one slot and on its line of waiters.
use yzj_bot_bridge.Prelude.{
  ℕ, suc, ◌+◌, String, Bool, Option, none, some, List, [], ◌∷◌, if◌then◌else◌, ◌==◌, concat,
}

pub data Status : Type 0 where
  accepted merged queued : Status

pub record Result : Type 0 where
  pub status : Status
  pub position : ℕ
  pub updated : Bool

pub record Notice : Type 0 where
  pub open_id : String
  pub name : String
  pub position : ℕ

-- `payload` is nil in the item that a snapshot makes of the running job.
pub record Item (P : Type 0) : Type 0 where
  pub open_id : String
  pub name : String
  pub content : String
  pub payload : Option P

-- `cancel` names the context that the stored cancel function cancels.
pub record Slot (P : Type 0) : Type 0 where
  pub busy_open_id : String
  pub busy_name : String
  pub busy_content : String
  pub extra : String
  pub queue : List (Item P)
  pub ctx : Option ℕ
  pub cancel : Option ℕ

pub record Snapshot (P : Type 0) : Type 0 where
  pub current : Item P
  pub extra : String
  pub queue : List (Item P)

module _ {P : Type 0} where
  abbrev pub empty_slot : Slot P
  empty_slot = record {
    busy_open_id = "";
    busy_name = "";
    busy_content = "";
    extra = "";
    queue = [];
    ctx = none;
    cancel = none;
  }

  unfoldable pub clear_cancel : Slot P → Slot P
  clear_cancel s = record s { cancel = none; ctx = none }

  -- Arms the slot with the context `c`, which the caller has just made.
  unfoldable pub arm_cancel : ℕ → Slot P → Slot P
  unfolding clear_cancel
  arm_cancel c s = record (clear_cancel s) { ctx = some c; cancel = some c }

  abbrev pub push_back : Item P → Option (List (Item P) × ℕ) → Option (List (Item P) × ℕ)
  push_back q none = none
  push_back q (some (qs, i)) = some (q ∷ qs, suc i)

  -- The loop over the waiters: the first entry of this user takes the new text, name and payload;
  -- the number is its index. `none`: the user does not wait.
  unfoldable pub merge_waiting :
      String → String → String → Option P → List (Item P) → Option (List (Item P) × ℕ)
  merge_waiting open_id name content payload [] = none
  merge_waiting open_id name content payload (q ∷ qs) =
      if q.open_id == open_id
      then some (
        record q {
          name = name;
          content = concat q.content (concat "\n" content);
          payload = payload;
        }
            ∷ qs,
        0,
      )
      else push_back q (merge_waiting open_id name content payload qs)

  -- The notices for the waiters that are left, the first at the given position.
  unfoldable pub notices_from : ℕ → List (Item P) → List Notice
  notices_from i [] = []
  notices_from i (q ∷ qs) =
      record { open_id = q.open_id; name = q.name; position = i } ∷ notices_from (i + 1) qs

  abbrev pub idle_slot : Slot P → Slot P
  idle_slot s =
      clear_cancel (record s { busy_open_id = ""; busy_name = ""; busy_content = ""; extra = "" })

  abbrev pub empty_snapshot : Snapshot P
  empty_snapshot = record {
    current = record { open_id = ""; name = ""; content = ""; payload = none };
    extra = "";
    queue = [];
  }

  abbrev pub snapshot_slot : Slot P → Snapshot P
  snapshot_slot s = if s.busy_open_id == "" then empty_snapshot else record {
    current = record {
      open_id = s.busy_open_id;
      name = s.busy_name;
      content = s.busy_content;
      payload = none;
    };
    extra = s.extra;
    queue = s.queue;
  }
