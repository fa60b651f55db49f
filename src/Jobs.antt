-- ===== src/Jobs.antt =====
-- internal/jobs/jobs.go: one running job and a line of waiters for each scope. A method takes the
-- manager and returns the new one; the mutex makes each method one step. A context is a number,
-- the manager counts the contexts that `context.WithCancel` has made and knows which are
-- cancelled. The payload of a waiter is any type.
pub mod Types
pub mod Waiters
pub mod Contexts
pub mod Invariant
pub mod Preserved
pub mod Line
pub mod Refinement
pub mod Drain
mod Examples
pub mod Texts
pub mod Scopes
pub mod Cancel
pub mod Holders
pub mod Kept
use yzj_bot_bridge.Prelude.{
  ℕ, suc, ◌+◌, String, Bool, true, false, not, ◌&&◌, Option, none, some, List, [], ◌∷◌, ◌++◌,
  nat_eq, ◌==◌, if◌then◌else◌, length, Dict, empty_dict, put, delete, concat, trim_space, to_lower,
  equal_fold,
}
use Types.{
  Slot, Item, Notice, Result, Snapshot, accepted, merged, queued, empty_slot, clear_cancel,
  arm_cancel, merge_waiting, notices_from, idle_slot, empty_snapshot, snapshot_slot,
}

pub record Manager (P : Type 0) : Type 0 where
  pub slots : Dict (Slot P)
  pub next_ctx : ℕ
  pub cancelled : ℕ → Bool

-- UseChannelQueue
unfoldable pub use_channel_queue : String → String → Bool
unfolding trim_space to_lower equal_fold
use_channel_queue session_mode job_queue =
    let mode = to_lower (trim_space job_queue) in
    if mode == "channel"
    then true
    else if mode == "user"
    then false
    else equal_fold (trim_space session_mode) "shared"

-- Scope
unfoldable pub scope_key : String → String → Bool → String
scope_key bot_id open_id channel =
    if channel then concat "ch:" bot_id else concat "u:" (concat bot_id (concat "\0" open_id))

module _ {P : Type 0} where
  unfoldable pub new : Manager P
  new = record { slots = empty_dict; next_ctx = 0; cancelled = λ c. false }

  -- The slot of a scope, made empty where there is none. Its callers write the slot back.
  slot : Manager P → String → Slot P
  slot m scope = elim (m.slots scope) [ none ↦ empty_slot | some s ↦ s ]

  accept : Manager P → String → Slot P → String → String → String → Manager P × Result
  unfolding arm_cancel
  accept m scope s open_id name content =
      let s' : Slot P = record s {
        busy_open_id = open_id;
        busy_name = name;
        busy_content = content;
      } in
      (
        record m {
          slots = put scope (arm_cancel m.next_ctx s') m.slots;
          next_ctx = suc m.next_ctx;
        },
        record { status = accepted; position = 0; updated = false },
      )

  merge_extra : Manager P → String → Slot P → String → Manager P × Result
  merge_extra m scope s content =
      let s' : Slot P = record s {
        extra = if s.extra == "" then content else concat s.extra (concat "\n" content);
      } in
      (
        record m { slots = put scope s' m.slots },
        record { status = merged; position = 0; updated = false },
      )

  -- The part of TryAccept behind its first two tests, by what the loop over the waiters found.
  enqueue : Manager P → String → Slot P → Item P → Option (List (Item P) × ℕ) → Manager P × Result
  enqueue m scope s item (some (qs, i)) = (
    record m { slots = put scope (record s { queue = qs }) m.slots },
    record { status = queued; position = i + 1; updated = true },
  )
  enqueue m scope s item none =
      let qs : List (Item P) = s.queue ++ item ∷ [] in
      (
        record m { slots = put scope (record s { queue = qs }) m.slots },
        record { status = queued; position = length qs; updated = false },
      )

  -- The body of TryAccept on the slot of the scope; `item` holds the arguments.
  offer : Manager P → String → Slot P → Item P → Manager P × Result
  unfolding accept merge_extra enqueue
  offer m scope s item =
      if s.busy_open_id == ""
      then accept m scope s item.open_id item.name item.content
      else if s.busy_open_id == item.open_id
      then merge_extra m scope s item.content
      else enqueue m scope s item
          (merge_waiting item.open_id item.name item.content item.payload s.queue)

  -- TryAccept
  unfoldable pub try_accept : Manager P → String → Item P → Manager P × Result
  unfolding slot offer
  try_accept m scope item = offer m scope (slot m scope) item

  drain_slot : Manager P → String → String → Option (Slot P) → Manager P × String
  drain_slot m scope open_id none = (m, "")
  drain_slot m scope open_id (some s) =
      if s.busy_open_id == open_id
      then (record m { slots = put scope (record s { extra = "" }) m.slots }, s.extra)
      else (m, "")

  -- DrainExtra
  pub drain_extra : Manager P → String → String → Manager P × String
  unfolding drain_slot
  drain_extra m scope open_id = drain_slot m scope open_id (m.slots scope)

  -- What Finish does once the slot is idle: it is dropped, or its first waiter runs.
  pop_waiter :
      Manager P → String → Slot P → List (Item P) → Manager P × Option (Item P) × List Notice
  unfolding arm_cancel notices_from
  pop_waiter m scope s [] = (record m { slots = delete scope m.slots }, none, [])
  pop_waiter m scope s (item ∷ rest) =
      let s' : Slot P = record s {
        queue = rest;
        busy_open_id = item.open_id;
        busy_name = item.name;
        busy_content = item.content;
      } in
      (
        record m {
          slots = put scope (arm_cancel m.next_ctx s') m.slots;
          next_ctx = suc m.next_ctx;
        },
        some item,
        notices_from 1 rest,
      )

  finish_slot :
      Manager P → String → String → Option (Slot P) → Manager P × Option (Item P) × List Notice
  unfolding pop_waiter clear_cancel
  finish_slot m scope open_id none = (m, none, [])
  finish_slot m scope open_id (some s) =
      if not (s.busy_open_id == "") && not (s.busy_open_id == open_id)
      then (m, none, [])
      else pop_waiter m scope (idle_slot s) s.queue

  -- Finish
  pub finish : Manager P → String → String → Manager P × Option (Item P) × List Notice
  unfolding finish_slot
  finish m scope open_id = finish_slot m scope open_id (m.slots scope)

  -- Context: `none` is context.Background(), which nothing cancels.
  unfoldable pub context : Manager P → String → Option ℕ
  context m scope = elim (m.slots scope) [ none ↦ none | some s ↦ s.ctx ]

  pub cancel_slot : Manager P → String → Slot P → Option ℕ → Manager P × Bool
  cancel_slot m scope s none = (m, false)
  cancel_slot m scope s (some c) = (
    record m {
      slots = put scope (record s { cancel = none }) m.slots;
      cancelled = λ d. if nat_eq c d then true else m.cancelled d;
    },
    true,
  )

  cancel_in : Manager P → String → Option (Slot P) → Manager P × Bool
  unfolding cancel_slot
  cancel_in m scope none = (m, false)
  cancel_in m scope (some s) = cancel_slot m scope s s.cancel

  -- Cancel
  pub cancel : Manager P → String → Manager P × Bool
  unfolding cancel_in
  cancel m scope = cancel_in m scope (m.slots scope)

  -- Busy
  pub busy : Manager P → String → Bool
  busy m scope = elim (m.slots scope) [ none ↦ false | some s ↦ not (s.busy_open_id == "") ]

  -- Snapshot
  pub snapshot : Manager P → String → Snapshot P
  snapshot m scope = elim (m.slots scope) [ none ↦ empty_snapshot | some s ↦ snapshot_slot s ]
