-- ===== src/ChatStore.antt =====
-- internal/chatstore/store.go: the chat sessions of the desktop program and their file. The time, the
-- random id and whether the file can be written are arguments.
pub mod File
pub mod Sessions
pub mod Reopen
pub mod Examples
use Prim.Native.String.{compare}
use text.Mathlib.Text.{is_lt}
use yzj_bot_bridge.Prelude.{
  ℕ, String, Bool, true, false, ◌&&◌, Option, none, some, List, [], ◌∷◌, ◌++◌, map, leb, ◌==◌,
  if◌then◌else◌, length, concat, trim_space, join_fields, rune_count, first_runes,
}
use yzj_bot_bridge.ChatStore.File.{
  Message, Session, FileRead, missing, unreadable, empty, unparsable, parsed, file_json,
  file_sessions,
}

pub record Summary : Type 0 where
  pub id : String
  pub title : String
  pub bot_id : String
  pub updated_at : String
  pub message_count : ℕ

-- The sessions in memory, and what reading the file gives.
pub record Store : Type 0 where
  pub sessions : List Session
  pub disk : FileRead

-- Open; none is an error.
unfoldable pub open_store : FileRead → Option Store
unfolding file_sessions
open_store missing = some (record { sessions = []; disk = missing })
open_store unreadable = none
open_store empty = some (record { sessions = []; disk = empty })
open_store unparsable = none
open_store (parsed j) = elim (file_sessions j) [
  | none ↦ none
  | some ss ↦ some (record { sessions = ss; disk = parsed j })
]

-- saveLocked; the Boolean says whether the file was written.
unfoldable pub save_locked : Bool → Store → Store × Bool
unfolding file_json
save_locked true s = (record s { disk = parsed (file_json s.sessions) }, true)
save_locked false s = (s, false)

summary_of : Session → Summary
summary_of s = record {
  id = s.id;
  title = s.title;
  bot_id = s.bot_id;
  updated_at = s.updated_at;
  message_count = length s.messages;
}

-- sort.SliceStable, as an insertion behind those that are not older.
insert_summary : Summary → List Summary → List Summary
insert_summary x [] = x ∷ []
insert_summary x (y ∷ ys) =
    let rest = insert_summary x ys in
    if is_lt (compare x.updated_at y.updated_at) then y ∷ rest else x ∷ (y ∷ ys)

sort_summaries : List Summary → List Summary
unfolding insert_summary
sort_summaries [] = []
sort_summaries (x ∷ xs) = insert_summary x (sort_summaries xs)

-- List
unfoldable pub list : Store → List Summary
unfolding sort_summaries summary_of
list s = sort_summaries (map summary_of s.sessions)

-- Get
unfoldable pub get : String → List Session → Option Session
get id [] = none
get id (s ∷ ss) = if s.id == id then some s else get id ss

-- Create
unfoldable pub create : String → String → String → String → Bool → Store → Store × Option Session
unfolding save_locked
create new_id now bot_id title ok s =
    let sess : Session = record {
      id = new_id;
      title = title;
      bot_id = bot_id;
      bound_open_id = "";
      updated_at = now;
      messages = [];
    } in
    let (s', saved) = save_locked ok (record s { sessions = s.sessions ++ sess ∷ [] }) in
    (s', if saved then some sess else none)

-- The first session with the id is changed.
unfoldable pub modify : String → (Session → Session) → List Session → List Session
modify id f [] = []
modify id f (s ∷ ss) = if s.id == id then f s ∷ ss else s ∷ modify id f ss

-- What UpdateFields and AppendMessages answer: the session, no such session, or a failed write.
pub data Reply : Type 0 where
  updated : Session → Reply
  not_found save_failed : Reply

unless_empty : String → String → String
unless_empty new old = if new == "" then old else new

-- The changes of UpdateFields to a session.
unfoldable pub set_fields : String → String → String → Option String → Session → Session
unfolding unless_empty
set_fields now title bot_id bound s = record s {
  title = unless_empty title s.title;
  bot_id = unless_empty bot_id s.bot_id;
  bound_open_id = elim bound [ none ↦ s.bound_open_id | some b ↦ trim_space b ];
  updated_at = now;
}

-- The changed sessions are written, if there is one with the id.
unfoldable pub change : String → (Session → Session) → Bool → Store → Store × Reply
unfolding save_locked
change id f ok s = elim (get id s.sessions) [
  | none ↦ (s, not_found)
  | some old ↦
      let (s', saved) = save_locked ok (record s { sessions = modify id f s.sessions }) in
      (s', if saved then updated (f old) else save_failed)
]

-- UpdateFields
unfoldable pub update_fields :
    String → String → String → String → Option String → Bool → Store → Store × Reply
unfolding change set_fields
update_fields now id title bot_id bound ok s = change id (set_fields now title bot_id bound) ok s

unfoldable pub remove : String → List Session → List Session
remove id [] = []
remove id (s ∷ ss) = if s.id == id then ss else s ∷ remove id ss

-- Delete; the Boolean says that there is no error.
unfoldable pub delete_session : String → Bool → Store → Store × Bool
unfolding save_locked
delete_session id ok s = elim (get id s.sessions) [
  | none ↦ (s, true)
  | some old ↦ save_locked ok (record s { sessions = remove id s.sessions })
]

-- titleFromContent
unfoldable pub title_from_content : String → String
title_from_content content =
    let text = trim_space (join_fields content) in
    if text == ""
    then ""
    else (if leb (rune_count text) 40 then text else concat (first_runes 40 text) "…")

-- A message with its time.
unfoldable pub stamped : String → Message → Message
stamped now m = if m.ts == "" then record m { ts = now } else m

-- The loop of AppendMessages over the messages.
unfoldable pub append_all : String → List Message → Session → Session
unfolding stamped title_from_content
append_all now [] s = s
append_all now (m ∷ ms) s =
    let title =
      if m.role == "user" && trim_space s.title == ""
      then title_from_content m.content
      else s.title in
    append_all now ms (record s { messages = s.messages ++ stamped now m ∷ []; title = title })

-- AppendMessages
unfoldable pub append_messages : String → String → List Message → Bool → Store → Store × Reply
unfolding change append_all
append_messages now id ms ok s =
    change id (λ sess. record (append_all now ms sess) { updated_at = now }) ok s
