-- ===== src/Sessions/Entry.antt =====
-- internal/sessions/sessions.go: the entry of a user, its form in the file, and the tests of its age.
use yzj_bot_bridge.Prelude.{
  ℕ, zero, suc, ◌-◌, ◌*◌, String, ◌≡◌, refl, Bool, not, ◌&&◌, ◌||◌, Option, none, some, List, [],
  ◌∷◌, arith, eq_iff, ltb, nat_eq, ◌==◌, if◌then◌else◌, length,
}
use yzj_bot_bridge.Json.{
  Json, null, text, arr, obj, as_str, as_int64, omit_text, omit_num, as_str-omit_text,
  as_int64-omit_num,
}

pub record HistoryItem : Type 0 where
  pub chat_id : String
  pub cleared_at : String
  pub name : String

pub record CompactState : Type 0 where
  pub summary : String
  pub count : ℕ
  pub hash : String

pub record Entry : Type 0 where
  pub current : String
  pub name : String
  pub history : List HistoryItem
  pub project_name : String
  pub project_path : String
  pub agent_cwd : String
  pub openai_compact : CompactState
  pub session_day : String
  pub last_used_at : ℕ

abbrev pub zero_compact : CompactState
zero_compact = record { summary = ""; count = 0; hash = "" }

abbrev pub zero_entry : Entry
zero_entry = record {
  current = "";
  name = "";
  history = [];
  project_name = "";
  project_path = "";
  agent_cwd = "";
  openai_compact = zero_compact;
  session_day = "";
  last_used_at = 0;
}

-- NeedsDailyReset
unfoldable pub needs_daily_reset : Bool → String → String → Bool
needs_daily_reset enabled session_day today =
    enabled && not (session_day == "") && not (session_day == today)

-- NeedsIdleReset, with the times in milliseconds
unfoldable pub needs_idle_reset : ℕ → ℕ → ℕ → Bool
needs_idle_reset hours last_used_at now =
    not (nat_eq hours 0 || nat_eq last_used_at 0) && ltb (hours * 3_600_000) (now - last_used_at)

-- A value of the map of users: an entry that this process wrote, or what the file held.
pub data Stored : Type 0 where
  entry : Entry → Stored
  loaded : Json → Stored

-- compactFromAny, of a value from the file
unfoldable pub compact_from_any : Json → CompactState
unfolding as_str as_int64
compact_from_any (obj t) = record {
  summary = as_str (t "summary");
  count = as_int64 (t "count");
  hash = as_str (t "hash");
}
compact_from_any _ = zero_compact

-- The `map[string]any` case of entryFromAny.
unfoldable pub entry_from_obj : (String → Json) → Entry
unfolding as_str as_int64 compact_from_any
entry_from_obj t = record {
  current = if as_str (t "current") == "" then as_str (t "chat_id") else as_str (t "current");
  name = as_str (t "name");
  history = [];
  project_name = as_str (t "project_name");
  project_path = as_str (t "project_path");
  agent_cwd = as_str (t "agent_cwd");
  openai_compact = compact_from_any (t "openai_compact");
  session_day = as_str (t "session_day");
  last_used_at = as_int64 (t "last_used_at");
}

-- entryFromAny; none is nil
unfoldable pub entry_from_any : Option Stored → Entry
unfolding entry_from_obj
entry_from_any none = zero_entry
entry_from_any (some (entry e)) = e
entry_from_any (some (loaded (text s))) = record zero_entry { current = s }
entry_from_any (some (loaded (obj t))) = entry_from_obj t
entry_from_any (some (loaded _)) = zero_entry

item_json : HistoryItem → Json
unfolding omit_text
item_json h = obj (λ k.
    if k == "chat_id"
    then text h.chat_id
    else (if k == "cleared_at"
        then omit_text h.cleared_at
        else (if k == "name" then omit_text h.name else null)))

item_at : List HistoryItem → ℕ → Json
unfolding item_json
item_at [] i = null
item_at (h ∷ hs) zero = item_json h
item_at (h ∷ hs) (suc i) = item_at hs i

compact_json : CompactState → Json
unfolding omit_text omit_num
compact_json c = obj (λ k.
    if k == "summary"
    then omit_text c.summary
    else (if k == "count"
        then omit_num c.count
        else (if k == "hash" then omit_text c.hash else null)))

-- What json.Marshal writes of an entry, by the tags of its fields.
unfoldable pub entry_members : Entry → String → Json
unfolding compact_json item_at omit_text omit_num
entry_members e k =
    if k == "current"
    then text e.current
    else (if k == "name"
        then omit_text e.name
        else (if k == "history"
            then (elim e.history [
              | [] ↦ null
              | h ∷ hs ↦ arr (length e.history) (item_at e.history)
            ])
            else (if k == "project_name"
                then omit_text e.project_name
                else (if k == "project_path"
                    then omit_text e.project_path
                    else (if k == "agent_cwd"
                        then omit_text e.agent_cwd
                        else (if k == "openai_compact"
                            then compact_json e.openai_compact
                            else (if k == "session_day"
                                then omit_text e.session_day
                                else (if k == "last_used_at"
                                    then omit_num e.last_used_at
                                    else null))))))))

-- What the file holds of a value, and what the next process finds.
unfoldable pub reload : Stored → Stored
unfolding entry_members
reload (entry e) = loaded (obj (entry_members e))
reload (loaded j) = loaded j

compact_reload : (c : CompactState) → compact_from_any (compact_json c) ≡ c
unfolding compact_from_any compact_json
compact_reload c =
    rw (as_str-omit_text c.summary, as_int64-omit_num c.count, as_str-omit_text c.hash) refl

blank_or_self : (s : String) → (if s == "" then "" else s) ≡ s
blank_or_self s = ground (arith, eq_iff s "")

-- A reload keeps an entry but for its history: entryFromAny does not read it.
pub reload_forgets_history :
    (e : Entry) → entry_from_any (some (reload (entry e))) ≡ record e { history = [] }
unfolding entry_from_any entry_from_obj reload entry_members as_str
reload_forgets_history e =
    rw
      (
        blank_or_self e.current,
        as_str-omit_text e.name,
        as_str-omit_text e.project_name,
        as_str-omit_text e.project_path,
        as_str-omit_text e.agent_cwd,
        as_str-omit_text e.session_day,
        as_int64-omit_num e.last_used_at,
        compact_reload e.openai_compact,
      )
      refl
