-- ===== src/Sessions/Store.antt =====
-- internal/sessions/sessions.go: the store of the sessions of the engines, its operations, and the
-- directory that an engine runs in. The times are arguments: `now` in milliseconds, `stamp` the same
-- time as text, `today` its calendar day. The file is what it decodes to; writing it is not modelled.
use yzj_bot_bridge.Prelude.{
  ℕ, String, Bool, not, ◌&&◌, ◌||◌, Option, none, some, [], ◌∷◌, ◌++◌, nat_eq, ◌==◌, if◌then◌else◌,
  Dict, empty_dict, put,
}
use mathlib.Core.Option
use yzj_bot_bridge.Bots.{Config}
use yzj_bot_bridge.Sessions.Keys.{resolve_session_key}
use yzj_bot_bridge.Sessions.Entry.{
  CompactState, Entry, zero_compact, Stored, entry, entry_from_any, reload,
}

-- The map of the bots, each with its map of users.
abbrev pub Users : Type 0
Users = Dict Stored

pub record Store : Type 0 where
  pub version : ℕ
  pub bots : Dict Users

abbrev pub users_or_empty : Option Users → Users
users_or_empty none = empty_dict
users_or_empty (some users) = users

-- getUsers
unfoldable pub get_users : Store → String → Users
get_users s bot_id = users_or_empty (s.bots bot_id)

-- GetEntry
unfoldable pub get_entry : Store → String → String → Entry
unfolding get_users entry_from_any
get_entry s bot_id user_key = entry_from_any (get_users s bot_id user_key)

-- The write that ends every change: `users[userKey] = e`.
unfoldable pub write_entry : Store → String → String → Entry → Store
unfolding get_users
write_entry s bot_id user_key e = record s {
  bots = put bot_id (put user_key (entry e) (get_users s bot_id)) s.bots;
}

-- What SetChatID does to an entry
unfoldable pub with_chat : String → String → ℕ → String → Entry → Entry
with_chat chat_id name now today e = record e {
  current = chat_id;
  last_used_at = now;
  name = if name == "" then e.name else name;
  session_day = if not (e.current == chat_id) || e.session_day == "" then today else e.session_day;
}

-- What ClearSession does to an entry
unfoldable pub cleared : String → Entry → Entry
cleared stamp e = record e {
  history =
      if e.current == ""
      then e.history
      else e.history ++ (record { chat_id = e.current; cleared_at = stamp; name = e.name } ∷ []);
  current = "";
  session_day = "";
  last_used_at = 0;
  openai_compact = zero_compact;
}

-- The operations that change an entry: SetChatID, ClearSession, SetOpenAICompact, SetProject and
-- SetAgentCWD.
pub data Change : Type 0 where
  set_chat_id : String → String → ℕ → String → Change
  clear_session : String → Change
  set_openai_compact : CompactState → Change
  set_project : String → String → Change
  set_agent_cwd : String → Change

-- What each of them does to the entry it is called for
unfoldable pub change_entry : Change → Entry → Entry
unfolding with_chat cleared
change_entry (set_chat_id chat_id name now today) e = with_chat chat_id name now today e
change_entry (clear_session stamp) e = cleared stamp e
change_entry (set_openai_compact c) e = record e { openai_compact = c }
change_entry (set_project name path) e = record e { project_name = name; project_path = path }
change_entry (set_agent_cwd cwd) e = record e { agent_cwd = cwd }

-- An operation of the store, for a bot and a user.
unfoldable pub change : Store → String → String → Change → Store
unfolding get_entry write_entry change_entry
change s bot_id user_key c =
    write_entry s bot_id user_key (change_entry c (get_entry s bot_id user_key))

-- Open, by what the file decodes to; none when there is no file.
unfoldable pub open_store : Option Store → Store
open_store none = record { version = 3; bots = empty_dict }
open_store (some file) = record file { version = if nat_eq file.version 0 then 3 else file.version }

unfoldable pub reload_users : Option Users → Option Users
unfolding reload
reload_users none = none
reload_users (some users) = some (λ user_key. Option.map reload (users user_key))

-- Save: what the file decodes to after it.
unfoldable pub save : Store → Store
unfolding reload_users
save s = record { version = 3; bots = λ bot_id. reload_users (s.bots bot_id) }

-- ResolveAgentWorkspace, where `store` is none for nil, `is_dir` is the test of os.Stat, and
-- `default_workspace` the directory of the user's data.
unfoldable pub resolve_agent_workspace :
    (String → Bool) → String → Config → String → Option Store → String
unfolding resolve_session_key get_entry
resolve_agent_workspace is_dir default_workspace cfg open_id store =
    go (resolve_session_key cfg open_id) store
  where
    fallback : String
    fallback = if cfg.workspace == "" then default_workspace else cfg.workspace

    of_entry : Entry → String
    of_entry e =
        if not (e.project_path == "") && is_dir e.project_path
        then e.project_path
        else (if not (e.agent_cwd == "") && is_dir e.agent_cwd then e.agent_cwd else fallback)

    go : Option String → Option Store → String
    go none s = fallback
    go (some key) none = fallback
    go (some key) (some s) = of_entry (get_entry s cfg.id key)
