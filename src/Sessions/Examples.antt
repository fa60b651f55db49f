-- ===== src/Sessions/Examples.antt =====
-- The keys of sessions at concrete users.
use yzj_bot_bridge.Prelude.{
  ◌≡◌, refl, some, List, [], ◌∷◌, arith, eq_iff, length, empty_dict, has_prefix,
}
use yzj_bot_bridge.Bots.{Config, blank_config}
use yzj_bot_bridge.Sessions.Entry.{Entry, zero_entry}
use yzj_bot_bridge.Sessions.Store.{
  Store, get_entry, change_entry, set_chat_id, clear_session, open_store, save,
}
use yzj_bot_bridge.Sessions.Changes.{
  Call, run, own_changes, get_entry-run, restart_forgets_history, Answered, answered, newest_at,
  Begun, with_chat-Begun,
}
use yzj_bot_bridge.Sessions.Keys.{run_lock_key}

abbrev shared : Config
shared = record blank_config { session_mode = "shared" }

the_key : run_lock_key shared "u1" ≡ "__shared__"
unfolding run_lock_key has_prefix
the_key = refl

abbrev no_sessions : Store
no_sessions = record { version = 3; bots = empty_dict }

-- Two users of a bot, one of whom clears the session.
abbrev calls : List Call
calls =
    record { bot_id = "b1"; user_key = "u1"; what = set_chat_id "c1" "Ann" 5 "d1" }
    ∷ record { bot_id = "b1"; user_key = "u2"; what = set_chat_id "c2" "Bob" 6 "d1" }
    ∷ record { bot_id = "b1"; user_key = "u1"; what = clear_session "t1" }
    ∷ []

get_entry-run_example :
    get_entry (run calls no_sessions) "b1" "u1"
    ≡ own_changes "b1" "u1" calls (get_entry no_sessions "b1" "u1")
get_entry-run_example = get_entry-run calls no_sessions "b1" "u1"

cleared_one : length (own_changes "b1" "u1" calls zero_entry).history ≡ 1
unfolding own_changes change_entry
cleared_one = refl

restart_forgets_history_example :
    get_entry (open_store (some (save (run calls no_sessions)))) "b1" "u1"
    ≡ record (get_entry (run calls no_sessions) "b1" "u1") { history = [] }
restart_forgets_history_example = restart_forgets_history (run calls no_sessions) "b1" "u1"

abbrev old_chat : Entry
old_chat = record zero_entry { current = "c1"; session_day = "d1"; last_used_at = 5 }

abbrev asked : Answered
asked = record { called = ""; at = 9; day = "d2" }

abbrev asked_again : Answered
asked_again = record { called = "new"; at = 12; day = "d3" }

with_chat-Begun_example : Begun "c2" "d2" 12 (answered "c2" (asked ∷ asked_again ∷ []) old_chat)
unfolding newest_at
with_chat-Begun_example =
    with_chat-Begun old_chat "c2" asked (asked_again ∷ []) (ground (arith, eq_iff "c1" "c2"))
      (ground (arith, eq_iff "d2" ""))
