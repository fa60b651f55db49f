-- ===== src/ChatStore/Examples.antt =====
-- The chat store with one session.
use mathlib.Core.Option
use yzj_bot_bridge.Prelude.{◌≡◌, refl, true, some, List, [], ◌∷◌}
use yzj_bot_bridge.ChatStore.File.{Message, missing}
use yzj_bot_bridge.ChatStore.Reopen.{Op, creates, appends, deletes, apply_all, reopen}
use yzj_bot_bridge.ChatStore.{open_store, Store, get, create, append_messages}
use yzj_bot_bridge.ChatStore.Sessions.{with_messages, append_messages-get}

abbrev hello : Message
hello = record { role = "user"; content = "hello  there"; bot_id = "b"; reasoning = ""; ts = "" }

abbrev fresh : Store
fresh = record { sessions = []; disk = missing }

abbrev ops : List Op
ops =
    creates "s1" "t1" "b" "" true
    ∷ (appends "t2" "s1" (hello ∷ []) true
        ∷ (creates "s2" "t3" "b" "two" true ∷ (deletes "s2" true ∷ [])))

fresh-Synced : open_store fresh.disk ≡ some fresh
unfolding open_store
fresh-Synced = refl

reopen_example : open_store (apply_all ops fresh).disk ≡ some (apply_all ops fresh)
reopen_example = reopen ops fresh fresh-Synced (refl, (refl, (refl, (refl, tt))))

abbrev one : Store
one = (create "s1" "t1" "b" "" true fresh).0

append_messages-get_example :
    get "s1" (append_messages "t2" "s1" (hello ∷ []) true one).0.sessions
    ≡ Option.map (with_messages "t2" (hello ∷ [])) (get "s1" one.sessions)
append_messages-get_example = append_messages-get "t2" "s1" "s1" (hello ∷ []) true one
