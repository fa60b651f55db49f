-- ===== src/ChatStore/Reopen.antt =====
-- That the file of the chat store gives the store back.
use mathlib.Core.Path.{subst}
use yzj_bot_bridge.Prelude.{
  String, ◌≡◌, refl, sym, inl, inr, Bool, true, Option, some, List, [], ◌∷◌, Option-cases, All,
}
use yzj_bot_bridge.ChatStore.File.{Message, Session, parsed, file_json, file_sessions-file_json}
use yzj_bot_bridge.ChatStore.{
  Store, open_store, save_locked, get, create, modify, change, update_fields, set_fields,
  delete_session, append_all, append_messages,
}

-- One operation of the store with what it meets.
pub data Op : Type 0 where
  creates : (new_id now bot_id title : String) (ok : Bool) → Op
  updates : (now id title bot_id : String) (bound : Option String) (ok : Bool) → Op
  deletes : (id : String) (ok : Bool) → Op
  appends : (now id : String) (ms : List Message) (ok : Bool) → Op

unfoldable pub apply : Op → Store → Store
apply (creates new_id now bot_id title ok) s = (create new_id now bot_id title ok s).0
apply (updates now id title bot_id bound ok) s = (update_fields now id title bot_id bound ok s).0
apply (deletes id ok) s = (delete_session id ok s).0
apply (appends now id ms ok) s = (append_messages now id ms ok s).0

unfoldable pub apply_all : List Op → Store → Store
apply_all [] s = s
apply_all (op ∷ ops) s = apply_all ops (apply op s)

-- Every write goes through.
abbrev pub Saved : Op → Type 0
Saved (creates new_id now bot_id title ok) = ok ≡ true
Saved (updates now id title bot_id bound ok) = ok ≡ true
Saved (deletes id ok) = ok ≡ true
Saved (appends now id ms ok) = ok ≡ true

-- Opening the file gives the store.
abbrev pub Synced : Store → Type 0
Synced s = open_store s.disk ≡ some s

written-Synced :
    (ss : List Session) → Synced (record { sessions = ss; disk = parsed (file_json ss) })
unfolding open_store
written-Synced ss = rw (open_store, file_sessions-file_json ss) refl

change-Synced :
    (id : String) (f : Session → Session) (s : Store) → Synced s → Synced (change id f true s).0
unfolding change save_locked
change-Synced id f s h = elim (Option-cases (get id s.sessions)) [
  | inl absent ↦ rw (change, absent) h
  | inr (old, there) ↦ rw (change, there, save_locked) (written-Synced (modify id f s.sessions))
]

delete-Synced : (id : String) (s : Store) → Synced s → Synced (delete_session id true s).0
unfolding delete_session save_locked
delete-Synced id s h = elim (Option-cases (get id s.sessions)) [
  | inl absent ↦ rw (delete_session, absent) h
  | inr (old, there) ↦ rw (delete_session, there, save_locked) (written-Synced _)
]

apply-Synced : (op : Op) (s : Store) → Saved op → Synced s → Synced (apply op s)
unfolding apply create delete_session save_locked update_fields append_messages
apply-Synced (creates new_id now bot_id title ok) s saved h =
    subst (λ b. Synced (create new_id now bot_id title b s).0) (sym saved) (written-Synced _)
apply-Synced (updates now id title bot_id bound ok) s saved h =
    subst (λ b. Synced (update_fields now id title bot_id bound b s).0) (sym saved)
      (change-Synced id (set_fields now title bot_id bound) s h)
apply-Synced (deletes id ok) s saved h =
    subst (λ b. Synced (delete_session id b s).0) (sym saved) (delete-Synced id s h)
apply-Synced (appends now id ms ok) s saved h =
    subst (λ b. Synced (append_messages now id ms b s).0) (sym saved)
      (change-Synced id (λ sess. record (append_all now ms sess) { updated_at = now }) s h)

-- From a store that opening its file gives, such as one without a file, after any operations whose
-- writes all went through, opening the file that they left gives the store that they left: no field of
-- a session or of a message is lost or changed by its form in the file.
pub reopen :
    (ops : List Op) (s : Store)
    → Synced s
    → All Saved ops
    → open_store (apply_all ops s).disk ≡ some (apply_all ops s)
unfolding apply_all
reopen [] s h saved = h
reopen (op ∷ ops) s h saved = reopen ops (apply op s) (apply-Synced op s saved.0 h) saved.1
