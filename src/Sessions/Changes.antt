-- ===== src/Sessions/Changes.antt =====
-- What the operations of the store of sessions make of the entries, one after another and over a restart.
use mathlib.Core.Option
use mathlib.Core.Path.{subst}
use yzj_bot_bridge.Prelude.{
  ℕ, String, ◌≡◌, refl, sym, ap, ◌∙◌, ◌≢◌, Bool, true, false, not, ◌&&◌, Option, none, some, List,
  [], ◌∷◌, arith, eq_iff, ◌==◌, if◌then◌else◌, ==_of_ne, ==_of_eq,
}
use yzj_bot_bridge.Sessions.Entry.{
  Entry, needs_daily_reset, needs_idle_reset, Stored, entry, loaded, entry_from_any, entry_from_obj,
  reload, reload_forgets_history,
}
use yzj_bot_bridge.Json.{null, bool, num, text, arr, obj}
use yzj_bot_bridge.Sessions.Store.{
  Users, Store, get_users, get_entry, write_entry, with_chat, Change, change_entry, change,
  open_store, save, reload_users, users_or_empty,
}

-- A call of an operation: for a bot, a user, and what it is.
pub record Call : Type 0 where
  pub bot_id : String
  pub user_key : String
  pub what : Change

-- Calls, one after another.
unfoldable pub run : List Call → Store → Store
run [] s = s
run (c ∷ cs) s = run cs (change s c.bot_id c.user_key c.what)

-- The entry of a bot and a user, by the calls that are for them alone.
unfoldable pub own_changes : String → String → List Call → Entry → Entry
own_changes bot_id user_key [] e = e
own_changes bot_id user_key (c ∷ cs) e =
    own_changes bot_id user_key cs
      (if c.bot_id == bot_id && c.user_key == user_key then change_entry c.what e else e)

same_entry :
    (s : Store) (b u : String) (c : Change)
    → get_entry (change s b u c) b u ≡ change_entry c (get_entry s b u)
unfolding change write_entry get_entry get_users entry_from_any
same_entry s b u c = rw (==_of_eq b b refl, ==_of_eq u u refl) refl

same_bot :
    (s : Store) (b u : String) (c : Change) (u' : String)
    → u ≢ u'
    → get_entry (change s b u c) b u' ≡ get_entry s b u'
unfolding change write_entry get_entry get_users entry_from_any
same_bot s b u c u' n = rw (==_of_eq b b refl, ==_of_ne u u' n) refl

other_bot :
    (s : Store) (b u : String) (c : Change) (b' u' : String)
    → b ≢ b'
    → get_entry (change s b u c) b' u' ≡ get_entry s b' u'
unfolding change write_entry get_entry get_users entry_from_any
other_bot s b u c b' u' n = rw (==_of_ne b b' n) refl

-- An operation changes the entry it is called for and no other.
get_entry-change :
    (s : Store) (b u : String) (c : Change) (b' u' : String)
    → get_entry (change s b u c) b' u'
      ≡ (if b == b' && u == u' then change_entry c (get_entry s b' u') else get_entry s b' u')
get_entry-change s b u c b' u' = go (b == b') (u == u') refl refl
  where
    go :
        (t r : Bool)
        → (b == b') ≡ t
        → (u == u') ≡ r
        → get_entry (change s b u c) b' u'
          ≡ (if t && r then change_entry c (get_entry s b' u') else get_entry s b' u')
    go true true et er =
        let eb : b ≡ b' = ground (arith, eq_iff b b') in
        let eu : u ≡ u' = ground (arith, eq_iff u u') in
        subst (λ y. get_entry (change s b u c) b' y ≡ change_entry c (get_entry s b' y)) eu
          (subst (λ x. get_entry (change s b u c) x u ≡ change_entry c (get_entry s x u)) eb
            (same_entry s b u c))
    go true false et er =
        let eb : b ≡ b' = ground (arith, eq_iff b b') in
        subst (λ x. get_entry (change s b u c) x u' ≡ get_entry s x u') eb
          (same_bot s b u c u' (ground (arith, eq_iff u u')))
    go false r et er = other_bot s b u c b' u' (ground (arith, eq_iff b b'))

-- The entry of a bot and a user after any calls is what the calls for them make of it, whatever the
-- calls for others between them.
pub get_entry-run :
    (cs : List Call) (s : Store) (b u : String)
    → get_entry (run cs s) b u ≡ own_changes b u cs (get_entry s b u)
unfolding run own_changes
get_entry-run [] s b u = refl
get_entry-run (c ∷ cs) s b u =
    get_entry-run cs (change s c.bot_id c.user_key c.what) b u
    ∙ ap (own_changes b u cs) (get_entry-change s c.bot_id c.user_key c.what b u)

reload_any :
    (o : Option Stored)
    → entry_from_any (Option.map reload o) ≡ record (entry_from_any o) { history = [] }
unfolding reload entry_from_any entry_from_obj
reload_any none = refl
reload_any (some (entry e)) = reload_forgets_history e
reload_any (some (loaded null)) = refl
reload_any (some (loaded (bool b))) = refl
reload_any (some (loaded (num n))) = refl
reload_any (some (loaded (text t))) = refl
reload_any (some (loaded (arr n f))) = refl
reload_any (some (loaded (obj t))) = refl

reloaded_entry :
    (o : Option Users) (u : String)
    → entry_from_any (users_or_empty (reload_users o) u)
      ≡ record (entry_from_any (users_or_empty o u)) { history = [] }
unfolding reload_users entry_from_any
reloaded_entry none u = refl
reloaded_entry (some users) u = reload_any (users u)

-- A process that reads what another one saved finds every entry as it was, but for its history, which
-- is empty.
pub restart_forgets_history :
    (s : Store) (b u : String)
    → get_entry (open_store (some (save s))) b u ≡ record (get_entry s b u) { history = [] }
unfolding get_entry get_users open_store save
restart_forgets_history s b u = reloaded_entry (s.bots b) u

-- An answer of the engine in a chat, with the name that it is given.
pub record Answered : Type 0 where
  pub called : String
  pub at : ℕ
  pub day : String

-- What answers in one chat make of an entry.
unfoldable pub answered : String → List Answered → Entry → Entry
answered chat [] e = e
answered chat (a ∷ more) e = answered chat more (with_chat chat a.called a.at a.day e)

-- The time of the newest answer.
unfoldable pub newest_at : ℕ → List Answered → ℕ
newest_at t [] = t
newest_at t (a ∷ more) = newest_at a.at more

-- A chat that began on a day, with its newest answer at a time.
pub record Begun (chat day : String) (now : ℕ) (e : Entry) : Type 0 where
  pub is_current : e.current ≡ chat
  pub began : e.session_day ≡ day
  pub used : e.last_used_at ≡ now
  pub day_over : (today : String) → needs_daily_reset true e.session_day today ≡ not (day == today)
  pub not_idle : (hours : ℕ) → needs_idle_reset hours e.last_used_at now ≡ false

not_due : (hours now : ℕ) → needs_idle_reset hours now now ≡ false
unfolding needs_idle_reset
not_due hours now = ground arith

day_over_lem :
    (day today : String) → day ≢ "" → needs_daily_reset true day today ≡ not (day == today)
unfolding needs_daily_reset
day_over_lem day today named = ground (arith, eq_iff day today, eq_iff day "")

begun_by :
    (chat day : String) (now : ℕ) (e : Entry)
    → day ≢ ""
    → e.current ≡ chat
    → e.session_day ≡ day
    → e.last_used_at ≡ now
    → Begun chat day now e
begun_by chat day now e named c d u = record {
  is_current = c;
  began = d;
  used = u;
  day_over = λ today.
      subst (λ x. needs_daily_reset true x today ≡ not (day == today)) (sym d)
        (day_over_lem day today named);
  not_idle = λ hours. subst (λ x. needs_idle_reset hours x now ≡ false) (sym u) (not_due hours now);
}

same_chat :
    (chat day : String) (now : ℕ) (more : List Answered) (e : Entry)
    → day ≢ ""
    → Begun chat day now e
    → Begun chat day (newest_at now more) (answered chat more e)
unfolding answered newest_at with_chat
same_chat chat day now [] e named b = b
same_chat chat day now (a ∷ more) e named b =
    same_chat chat day a.at more (with_chat chat a.called a.at a.day e) named (
      begun_by chat day a.at (with_chat chat a.called a.at a.day e) named refl
        (rw
          (
            ==_of_eq e.current chat b.is_current,
            ==_of_ne e.session_day "" (λ x. named (sym b.began ∙ x)),
          )
          b.began)
        refl)

-- A chat begins on the day of its first answer and keeps that day through all further answers in it,
-- so that it ends with the day it began on, however late the newest answer came; for the test of
-- idleness it is as old as the newest answer. The chat is not the one that was open before, and the
-- day of the first answer is not the empty text.
pub with_chat-Begun :
    (e : Entry) (chat : String) (first : Answered) (more : List Answered)
    → e.current ≢ chat
    → first.day ≢ ""
    → Begun chat first.day (newest_at first.at more) (answered chat (first ∷ more) e)
unfolding answered with_chat
with_chat-Begun e chat first more apart named =
    same_chat chat first.day first.at more (with_chat chat first.called first.at first.day e) named
      (begun_by chat first.day first.at (with_chat chat first.called first.at first.day e) named
        refl (rw (==_of_ne e.current chat apart) refl) refl)
