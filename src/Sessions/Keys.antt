-- ===== src/Sessions/Keys.antt =====
-- internal/sessions/sessions.go and runlock_key.go: the key of a user's session, and that of its run
-- lock.
use yzj_bot_bridge.Prelude.{
  String, ◌≡◌, refl, sym, ap, ◌∙◌, ◌≢◌, Bool, true, false, not, ◌&&◌, Option, none, some, arith,
  eq_iff, ◌==◌, if◌then◌else◌, ==_of_ne, concat, has_prefix, rest_runes,
}
use yzj_bot_bridge.Bots.{Config}

-- GUIChatOpenIDPrefix
abbrev pub gui_prefix : String
gui_prefix = "gui-chat:"

-- GUIChatOpenID
unfoldable pub gui_chat_open_id : String → String
gui_chat_open_id session_id = concat gui_prefix session_id

-- IsGUIChatOpenID
unfoldable pub is_gui_chat_open_id : String → Bool
is_gui_chat_open_id open_id = has_prefix open_id gui_prefix && not (open_id == gui_prefix)

shared_key : Config → String
shared_key cfg = if cfg.shared_session_key == "" then "__shared__" else cfg.shared_session_key

-- ResolveSessionKey; `none` is the answer false.
unfoldable pub resolve_session_key : Config → String → Option String
unfolding is_gui_chat_open_id shared_key
resolve_session_key cfg open_id =
    if is_gui_chat_open_id open_id
    then some open_id
    else (if cfg.session_mode == "oneshot"
        then none
        else (if cfg.session_mode == "shared"
            then some (shared_key cfg)
            else (if open_id == "" then none else some open_id)))

abbrev pub oneshot_lock_key : String
oneshot_lock_key = "__oneshot__"

-- RunLockKey
unfoldable pub run_lock_key : Config → String → String
unfolding is_gui_chat_open_id shared_key
run_lock_key cfg open_id =
    if is_gui_chat_open_id open_id
    then open_id
    else (if cfg.session_mode == "shared"
        then shared_key cfg
        else (if cfg.session_mode == "oneshot"
            then oneshot_lock_key
            else (if open_id == "" then oneshot_lock_key else open_id)))

abbrev or_oneshot : Option String → String
or_oneshot none = oneshot_lock_key
or_oneshot (some key) = key

-- The run lock of a session is named by the session's key; runs without a session share one lock.
run_lock_key-agrees :
    (cfg : Config) (open_id : String)
    → run_lock_key cfg open_id ≡ or_oneshot (resolve_session_key cfg open_id)
unfolding run_lock_key resolve_session_key
run_lock_key-agrees cfg open_id =
    go (is_gui_chat_open_id open_id) (cfg.session_mode == "oneshot") (cfg.session_mode == "shared")
      (open_id == "") refl refl
  where
    go :
        (g o s e : Bool)
        → (cfg.session_mode == "oneshot") ≡ o
        → (cfg.session_mode == "shared") ≡ s
        → (if g
            then open_id
            else (if s
                then shared_key cfg
                else (if o then oneshot_lock_key else (if e then oneshot_lock_key else open_id))))
          ≡ or_oneshot (
              if g
              then some open_id
              else (if o
                  then none
                  else (if s then some (shared_key cfg) else (if e then none else some open_id))))
    go true o s e eo es = refl
    go false true true e eo es = absurd (both_modes eo es)
      where
        both_modes :
            (cfg.session_mode == "oneshot") ≡ true → (cfg.session_mode == "shared") ≡ true → ⊥
        both_modes eo es = ground (
          arith,
          eq_iff cfg.session_mode "oneshot",
          eq_iff cfg.session_mode "shared",
          eq_iff "oneshot" "shared",
        )
    go false true false e eo es = refl
    go false false true e eo es = refl
    go false false false true eo es = refl
    go false false false false eo es = refl

concat_cancel : (a b : String) → concat gui_prefix a ≡ concat gui_prefix b → a ≡ b
unfolding concat rest_runes
concat_cancel a b e = ap (rest_runes 9) e

is_gui_chat : (a : String) → a ≢ "" → is_gui_chat_open_id (gui_chat_open_id a) ≡ true
unfolding is_gui_chat_open_id gui_chat_open_id has_prefix concat
is_gui_chat a n = ap not (==_of_ne (concat gui_prefix a) gui_prefix (λ e. n (concat_cancel a "" e)))

own_key :
    (cfg : Config) (a : String)
    → a ≢ ""
    → resolve_session_key cfg (gui_chat_open_id a) ≡ some (gui_chat_open_id a)
unfolding resolve_session_key
own_key cfg a n = rw (resolve_session_key, is_gui_chat a n) refl

unsome : (x y : String) → some x ≡ some y → x ≡ y
unsome x y e = ap or_oneshot e

-- A chat test has a session of its own in every mode, apart from those of the other chat tests.
pub gui_chat-own :
    (cfg : Config) (a b : String)
    → a ≢ ""
    → b ≢ ""
    → resolve_session_key cfg (gui_chat_open_id a) ≡ resolve_session_key cfg (gui_chat_open_id b)
    → a ≡ b
unfolding gui_chat_open_id
gui_chat-own cfg a b na nb e = concat_cancel a b (
    unsome (gui_chat_open_id a) (gui_chat_open_id b)
      (sym (own_key cfg a na) ∙ e ∙ own_key cfg b nb))
