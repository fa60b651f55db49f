-- ===== src/Memory/Eligible.antt =====
-- internal/memory/eligible.go: which id the memory is kept for, and which turns.
pub mod Examples
use yzj_bot_bridge.Sessions.Keys.{is_gui_chat_open_id}
use yzj_bot_bridge.Prelude.{
  String, ◌≡◌, refl, ◌≢◌, Bool, true, false, not, ◌&&◌, ◌||◌, Option, none, some, arith, eq_iff,
  ◌==◌, if◌then◌else◌, trim_space, equal_fold, has_prefix,
}

-- What is read of the settings, and of those of the bot.
pub record Settings : Type 0 where
  pub enabled : Bool
  pub gui_bind_enabled : Bool
  pub bot_memory_enabled : Bool

-- IsCompletePair
unfoldable pub is_complete_pair : String → String → Bool
is_complete_pair status reply =
    let text = trim_space reply in
    equal_fold (trim_space status) "ok" && not (text == "" || has_prefix text "(空回复")

-- ResolveMemoryOpenID on trimmed ids; `none` is the answer false.
resolve_trimmed : Bool → String → String → Option String
unfolding is_gui_chat_open_id
resolve_trimmed gui_bind_enabled open_id bind_id =
    let bound = if bind_id == "" || is_gui_chat_open_id bind_id then none else some bind_id in
    if open_id == "" && bind_id == ""
    then none
    else (if is_gui_chat_open_id open_id
        then (if gui_bind_enabled then bound else none)
        else (if open_id == "" then none else some open_id))

-- ResolveMemoryOpenID
unfoldable pub resolve_memory_open_id : Settings → String → String → Option String
unfolding resolve_trimmed
resolve_memory_open_id cfg open_id bind_id =
    resolve_trimmed cfg.gui_bind_enabled (trim_space open_id) (trim_space bind_id)

abbrev pub is_some : Option String → Bool
is_some none = false
is_some (some id) = true

-- ShouldInject
unfoldable pub should_inject : Settings → String → String → Bool → Bool
unfolding resolve_memory_open_id
should_inject cfg open_id bind_id opted_out =
    cfg.enabled
    && cfg.bot_memory_enabled
    && not opted_out
    && is_some (resolve_memory_open_id cfg open_id bind_id)

-- ShouldRecord
unfoldable pub should_record : Settings → String → String → Bool → String → String → Bool
unfolding resolve_memory_open_id is_complete_pair
should_record cfg open_id bind_id opted_out status reply =
    cfg.enabled
    && cfg.bot_memory_enabled
    && not opted_out
    && is_some (resolve_memory_open_id cfg open_id bind_id)
    && is_complete_pair status reply

-- An id that the memory is kept for is not empty and no chat test.
abbrev pub Real : Option String → Type 0
Real none = Unit
Real (some id) = (id ≢ "") × (is_gui_chat_open_id id ≡ false)

resolve_trimmed-Real :
    (b : Bool) (open_id bind_id : String) → Real (resolve_trimmed b open_id bind_id)
unfolding resolve_trimmed
resolve_trimmed-Real b open_id bind_id =
    go (open_id == "") (bind_id == "") (is_gui_chat_open_id open_id) (is_gui_chat_open_id bind_id) b
      refl refl refl refl
  where
    ne_of : (s : String) → (s == "") ≡ false → s ≢ ""
    ne_of s h = ground (arith, eq_iff s "")

    go :
        (x y g h b : Bool)
        → (open_id == "") ≡ x
        → (bind_id == "") ≡ y
        → is_gui_chat_open_id open_id ≡ g
        → is_gui_chat_open_id bind_id ≡ h
        → Real (
            if x && y
            then none
            else (if g
                then (if b then (if y || h then none else some bind_id) else none)
                else (if x then none else some open_id)))
    go true true g h b ex ey eg eh = tt
    go true false true true true ex ey eg eh = tt
    go true false true false true ex ey eg eh = (ne_of bind_id ey, eh)
    go true false true h false ex ey eg eh = tt
    go true false false h b ex ey eg eh = tt
    go false true true h true ex ey eg eh = tt
    go false false true true true ex ey eg eh = tt
    go false false true false true ex ey eg eh = (ne_of bind_id ey, eh)
    go false y true h false ex ey eg eh = tt
    go false y false h b ex ey eg eh = (ne_of open_id ex, eg)

-- Whatever the ids are, one that ResolveMemoryOpenID gives is not empty and no chat test, so that
-- chat tests leave no profile of their own.
pub resolve_memory_open_id-Real :
    (cfg : Settings) (open_id bind_id : String) → Real (resolve_memory_open_id cfg open_id bind_id)
unfolding resolve_memory_open_id
resolve_memory_open_id-Real cfg open_id bind_id =
    resolve_trimmed-Real cfg.gui_bind_enabled (trim_space open_id) (trim_space bind_id)

-- A turn is recorded exactly if the memory of its user may be used at all and the turn is complete;
-- nobody who opted out is recorded.
pub should_record-Allowed :
    (cfg : Settings) (open_id bind_id : String) (opted_out : Bool) (status reply : String)
    → (should_record cfg open_id bind_id opted_out status reply
        ≡ (should_inject cfg open_id bind_id opted_out && is_complete_pair status reply))
      × (should_record cfg open_id bind_id true status reply ≡ false)
unfolding should_record should_inject
should_record-Allowed cfg open_id bind_id opted_out status reply = (ground arith, ground arith)
