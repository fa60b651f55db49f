-- ===== src/Memory/Service.antt =====
-- internal/memory/service.go: the service of the memory that the dispatcher and the orchestrator call.
-- `letter`, `strip` and the texts of the times are those of Memory/Profiles; what MemoryPromptFor renders
-- a profile with is an argument, for which Memory/Appendix has RenderAppendix.
pub mod Forget
pub mod Twice
pub mod Examples
use yzj_bot_bridge.Prelude.{
  ℕ, ◌+◌, ◌/◌, String, inl, inr, Bool, true, false, ◌||◌, Option, none, some, List, [], ◌∷◌, ◌++◌,
  ltb, leb, nat_eq, ◌==◌, if◌then◌else◌, length, concat, trim_space,
}
use yzj_bot_bridge.Memory.Eligible.{Settings, resolve_memory_open_id, should_inject, should_record}
use yzj_bot_bridge.Memory.Profiles.{
  Field, StringListField, Profile, Turn, Files, get, get_or_create, save, forgotten, change_profile,
  list_turns, append_turn, unprofiled_turns, clear_turns,
}
use yzj_bot_bridge.Inbound.Types.{MemoryService}
use yzj_bot_bridge.Memory.Show.{format_show}

-- What the service goes by: the arguments of the store, the settings, and the time of a call in seconds
-- and as text.
pub record Setup : Type 0 where
  pub letter : ℕ → Bool
  pub strip : String → String
  pub show : ℕ → String
  pub forget_pending_sec : ℕ
  pub after_turns : ℕ
  pub now : ℕ
  pub stamp : String

-- MemoryPromptFor
unfoldable pub memory_prompt_for :
    Setup → (Profile → String) → Settings → String → String → Files → String
unfolding resolve_memory_open_id get should_inject
memory_prompt_for su render cfg open_id bind_id d =
    elim (resolve_memory_open_id cfg open_id bind_id) [
      | none ↦ ""
      | some mem_id ↦ elim (get su.letter mem_id d) [
        | none ↦ ""
        | some p ↦ if should_inject cfg open_id bind_id p.opted_out then render p else ""
      ]
    ]

has_text : List String → String → Bool
has_text [] v = false
has_text (x ∷ xs) v = x == v || has_text xs v

-- addUnique
unfoldable pub add_unique : List String → String → List String
unfolding has_text trim_space
add_unique l v = let t = trim_space v in if t == "" || has_text l t then l else l ++ t ∷ []

-- The profile after a recorded turn
unfoldable pub touched : String → String → String → Profile → Profile
unfolding add_unique trim_space
touched stamp bot_id name p = record p {
  last_seen = stamp;
  display_name = if trim_space name == "" then p.display_name else trim_space name;
  bots_seen = add_unique p.bots_seen bot_id;
}

unfoldable pub or_same : Files → Option Files → Files
or_same d none = d
or_same d (some d') = d'

-- The turn is recorded; the Boolean says whether a profile job is asked for.
record_turn : Setup → String → String → Turn → Profile → Files → Files × Bool
unfolding append_turn touched save unprofiled_turns or_same
record_turn su mem_id name t p d = elim (append_turn su.letter su.strip su.stamp mem_id t d) [
  | none ↦ (d, false)
  | some d1 ↦
      let d2 = or_same d1 (save su.letter su.stamp (touched t.ts t.bot_id name p) d1) in
      (d2, leb su.after_turns (length (unprofiled_turns su.letter mem_id p.profiled_count d2)))
]

record_for :
    Setup
    → Settings
    → String
    → String
    → String
    → Turn
    → String
    → String
    → Files
    → Option Profile
    → Files × Bool
unfolding should_record record_turn
record_for su cfg open_id bind_id name t status mem_id d none = (d, false)
record_for su cfg open_id bind_id name t status mem_id d (some p) =
    if should_record cfg open_id bind_id p.opted_out status t.assistant
    then record_turn su mem_id name t p d
    else (d, false)

-- AfterDispatch, for the turn that the dispatch made; a profile that is opted out records nothing
unfoldable pub after_dispatch :
    Setup → Settings → String → String → String → Turn → String → Files → Files × Bool
unfolding resolve_memory_open_id get_or_create record_for
after_dispatch su cfg open_id bind_id name t status d =
    elim (resolve_memory_open_id cfg open_id bind_id) [
      | none ↦ (d, false)
      | some mem_id ↦
          record_for su cfg open_id bind_id name t status mem_id d
            (get_or_create su.letter mem_id d)
    ]

-- SetOptOut; none is its error
unfoldable pub set_opt_out : Setup → String → Bool → Files → Option Files
unfolding change_profile
set_opt_out su open_id out d =
    change_profile su.letter su.stamp open_id (λ p. record p { opted_out = out }) d

unfoldable pub pending_sec : Setup → ℕ
pending_sec su = if nat_eq su.forget_pending_sec 0 then 300 else su.forget_pending_sec

-- Whether a forget waits for its second call
unfoldable pub still_pending : ℕ → Option ℕ → Bool
still_pending now none = false
still_pending now (some until) = ltb now until

-- A profile whose turns are gone
unfoldable pub count_none : Setup → String → Files → Files
unfolding get save or_same
count_none su open_id d = elim (get su.letter open_id d) [
  | none ↦ d
  | some p ↦ or_same d (save su.letter su.stamp (record p { profiled_count = 0 }) d)
]

-- What the second call does behind Forget: ClearTurns, and the count of the profile.
unfoldable pub after_forget : Setup → String → Files → Files
unfolding clear_turns count_none or_same
after_forget su open_id d = count_none su open_id (or_same d (clear_turns su.letter open_id d))

-- A call of HandleForget: the files, the reply and whether the memory was cleared.
pub record Forgot : Type 0 where
  pub files : Files
  pub reply : String
  pub cleared : Bool

unfoldable pub ask_again : Setup → Option Files → Option Forgot
unfolding pending_sec concat
ask_again su none = none
ask_again su (some d) =
    let mins = pending_sec su / 60 in
    some (record {
      files = d;
      reply =
          concat "再次发送 /forget 以确认清除记忆（"
            (concat (su.show (if ltb mins 1 then 1 else mins)) " 分钟内有效）。");
      cleared = false;
    })

unfoldable pub clear_all : Setup → String → Option Files → Option Forgot
unfolding after_forget
clear_all su open_id none = none
clear_all su open_id (some d) =
    some (record { files = after_forget su open_id d; reply = "已清除你的用户记忆档案。"; cleared = true })

-- HandleForget on the profile of the user; none is an error
unfoldable pub forget_on : Setup → String → Files → Option Profile → Option Forgot
unfolding still_pending clear_all change_profile ask_again save pending_sec
forget_on su open_id d none = none
forget_on su open_id d (some p) =
    if still_pending su.now p.forget_pending_until
    then clear_all su open_id (change_profile su.letter su.stamp open_id forgotten d)
    else ask_again su (
        save su.letter su.stamp (record p { forget_pending_until = some (su.now + pending_sec su) })
          d)

-- HandleForget
unfoldable pub handle_forget : Setup → String → Files → Option Forgot
unfolding forget_on get_or_create
handle_forget su open_id d = forget_on su open_id d (get_or_create su.letter open_id d)

-- The service that the dispatcher calls. Its error is that of GetOrCreate; the other one, of Save, is met
-- only where a file names a blank user.
unfoldable pub service : Setup → MemoryService Files
unfolding set_opt_out handle_forget format_show
service su = record {
  set_opt_out = λ d open_id out. elim (set_opt_out su open_id out d) [
    | none ↦ (d, some "empty open_id")
    | some d' ↦ (d', none)
  ];
  format_show = format_show su.show su.letter;
  handle_forget = λ d open_id. elim (handle_forget su open_id d) [
    | none ↦ (d, inl "empty open_id")
    | some f ↦ (f.files, inr f.reply)
  ];
}
