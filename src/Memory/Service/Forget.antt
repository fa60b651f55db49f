-- ===== src/Memory/Service/Forget.antt =====
-- What one call of HandleForget does to the files: it asks for another one, or it clears the memory.
use yzj_bot_bridge.Prelude.{
  ℕ, ◌+◌, ◌/◌, String, ◌≡◌, refl, ap, ◌∙◌, ◌≢◌, inl, inr, Bool, true, false, Option, none, some, [],
  eq_refl, ltb, ◌==◌, if◌then◌else◌, Bool-cases, Option-cases, ==_of_ne, put, put_self, concat,
  trim_space,
}
use yzj_bot_bridge.Memory.Profiles.{
  Profile, Files, sanitize_open_id, get_locked, get, get_or_create, save, forgotten, change_profile,
  list_turns, clear_turns, named_profile,
}
use yzj_bot_bridge.Memory.Service.{
  Setup, Forgot, forget_on, pending_sec, still_pending, clear_all, ask_again, after_forget,
  count_none, or_same,
}

unfoldable pub written : (ℕ → Bool) → String → Profile → Files → Files
written letter stamp p d = record d {
  profiles = put (sanitize_open_id letter p.open_id) (record p { updated_at = stamp }) d.profiles;
}

save-written :
    (letter : ℕ → Bool) (stamp : String) (p : Profile) (d : Files)
    → trim_space p.open_id ≡ p.open_id
    → p.open_id ≢ ""
    → save letter stamp p d ≡ some (written letter stamp p d)
unfolding save written
save-written letter stamp p d trimmed some_id = rw (trimmed, ==_of_ne p.open_id "" some_id) refl

get_locked-written :
    (letter : ℕ → Bool) (stamp : String) (p : Profile) (d : Files)
    → p.open_id ≢ ""
    → get_locked letter p.open_id (written letter stamp p d)
      ≡ some (record p { updated_at = stamp })
unfolding get_locked written named_profile
get_locked-written letter stamp p d some_id =
    rw
      (
        get_locked,
        put_self (sanitize_open_id letter p.open_id) (record p { updated_at = stamp }) d.profiles,
        ==_of_ne p.open_id "" some_id,
      )
      refl

pub get_or_create-written :
    (letter : ℕ → Bool) (stamp : String) (p : Profile) (d : Files)
    → trim_space p.open_id ≡ p.open_id
    → p.open_id ≢ ""
    → get_or_create letter p.open_id (written letter stamp p d)
      ≡ some (record p { updated_at = stamp })
unfolding get_or_create
get_or_create-written letter stamp p d trimmed some_id =
    rw (trimmed, ==_of_ne p.open_id "" some_id, get_locked-written letter stamp p d some_id) refl

pub list_turns-written :
    (letter : ℕ → Bool) (stamp id : String) (p : Profile) (d : Files)
    → list_turns letter id (written letter stamp p d) ≡ list_turns letter id d
unfolding list_turns written
list_turns-written letter stamp id p d = refl

-- Whether a call cleared the memory, and the files behind it.
abbrev pub cleared_of : Option Forgot → Bool
cleared_of none = false
cleared_of (some f) = f.cleared

abbrev pub files_of : Files → Option Forgot → Files
files_of d none = d
files_of d (some f) = f.files

-- The profile that waits for the second call.
abbrev pub waiting : Setup → Profile → Profile
waiting su p = record p { forget_pending_until = some (su.now + pending_sec su) }

unfoldable pub asked : Setup → Profile → Files → Forgot
unfolding concat
asked su p d = record {
  files = written su.letter su.stamp (waiting su p) d;
  reply = concat "再次发送 /forget 以确认清除记忆（" (
      concat (su.show (if ltb (pending_sec su / 60) 1 then 1 else pending_sec su / 60)) " 分钟内有效）。");
  cleared = false;
}

-- A call that finds no other call waiting.
pub forget_on-asked :
    (su : Setup) (p : Profile) (d : Files)
    → trim_space p.open_id ≡ p.open_id
    → p.open_id ≢ ""
    → still_pending su.now p.forget_pending_until ≡ false
    → forget_on su p.open_id d (some p) ≡ some (asked su p d)
unfolding forget_on ask_again asked
forget_on-asked su p d trimmed some_id idle =
    ap
      (λ b.
        if b
        then clear_all su p.open_id (change_profile su.letter su.stamp p.open_id forgotten d)
        else ask_again su (save su.letter su.stamp (waiting su p) d))
      idle
    ∙ ap (ask_again su) (save-written su.letter su.stamp (waiting su p) d trimmed some_id)

list_turns-save :
    (letter : ℕ → Bool) (stamp id : String) (p : Profile) (d : Files)
    → list_turns letter id (or_same d (save letter stamp p d)) ≡ list_turns letter id d
unfolding save or_same list_turns
list_turns-save letter stamp id p d = elim (Bool-cases (trim_space p.open_id == "")) [
  | inl blank ↦ rw (save, blank) refl
  | inr kept ↦ rw (save, kept) refl
]

list_turns-count_none :
    (su : Setup) (id : String) (d : Files)
    → list_turns su.letter id (count_none su id d) ≡ list_turns su.letter id d
unfolding count_none
list_turns-count_none su id d = elim (Option-cases (get su.letter id d)) [
  | inl e ↦ rw (count_none, e) refl
  | inr (p, e) ↦
      rw (count_none, e) (list_turns-save su.letter su.stamp id (record p { profiled_count = 0 }) d)
]

list_turns-clear_turns :
    (letter : ℕ → Bool) (id : String) (d : Files)
    → trim_space id ≡ id
    → id ≢ ""
    → list_turns letter id (or_same d (clear_turns letter id d)) ≡ []
unfolding clear_turns list_turns or_same
list_turns-clear_turns letter id d trimmed some_id =
    rw (clear_turns, trimmed, ==_of_ne id "" some_id, eq_refl (sanitize_open_id letter id)) refl

pub list_turns-after_forget :
    (su : Setup) (id : String) (d : Files)
    → trim_space id ≡ id
    → id ≢ ""
    → list_turns su.letter id (after_forget su id d) ≡ []
unfolding after_forget
list_turns-after_forget su id d trimmed some_id =
    list_turns-count_none su id (or_same d (clear_turns su.letter id d))
    ∙ list_turns-clear_turns su.letter id d trimmed some_id

change_profile-written :
    (letter : ℕ → Bool) (stamp : String) (p : Profile) (d : Files)
    → trim_space p.open_id ≡ p.open_id
    → p.open_id ≢ ""
    → get_or_create letter p.open_id d ≡ some p
    → change_profile letter stamp p.open_id forgotten d
      ≡ some (written letter stamp (forgotten p) d)
unfolding change_profile forgotten
change_profile-written letter stamp p d trimmed some_id there =
    rw (change_profile, there) (save-written letter stamp (forgotten p) d trimmed some_id)

-- A call that finds another one waiting.
pub forget_on-cleared :
    (su : Setup) (p : Profile) (d : Files)
    → trim_space p.open_id ≡ p.open_id
    → p.open_id ≢ ""
    → get_or_create su.letter p.open_id d ≡ some p
    → still_pending su.now p.forget_pending_until ≡ true
    → forget_on su p.open_id d (some p)
      ≡ some (record {
        files = after_forget su p.open_id (written su.letter su.stamp (forgotten p) d);
        reply = "已清除你的用户记忆档案。";
        cleared = true;
      })
unfolding forget_on clear_all change_profile forgotten
forget_on-cleared su p d trimmed some_id there pending =
    ap
      (λ b.
        if b
        then clear_all su p.open_id (change_profile su.letter su.stamp p.open_id forgotten d)
        else ask_again su (save su.letter su.stamp (waiting su p) d))
      pending
    ∙ ap (clear_all su p.open_id)
        (change_profile-written su.letter su.stamp p d trimmed some_id there)

pub get-written :
    (letter : ℕ → Bool) (stamp : String) (p : Profile) (d : Files)
    → trim_space p.open_id ≡ p.open_id
    → p.open_id ≢ ""
    → get letter p.open_id (written letter stamp p d) ≡ some (record p { updated_at = stamp })
unfolding get
get-written letter stamp p d trimmed some_id =
    rw (trimmed, ==_of_ne p.open_id "" some_id, get_locked-written letter stamp p d some_id) refl

get-clear_turns :
    (letter : ℕ → Bool) (id : String) (d : Files)
    → get letter id (or_same d (clear_turns letter id d)) ≡ get letter id d
unfolding clear_turns get get_locked or_same
get-clear_turns letter id d = elim (Bool-cases (trim_space id == "")) [
  | inl blank ↦ rw (clear_turns, blank) refl
  | inr named ↦ rw (clear_turns, named) refl
]

get-count_none :
    (su : Setup) (p : Profile) (d : Files)
    → trim_space p.open_id ≡ p.open_id
    → p.open_id ≢ ""
    → get su.letter p.open_id d ≡ some p
    → get su.letter p.open_id (count_none su p.open_id d)
      ≡ some (record p { profiled_count = 0; updated_at = su.stamp })
unfolding count_none or_same
get-count_none su p d trimmed some_id there =
    let p' : Profile = record p { profiled_count = 0 } in
    rw (count_none, there, save-written su.letter su.stamp p' d trimmed some_id)
      (get-written su.letter su.stamp p' d trimmed some_id)

pub get-after_forget :
    (su : Setup) (p : Profile) (d : Files)
    → trim_space p.open_id ≡ p.open_id
    → p.open_id ≢ ""
    → get su.letter p.open_id (after_forget su p.open_id (written su.letter su.stamp p d))
      ≡ some (record p { profiled_count = 0; updated_at = su.stamp })
unfolding after_forget
get-after_forget su p d trimmed some_id =
    get-count_none su (record p { updated_at = su.stamp })
      (or_same (written su.letter su.stamp p d)
        (clear_turns su.letter p.open_id (written su.letter su.stamp p d)))
      trimmed some_id
      (get-clear_turns su.letter p.open_id (written su.letter su.stamp p d)
        ∙ get-written su.letter su.stamp p d trimmed some_id)
