-- ===== src/Memory/Service/Twice.antt =====
-- The two calls that clear the memory of a user.
use mathlib.Core.Path.{subst}
use yzj_bot_bridge.Prelude.{
  ℕ, ◌+◌, String, ◌≡◌, refl, sym, ap, ◌∙◌, ◌≢◌, Bool, true, false, Option, none, some, [], ltb,
  if◌then◌else◌, trim_space,
}
use yzj_bot_bridge.Memory.Profiles.{
  Profile, Files, get, get_or_create, forgotten, new_profile, list_turns,
}
use yzj_bot_bridge.Memory.Service.{
  Setup, Forgot, handle_forget, forget_on, pending_sec, still_pending, after_forget,
}
use yzj_bot_bridge.Memory.Service.Forget.{
  written, cleared_of, files_of, waiting, asked, get-written, get-after_forget,
  get_or_create-written, list_turns-written, list_turns-after_forget, forget_on-asked,
  forget_on-cleared,
}

-- The same time, some time later.
abbrev pub at_time : ℕ → String → Setup → Setup
at_time now stamp su = record su { now = now; stamp = stamp }

-- What is left of a profile that is forgotten: a new one of that user, but for when and by which bots the
-- user was seen, whether the user has opted out, and when the profile was made.
abbrev pub emptied : String → Profile → Profile
emptied stamp p = record (new_profile p.open_id) {
  last_seen = p.last_seen;
  bots_seen = p.bots_seen;
  opted_out = p.opted_out;
  last_profile_at = p.last_profile_at;
  updated_at = stamp;
}

-- A profile that waits for another call until a time, and has all else that it had.
abbrev pub until : ℕ → String → Profile → Profile
until t stamp p = record p { forget_pending_until = some t; updated_at = stamp }

-- What a call answers for a profile that waits since another call.
pub record Second (su su' : Setup) (p : Profile) (d d1 : Files) (r : Option Forgot) : Type 0 where
  pub answers : cleared_of r ≡ ltb su'.now (su.now + pending_sec su)
  pub turns :
      list_turns su.letter p.open_id (files_of d1 r)
      ≡ (if ltb su'.now (su.now + pending_sec su) then [] else list_turns su.letter p.open_id d)
  pub profile :
      get su.letter p.open_id (files_of d1 r)
      ≡ some (
          if ltb su'.now (su.now + pending_sec su)
          then emptied su'.stamp p
          else until (su'.now + pending_sec su) su'.stamp p)

waiting-Second :
    (su : Setup) (now : ℕ) (stamp : String) (p : Profile) (d : Files)
    → trim_space p.open_id ≡ p.open_id
    → p.open_id ≢ ""
    → Second su (at_time now stamp su) p d (written su.letter su.stamp (waiting su p) d) (
        handle_forget
          (at_time now stamp su)
          p.open_id
          (written su.letter su.stamp (waiting su p) d))
unfolding handle_forget still_pending asked forgotten
waiting-Second su now stamp p d trimmed some_id =
    subst (λ o. Second su su' p d d1 (forget_on su' p.open_id d1 o)) (sym there)
      (go (ltb now (su.now + pending_sec su)) refl)
  where
    su' : Setup
    su' = at_time now stamp su

    d1 : Files
    d1 = written su.letter su.stamp (waiting su p) d

    q : Profile
    q = until (su.now + pending_sec su) su.stamp p

    there : get_or_create su.letter p.open_id d1 ≡ some q
    there = get_or_create-written su.letter su.stamp (waiting su p) d trimmed some_id

    left : (b : Bool) → Profile
    left b = if b then emptied stamp p else until (now + pending_sec su) stamp p

    emptied_left :
        get su.letter p.open_id
          (after_forget su' p.open_id (written su.letter stamp (forgotten q) d1))
        ≡ some (emptied stamp p)
    emptied_left = get-after_forget su' (forgotten q) d1 trimmed some_id

    go :
        (b : Bool)
        → ltb now (su.now + pending_sec su) ≡ b
        → Second su su' p d d1 (forget_on su' p.open_id d1 (some q))
    go true e =
        subst (Second su su' p d d1) (sym (forget_on-cleared su' q d1 trimmed some_id there e))
          (record {
            answers = sym e;
            turns =
                list_turns-after_forget su' p.open_id _ trimmed some_id
                ∙ ap (λ b. if b then [] else list_turns su.letter p.open_id d) (sym e);
            profile = emptied_left ∙ ap (λ b. some (left b)) (sym e);
          })
    go false e =
        subst (Second su su' p d d1) (sym (forget_on-asked su' q d1 trimmed some_id e)) (record {
          answers = sym e;
          turns =
              list_turns-written su.letter stamp p.open_id (waiting su' q) d1
              ∙ list_turns-written su.letter su.stamp p.open_id (waiting su p) d
              ∙ ap (λ b. if b then [] else list_turns su.letter p.open_id d) (sym e);
          profile =
              get-written su.letter stamp (waiting su' q) d1 trimmed some_id
              ∙ ap (λ b. some (left b)) (sym e);
        })

first_call :
    (su : Setup) (p : Profile) (d : Files)
    → trim_space p.open_id ≡ p.open_id
    → p.open_id ≢ ""
    → get_or_create su.letter p.open_id d ≡ some p
    → p.forget_pending_until ≡ none
    → handle_forget su p.open_id d ≡ some (asked su p d)
unfolding handle_forget still_pending
first_call su p d trimmed some_id there idle =
    ap (forget_on su p.open_id d) there
    ∙ forget_on-asked su p d trimmed some_id (ap (still_pending su.now) idle)

-- What the first call answers.
pub record First (su : Setup) (p : Profile) (d : Files) (r : Option Forgot) : Type 0 where
  pub keeps : cleared_of r ≡ false
  pub same_turns : list_turns su.letter p.open_id (files_of d r) ≡ list_turns su.letter p.open_id d
  pub waits :
      get su.letter p.open_id (files_of d r) ≡ some (until (su.now + pending_sec su) su.stamp p)

-- The first call for a user whose profile waits for none clears nothing and makes the profile wait. The
-- second one, at any later time, if it comes within the pending time of the settings, leaves no turns
-- of the user, and of the profile no more than when and by which bots the user was seen, whether the
-- user has opted out and when the profile was made; otherwise it leaves the turns and all else in the
-- profile as they were, and waits again. The id is trimmed and is that of the profile.
pub forget_twice :
    (su : Setup) (now : ℕ) (stamp : String) (p : Profile) (d : Files)
    → trim_space p.open_id ≡ p.open_id
    → p.open_id ≢ ""
    → get_or_create su.letter p.open_id d ≡ some p
    → p.forget_pending_until ≡ none
    → First su p d (handle_forget su p.open_id d)
      × Second su (at_time now stamp su) p d (files_of d (handle_forget su p.open_id d)) (
          handle_forget
            (at_time now stamp su)
            p.open_id
            (files_of d (handle_forget su p.open_id d)))
unfolding asked
forget_twice su now stamp p d trimmed some_id there idle =
    subst
      (λ r.
        First su p d r
        × Second su (at_time now stamp su) p d (files_of d r)
            (handle_forget (at_time now stamp su) p.open_id (files_of d r)))
      (sym (first_call su p d trimmed some_id there idle))
      (
        record {
          keeps = refl;
          same_turns = list_turns-written su.letter su.stamp p.open_id (waiting su p) d;
          waits = get-written su.letter su.stamp (waiting su p) d trimmed some_id;
        },
        waiting-Second su now stamp p d trimmed some_id,
      )
