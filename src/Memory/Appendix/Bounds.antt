-- ===== src/Memory/Appendix/Bounds.antt =====
-- When the service gives the engine a part about the user, and what it is.
use mathlib.Core.Path.{subst}
use yzj_bot_bridge.Prelude.{
  ℕ, ◌+◌, ◌≤◌, ◌<◌, String, ◌≡◌, refl, sym, ap, ◌∙◌, ◌≢◌, ◌⊎◌, inl, inr, Bool, true, false, not,
  ◌&&◌, ◌||◌, none, some, arith, eq_iff, leb, nat_eq, ◌==◌, if◌then◌else◌, Bool-cases, Option-cases,
  ==_of_ne, ==_of_eq, concat, rune_count, first_runes, rune_count-first_runes, rune_count-concat,
}
use yzj_bot_bridge.Memory.Eligible.{Settings, resolve_memory_open_id, should_inject, is_some}
use yzj_bot_bridge.Memory.Profiles.{Profile, Files, get}
use yzj_bot_bridge.Memory.Service.{Setup, memory_prompt_for}
use yzj_bot_bridge.Memory.Appendix.{
  Rendering, or_default, clip_runes, appendix_body, render_appendix,
}

-- The text of a profile, uncut.
abbrev pub whole : Rendering → Profile → String
unfolding concat
whole r p = concat "\n\n【用户记忆】\n" (appendix_body r p)

-- The profile of the user in the files, under the id that the memory is kept for.
pub record Theirs (su : Setup) (cfg : Settings) (open_id bind_id : String) (d : Files) (p : Profile)
    : Type 0 where
  pub id : String
  pub kept_for : resolve_memory_open_id cfg open_id bind_id ≡ some id
  pub stored : get su.letter id d ≡ some p

-- Why there is nothing to give.
pub data Withheld (su : Setup) (r : Rendering) (cfg : Settings) (open_id bind_id : String)
    (d : Files) : Type 0 where
  is_off : cfg.enabled ≡ false → Withheld su r cfg open_id bind_id d
  is_off_for_bot : cfg.bot_memory_enabled ≡ false → Withheld su r cfg open_id bind_id d
  no_user : resolve_memory_open_id cfg open_id bind_id ≡ none → Withheld su r cfg open_id bind_id d
  no_profile :
      (id : String)
      → resolve_memory_open_id cfg open_id bind_id ≡ some id
      → get su.letter id d ≡ none
      → Withheld su r cfg open_id bind_id d
  opted_out :
      (p : Profile)
      → Theirs su cfg open_id bind_id d p
      → p.opted_out ≡ true
      → Withheld su r cfg open_id bind_id d
  nothing_known :
      (p : Profile)
      → Theirs su cfg open_id bind_id d p
      → appendix_body r p ≡ ""
      → Withheld su r cfg open_id bind_id d

-- The text is that of the profile of the user, cut to the characters of the settings.
pub record Injected (su : Setup) (r : Rendering) (cfg : Settings) (open_id bind_id : String)
    (d : Files) (s : String) : Type 0 where
  pub enabled : cfg.enabled ≡ true
  pub enabled_for_bot : cfg.bot_memory_enabled ≡ true
  pub profile : Profile
  pub theirs : Theirs su cfg open_id bind_id d profile
  pub not_out : profile.opted_out ≡ false
  pub known : appendix_body r profile ≢ ""
  pub text : s ≡ clip_runes (whole r profile) (or_default r.appendix_runes 800)
  pub short : rune_count s ≤ or_default r.appendix_runes 800 + 1

or_default_pos : (n : ℕ) → 0 < or_default n 800
unfolding or_default
or_default_pos n = ground arith

pos_not_zero : (n : ℕ) → 0 < n → nat_eq n 0 ≡ false
pos_not_zero n h = ground (arith, h)

clip_of :
    (s : String) (max : ℕ)
    → 0 < max
    → clip_runes s max ≡ (if leb (rune_count s) max then s else concat (first_runes max s) "…")
unfolding clip_runes
clip_of s max h =
    ap (λ b. if b || leb (rune_count s) max then s else concat (first_runes max s) "…")
      (pos_not_zero max h)

clip_runes-length : (s : String) (max : ℕ) → 0 < max → rune_count (clip_runes s max) ≤ max + 1
unfolding rune_count
clip_runes-length s max h =
    subst (λ c. rune_count c ≤ max + 1) (sym (clip_of s max h)) (go (leb (rune_count s) max) refl)
  where
    go :
        (b : Bool)
        → leb (rune_count s) max ≡ b
        → rune_count (if b then s else concat (first_runes max s) "…") ≤ max + 1
    go true e = ground (arith, e)
    go false e =
        omega (arith, rune_count-concat (first_runes max s) "…", rune_count-first_runes max s)

rendered :
    (r : Rendering) (p : Profile)
    → p.opted_out ≡ false
    → appendix_body r p ≢ ""
    → render_appendix r p ≡ clip_runes (whole r p) (or_default r.appendix_runes 800)
unfolding render_appendix
rendered r p kept known =
    ap
      (λ b.
        if b || appendix_body r p == ""
        then ""
        else (if leb (rune_count (whole r p)) max
            then whole r p
            else concat (first_runes max (whole r p)) "…"))
      kept
    ∙ ap
        (λ b.
          if b
          then ""
          else (if leb (rune_count (whole r p)) max
              then whole r p
              else concat (first_runes max (whole r p)) "…"))
        (==_of_ne (appendix_body r p) "" known)
    ∙ sym (clip_of (whole r p) max (or_default_pos r.appendix_runes))
  where
    max : ℕ
    max = or_default r.appendix_runes 800

blank_body : (r : Rendering) (p : Profile) → appendix_body r p ≡ "" → render_appendix r p ≡ ""
unfolding render_appendix
blank_body r p blank = elim (Bool-cases p.opted_out) [
  | inl out ↦ rw (render_appendix, out) refl
  | inr kept ↦ rw (render_appendix, kept, ==_of_eq (appendix_body r p) "" blank) refl
]

out_blank : (r : Rendering) (p : Profile) → p.opted_out ≡ true → render_appendix r p ≡ ""
unfolding render_appendix
out_blank r p out = rw (render_appendix, out) refl

module _ (su : Setup) (r : Rendering) (cfg : Settings) (open_id bind_id : String) (d : Files) where
  -- Nothing is given, for a reason, or the text of the profile is.
  abbrev pub Given : String → Type 0
  Given s = ((s ≡ "") × Withheld su r cfg open_id bind_id d) ⊎ Injected su r cfg open_id bind_id d s

  profile-Given :
      (p : Profile)
      → cfg.enabled ≡ true
      → cfg.bot_memory_enabled ≡ true
      → Theirs su cfg open_id bind_id d p
      → Given (render_appendix r p)
  profile-Given p on on_for_bot theirs = elim (Bool-cases p.opted_out) [
    | inl out ↦ inl (out_blank r p out, opted_out p theirs out)
    | inr kept ↦ elim (Bool-cases (appendix_body r p == "")) [
      | inl blank ↦
          let e : appendix_body r p ≡ "" = (eq_iff (appendix_body r p) "").0 blank in
          inl (blank_body r p e, nothing_known p theirs e)
      | inr some_text ↦
          let known : appendix_body r p ≢ "" = ground (arith, eq_iff (appendix_body r p) "") in
          let e = rendered r p kept known in
          inr (record {
            enabled = on;
            enabled_for_bot = on_for_bot;
            profile = p;
            theirs = theirs;
            not_out = kept;
            known = known;
            text = e;
            short =
                subst (λ s. rune_count s ≤ or_default r.appendix_runes 800 + 1) (sym e)
                  (clip_runes-length (whole r p) (or_default r.appendix_runes 800)
                    (or_default_pos r.appendix_runes));
          })
    ]
  ]

  wants : Bool → Bool → Bool → Bool
  wants on on_for_bot out = on && on_for_bot && not out && true

  should_inject-wants :
      (id : String) (out : Bool)
      → resolve_memory_open_id cfg open_id bind_id ≡ some id
      → should_inject cfg open_id bind_id out ≡ wants cfg.enabled cfg.bot_memory_enabled out
  unfolding should_inject wants
  should_inject-wants id out e =
      ap (λ o. cfg.enabled && cfg.bot_memory_enabled && not out && is_some o) e

  stored-Given :
      (id : String) (p : Profile)
      → resolve_memory_open_id cfg open_id bind_id ≡ some id
      → get su.letter id d ≡ some p
      → Given (if should_inject cfg open_id bind_id p.opted_out then render_appendix r p else "")
  unfolding wants
  stored-Given id p e g =
      subst (λ c. Given (if c then render_appendix r p else ""))
        (sym (should_inject-wants id p.opted_out e))
        (go cfg.enabled cfg.bot_memory_enabled p.opted_out refl refl refl)
    where
      theirs : Theirs su cfg open_id bind_id d p
      theirs = record { id = id; kept_for = e; stored = g }

      go :
          (x y z : Bool)
          → cfg.enabled ≡ x
          → cfg.bot_memory_enabled ≡ y
          → p.opted_out ≡ z
          → Given (if x && y && not z && true then render_appendix r p else "")
      go false y z ex ey ez = inl (refl, is_off ex)
      go true false z ex ey ez = inl (refl, is_off_for_bot ey)
      go true true true ex ey ez = inl (refl, opted_out p theirs ez)
      go true true false ex ey ez = profile-Given p ex ey theirs

  -- The part of the prompt about the user is empty for one of six reasons: the memory is off, or off for
  -- the bot, it is kept for no user here, the user has no profile or has opted out, or the profile says
  -- nothing. Otherwise none of them holds, and it is the text of the profile of that user, cut to the
  -- characters of the settings (800 without one) and then with the mark of the cut.
  pub memory_prompt_for-Given :
      Given (memory_prompt_for su (render_appendix r) cfg open_id bind_id d)
  unfolding memory_prompt_for
  memory_prompt_for-Given = elim (Option-cases (resolve_memory_open_id cfg open_id bind_id)) [
    | inl e ↦ inl (rw (memory_prompt_for, e) refl, no_user e)
    | inr (id, e) ↦ elim (Option-cases (get su.letter id d)) [
      | inl g ↦ inl (rw (memory_prompt_for, e, g) refl, no_profile id e g)
      | inr (p, g) ↦ rw (memory_prompt_for, e, g) (stored-Given id p e g)
    ]
  ]
