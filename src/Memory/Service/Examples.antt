-- ===== src/Memory/Service/Examples.antt =====
-- The service of the memory on a user of the example.
use yzj_bot_bridge.Prelude.{
  ◌≡◌, refl, ◌≢◌, true, false, none, some, arith, eq_iff, empty_dict, put, trim_space, has_prefix,
}
use yzj_bot_bridge.Memory.Profiles.{
  Files, Profile, get_locked, get_or_create, no_files, new_profile,
}
use yzj_bot_bridge.Memory.Show.{format_show}
use yzj_bot_bridge.Memory.Eligible.{Settings}
use yzj_bot_bridge.Memory.Appendix.{Rendering, render_appendix}
use yzj_bot_bridge.Memory.Appendix.Bounds.{Given, memory_prompt_for-Given}
use yzj_bot_bridge.Memory.Service.{memory_prompt_for, Setup, handle_forget}
use yzj_bot_bridge.Memory.Service.Forget.{files_of}
use yzj_bot_bridge.Memory.Service.Twice.{First, Second, at_time, forget_twice}

abbrev setup : Setup
setup = record {
  letter = λ c. false;
  strip = λ s. s;
  show = λ n. "5";
  forget_pending_sec = 0;
  after_turns = 3;
  now = 10;
  stamp = "10";
}

abbrev user : Profile
user = new_profile "u1"

user_trimmed : trim_space user.open_id ≡ user.open_id
unfolding trim_space
user_trimmed = refl

user_named : user.open_id ≢ ""
user_named = ground (arith, eq_iff "u1" "")

user_found : get_or_create setup.letter user.open_id no_files ≡ some user
unfolding get_or_create get_locked trim_space
user_found = refl

forget_twice_example :
    First setup user no_files (handle_forget setup user.open_id no_files)
    × Second setup
        (at_time 20 "20" setup)
        user
        no_files
        (files_of no_files (handle_forget setup user.open_id no_files))
        (handle_forget
          (at_time 20 "20" setup)
          user.open_id
          (files_of no_files (handle_forget setup user.open_id no_files)))
forget_twice_example =
    forget_twice setup 20 "20" user no_files user_trimmed user_named user_found refl

abbrev rendering : Rendering
rendering = record {
  appendix_runes = 12;
  style_runes = 0;
  donts_max = 0;
  fact_cards_enabled = false;
  fact_cards_max = 0;
  strip = λ s. s;
  contains_pii = λ s. false;
  parse = λ s. none;
  now = 10;
}

abbrev settings : Settings
settings = record { enabled = true; gui_bind_enabled = false; bot_memory_enabled = true }

abbrev stored : Files
stored = record no_files {
  profiles = put "u1" (record user { display_name = "the user of the example" }) empty_dict;
}

memory_prompt_for-Given_example :
    Given setup rendering settings "u1" "" stored
      (memory_prompt_for setup (render_appendix rendering) settings "u1" "" stored)
memory_prompt_for-Given_example = memory_prompt_for-Given setup rendering settings "u1" "" stored

the_prompt :
    memory_prompt_for setup (render_appendix rendering) settings "u1" "" stored ≡ "\n\n【用户记忆】\n称呼参…"
unfolding memory_prompt_for render_appendix has_prefix
the_prompt = refl

the_answer :
    format_show setup.show setup.letter stored "u1"
    ≡ "open_id=u1\ndisplay_name=the user of the example\nturns=5 profiled=5"
unfolding format_show has_prefix
the_answer = refl
