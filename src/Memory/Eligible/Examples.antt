-- ===== src/Memory/Eligible/Examples.antt =====
-- Which ids the memory is kept for, at concrete ids.
use yzj_bot_bridge.Prelude.{◌≡◌, refl, true, some, trim_space, has_prefix}
use yzj_bot_bridge.Sessions.Keys.{is_gui_chat_open_id}
use yzj_bot_bridge.Memory.Eligible.{
  Settings, resolve_memory_open_id, Real, resolve_memory_open_id-Real,
}

abbrev bound : Settings
bound = record { enabled = true; gui_bind_enabled = true; bot_memory_enabled = true }

resolve_memory_open_id-Real_example : Real (resolve_memory_open_id bound "gui-chat:1" " u1 ")
resolve_memory_open_id-Real_example = resolve_memory_open_id-Real bound "gui-chat:1" " u1 "

the_id : resolve_memory_open_id bound "gui-chat:1" " u1 " ≡ some "u1"
unfolding resolve_memory_open_id trim_space has_prefix is_gui_chat_open_id
the_id = refl
