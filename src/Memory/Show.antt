-- ===== src/Memory/Show.antt =====
-- FormatShow of internal/memory/service.go, the answer to the command that shows the memory of a user.
use yzj_bot_bridge.Prelude.{
  ℕ, String, Bool, none, some, nat_eq, ◌==◌, if◌then◌else◌, length, concat, trim_space,
}
use yzj_bot_bridge.Memory.Profiles.{Field, Profile, Files, get, list_turns}
use yzj_bot_bridge.Memory.Appendix.{effective, effective_list, clip_runes, join_with}

-- writeShowField
unfoldable pub show_field : String → Field → String
unfolding effective concat trim_space
show_field name f =
    let v = effective f in
    let src = if trim_space f.manual == "" then "inferred" else "manual" in
    let lock = if f.locked then " locked" else "" in
    if v == ""
    then ""
    else concat name (concat "(" (concat src (concat lock (concat ")=" (concat v "\n")))))

show_line : String → String → String
unfolding concat
show_line name v = if v == "" then "" else concat name (concat "=" (concat v "\n"))

-- What FormatShow writes of a profile, with the number of the turns
unfoldable pub show_profile : (ℕ → String) → ℕ → Profile → String
unfolding show_field show_line effective effective_list clip_runes join_with concat trim_space
show_profile show turns p =
    let donts = effective_list p.donts in
    trim_space (
      concat (if p.opted_out then "记忆已关闭（/memory off）。\n" else "") (
        concat (concat "open_id=" (concat p.open_id "\n")) (
          concat (show_line "display_name" p.display_name) (
            concat (show_field "how_to_address" p.how_to_address) (
              concat (show_field "role" p.role) (
                concat (show_field "ask_style" p.ask_style) (
                  concat (show_field "reply_style" p.reply_style) (
                    concat
                      (if nat_eq (length donts) 0
                        then ""
                        else concat "donts=" (concat (join_with "; " donts) "\n"))
                      (concat (show_line "notes" (clip_runes (effective p.notes) 200)) (
                        concat "turns=" (
                          concat (show turns)
                            (concat " profiled=" (concat (show p.profiled_count) "\n")))))))))))))

-- FormatShow, with TurnCount
unfoldable pub format_show : (ℕ → String) → (ℕ → Bool) → Files → String → String
unfolding show_profile get list_turns concat
format_show show letter d open_id =
    let n = length (list_turns letter open_id d) in
    elim (get letter open_id d) [
      | none ↦ if nat_eq n 0 then "暂无用户记忆档案。" else concat "尚无画像字段；已记录完成问答对 " (concat (show n) "。")
      | some p ↦ show_profile show n p
    ]
