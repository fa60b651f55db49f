-- ===== src/YzjOut/Replies.antt =====
-- internal/yzjout/yzjout.go: the texts of the replies. A number in decimal is an argument.
use yzj_bot_bridge.Prelude.{
  ℕ, ◌+◌, ◌≤◌, ◌<◌, String, ◌≡◌, refl, ◌≢◌, inl, inr, Bool, true, false, not, ◌||◌, List, [], ◌∷◌,
  arith, eq_iff, ltb, leb, nat_eq, ◌==◌, if◌then◌else◌, Bool-cases, length, concat, trim_space,
  trim_prefix, join_fields, rune_count, first_runes, rune_count-first_runes, rune_count-concat,
}
use yzj_bot_bridge.YzjOut.Collapse.{collapse_repeated_reply}
use yzj_bot_bridge.Jobs.Types.{Item, Snapshot}

-- FormatCompletionReply
unfoldable pub format_completion_reply : String → String → String → Bool → String
unfolding trim_prefix collapse_repeated_reply
format_completion_reply body0 open_id name mention =
    let b1 = trim_space (trim_prefix (collapse_repeated_reply body0) (concat "@" name)) in
    let body = trim_space (trim_prefix b1 "任务已完成") in
    if not mention
    then body
    else (if not (open_id == "")
        then concat "任务已完成\n\n" body
        else (if not (name == "")
            then concat "@" (concat name (concat " 任务已完成\n\n" body))
            else body))

-- FormatQueuePosition
unfoldable pub format_queue_position : (ℕ → String) → ℕ → String
format_queue_position show position =
    concat "正在处理之前的问题，你的问题排在第" (concat (show (if ltb position 1 then 1 else position)) "位")

-- FormatStopAck
unfoldable pub format_stop_ack : Bool → String
format_stop_ack true = "已中断当前任务"
format_stop_ack false = "当前没有正在执行的任务"

-- jobWho
unfoldable pub job_who : String → String → String
job_who name open_id =
    if not (trim_space name == "")
    then trim_space name
    else (if not (trim_space open_id == "") then trim_space open_id else "未知用户")

-- clipJobText; that a carriage return is a space already makes the replacement idle.
unfoldable pub clip_job_text : String → ℕ → String
clip_job_text s max =
    let text = join_fields s in
    if text == ""
    then "（无内容）"
    else (if nat_eq max 0 || leb (rune_count text) max
        then text
        else concat (first_runes max text) "…")

module _ {P : Type 0} where
  -- The waiting part of FormatJobList, with the number of the first entry.
  unfoldable pub queue_lines : (ℕ → String) → ℕ → List (Item P) → String
  unfolding job_who clip_job_text
  queue_lines show i [] = ""
  queue_lines show i (it ∷ its) =
      let line = concat (show i) (
        concat ". "
          (concat (job_who it.name it.open_id) (concat "：" (clip_job_text it.content 80)))) in
      elim its [ [] ↦ line | it' ∷ rest ↦ concat line (concat "\n" (queue_lines show (i + 1) its)) ]

  -- FormatJobList
  unfoldable pub format_job_list : (ℕ → String) → Snapshot P → String
  unfolding queue_lines
  format_job_list show snap =
      let extra = trim_space snap.extra in
      let supplement = if extra == "" then "" else concat "\n补充：" (clip_job_text extra 80) in
      let waiting : String = elim snap.queue [
        | [] ↦ "：无"
        | it ∷ its ↦
            concat "（"
              (concat (show (length snap.queue)) (concat "）\n" (queue_lines show 1 snap.queue)))
      ] in
      if snap.current.open_id == ""
      then "当前没有正在执行或排队的任务"
      else concat "当前任务\n执行中：" (
          concat (job_who snap.current.name snap.current.open_id) (
            concat "\n内容：" (
              concat (clip_job_text snap.current.content 80)
                (concat supplement (concat "\n\n待执行" waiting)))))

-- FormatInterruptReply
unfoldable pub format_interrupt_reply : String → String → String → Bool → String
format_interrupt_reply body open_id name mention =
    let text = if trim_space body == "" then "任务已中断" else trim_space body in
    if not mention || not (open_id == "") || name == ""
    then text
    else concat "@" (concat name (concat " " text))

runes_pos : (s : String) → s ≢ "" → 0 < rune_count s
unfolding rune_count
runes_pos String.[] h = absurd (h refl)
runes_pos (String.◌∷◌ c s) h = omega arith

-- A clipped text is not empty and has the bound in characters at most, the mark of the cut not
-- counted; with a bound of 5 or more also the words for no content keep to it.
pub clip_job_text_lem :
    (s : String) (max : ℕ)
    → 5 ≤ max
    → (0 < rune_count (clip_job_text s max)) × (rune_count (clip_job_text s max) ≤ max + 1)
unfolding clip_job_text rune_count
clip_job_text_lem s max h = elim (Bool-cases (join_fields s == "")) [
  | inl blank ↦ rw (clip_job_text, blank) (omega arith, omega arith)
  | inr some_text ↦ elim (Bool-cases (nat_eq max 0 || leb (rune_count (join_fields s)) max)) [
    | inl fits ↦
        rw (clip_job_text, some_text, fits)
          (runes_pos (join_fields s) (not_blank some_text), ground (arith, h))
    | inr long ↦
        rw (clip_job_text, some_text, long)
          (
            omega (arith, rune_count-concat (first_runes max (join_fields s)) "…"),
            omega (
              arith,
              rune_count-concat (first_runes max (join_fields s)) "…",
              rune_count-first_runes max (join_fields s),
            ),
          )
  ]
]
  where
    not_blank : (join_fields s == "") ≡ false → join_fields s ≢ ""
    not_blank some_text = ground (arith, eq_iff (join_fields s) "")
