-- ===== src/Memory/Appendix.antt =====
-- internal/memory/appendix.go: the part of the prompt that tells the engine about the user. Also
-- Effective of types.go, clipRunes of config.go and SanitizeFieldValue of pii.go. The searches for private
-- data, the parsing of a time and the time of the call are arguments.
pub mod Bounds
use yzj_bot_bridge.Prelude.{
  ℕ, String, Bool, false, not, ◌&&◌, ◌||◌, Option, none, some, List, [], ◌∷◌, leb, nat_eq, ◌==◌,
  if◌then◌else◌, length, take, concat, trim_space, rune_count, first_runes,
}
use yzj_bot_bridge.Memory.Blank.{trim_blank}
use yzj_bot_bridge.Memory.Profiles.{Field, StringListField, FactCard, Profile}

-- The settings that RenderAppendix reads, a number below one being 0, and its arguments.
pub record Rendering : Type 0 where
  pub appendix_runes : ℕ
  pub style_runes : ℕ
  pub donts_max : ℕ
  pub fact_cards_enabled : Bool
  pub fact_cards_max : ℕ
  pub strip : String → String
  pub contains_pii : String → Bool
  pub parse : String → Option ℕ
  pub now : ℕ

unfoldable pub or_default : ℕ → ℕ → ℕ
or_default n def = if nat_eq n 0 then def else n

-- clipRunes
unfoldable pub clip_runes : String → ℕ → String
unfolding first_runes rune_count concat
clip_runes s max =
    if nat_eq max 0 || leb (rune_count s) max then s else concat (first_runes max s) "…"

-- Effective of a field
unfoldable pub effective : Field → String
unfolding trim_blank
effective f = let s = trim_blank f.manual in if s == "" then trim_blank f.inferred else s

-- Effective of a list
unfoldable pub effective_list : StringListField → List String
effective_list f = if nat_eq (length f.manual_list) 0 then f.inferred_list else f.manual_list

-- SanitizeFieldValue
unfoldable pub sanitize_field_value : Rendering → String → ℕ → String
unfolding clip_runes trim_space
sanitize_field_value r s max =
    if r.contains_pii (r.strip s) then "" else trim_space (clip_runes (r.strip s) max)

-- isFactExpired
unfoldable pub is_fact_expired : Rendering → FactCard → Bool
unfolding trim_space
is_fact_expired r c = elim (r.parse c.expires_at) [
  | none ↦ false
  | some t ↦ not (trim_space c.expires_at == "") && leb t r.now
]

-- The cards that have not expired, in their order
unfoldable pub unexpired : Rendering → List FactCard → List FactCard
unfolding is_fact_expired
unexpired r [] = []
unexpired r (c ∷ cs) = let rest = unexpired r cs in if is_fact_expired r c then rest else c ∷ rest

-- activeFactCards
unfoldable pub active_fact_cards : Rendering → List FactCard → List FactCard
unfolding unexpired or_default
active_fact_cards r cards = take (or_default r.fact_cards_max 12) (unexpired r cards)

unfoldable pub join_with : String → List String → String
unfolding concat
join_with sep [] = ""
join_with sep (x ∷ xs) = elim xs [ [] ↦ x | y ∷ ys ↦ concat x (concat sep (join_with sep xs)) ]

-- A line, if there is something to say in it; writeField on the value of a field
unfoldable pub label_line : String → String → String
unfolding concat
label_line label v = if v == "" then "" else concat label (concat "：" (concat v "\n"))

unfoldable pub fact_lines : Rendering → List FactCard → String
unfolding sanitize_field_value label_line concat
fact_lines r [] = ""
fact_lines r (c ∷ cs) =
    concat (label_line "事实" (sanitize_field_value r c.text 120)) (fact_lines r cs)

donts_line : List String → String
unfolding join_with concat
donts_line [] = ""
donts_line (x ∷ xs) = concat "忌口：" (concat (join_with "；" (x ∷ xs)) "\n")

-- What RenderAppendix writes behind its first line
unfoldable pub appendix_body : Rendering → Profile → String
unfolding effective effective_list label_line donts_line or_default clip_runes active_fact_cards
    fact_lines concat trim_space
appendix_body r p = concat (label_line "称呼参考" (trim_space p.display_name)) (
    concat (label_line "如何称呼" (effective p.how_to_address)) (
      concat (label_line "职责/角色" (effective p.role)) (
        concat (label_line "提问风格" (effective p.ask_style)) (
          concat (label_line "期望回答风格" (effective p.reply_style)) (
            concat (donts_line (take (or_default r.donts_max 8) (effective_list p.donts))) (
              concat
                (label_line "风格说明" (clip_runes (effective p.notes) (or_default r.style_runes 400)))
                (if r.fact_cards_enabled
                  then fact_lines r (active_fact_cards r p.fact_cards)
                  else "")))))))

-- RenderAppendix
unfoldable pub render_appendix : Rendering → Profile → String
unfolding appendix_body or_default first_runes rune_count concat
render_appendix r p =
    let body = appendix_body r p in
    let max = or_default r.appendix_runes 800 in
    let out = concat "\n\n【用户记忆】\n" body in
    if p.opted_out || body == ""
    then ""
    else (if leb (rune_count out) max then out else concat (first_runes max out) "…")
