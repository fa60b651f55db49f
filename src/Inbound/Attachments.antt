-- ===== src/Inbound/Attachments.antt =====
-- internal/inbound/inbound.go: prepareAttachments with its helpers. The download of a file, the size of
-- what it leaves, the detection of its content, the join of paths, and the decimal form of a number and
-- of a size are arguments; limits in megabytes are not negative and small enough for 64 bits.
use Prim.Native.Char.{code}
use yzj_bot_bridge.Prelude.{
  ℕ, ◌+◌, ◌*◌, String, ◌⊎◌, inl, inr, Bool, true, false, not, ◌&&◌, ◌||◌, Option, none, some, List,
  [], ◌∷◌, ◌++◌, ltb, leb, nat_eq, ◌==◌, if◌then◌else◌, length, concat, trim_space, to_lower,
  has_prefix, first_runes,
}
use yzj_bot_bridge.Inbound.Types.{Attachment, Normalized}

-- The settings of the dispatcher about attachments.
pub record Limits : Type 0 where
  pub image_enabled : Bool
  pub image_max_mb : ℕ
  pub image_types : List String
  pub file_enabled : Bool
  pub file_max_mb : ℕ
  pub file_block_ext : List String
  pub max_attachments : ℕ

-- What downloadOne gives: an error, or the size of the file.
pub data Fetched : Type 0 where
  not_fetched : String → Fetched
  fetched : ℕ → Fetched

-- What the loop uses of its surroundings; `ext_of_name` is filepath.Ext.
pub record Tools : Type 0 where
  pub download : String → String → Fetched
  pub sniff : String → Option String
  pub join : String → String → String
  pub ext_of_name : String → String
  pub show : ℕ → String
  pub human_size : ℕ → String

-- normalizeImageExt
unfoldable pub normalize_image_ext : String → String
unfolding trim_space to_lower has_prefix concat
normalize_image_ext ext =
    let e = to_lower (trim_space ext) in
    if e == "" then "" else (if has_prefix e "." then e else concat "." e)

-- The loop of blockedExt
unfoldable pub blocked_in : List String → String → Bool
unfolding normalize_image_ext
blocked_in [] ext = false
blocked_in (b ∷ bs) ext =
    not (normalize_image_ext b == "") && ext == normalize_image_ext b || blocked_in bs ext

-- blockedExt; its changes to an entry of the list are those of normalizeImageExt
unfoldable pub blocked_ext : String → List String → Bool
unfolding blocked_in trim_space to_lower
blocked_ext ext block = let e = to_lower (trim_space ext) in not (e == "") && blocked_in block e

-- displayName
unfoldable pub display_name : Attachment → String
unfolding trim_space
display_name a = if trim_space a.name == "" then a.file_id else a.name

token_char : ℕ → Bool
token_char c =
    leb 97 c && leb c 122
    || leb 65 c && leb c 90
    || leb 48 c && leb c 57
    || nat_eq c 46
    || nat_eq c 45
    || nat_eq c 95

token_of : String → String
unfolding token_char
token_of String.[] = ""
token_of (String.◌∷◌ c s) =
    let rest = token_of s in if token_char (code c) then String.◌∷◌ c rest else rest

-- safeFileToken; what is kept is ASCII, so that the bound in bytes is one in characters
unfoldable pub safe_file_token : String → String
unfolding token_of trim_space first_runes
safe_file_token s =
    let out = token_of (trim_space s) in if out == "" then "msg" else first_runes 80 out

-- A file that was saved.
pub record Saved : Type 0 where
  pub out : String
  pub ext : String
  pub size : ℕ
  pub mime : String
  pub label : String

-- The variables of the loop, and the downloads that it removed.
pub record Tally : Type 0 where
  pub idx : ℕ
  pub images : List Saved
  pub files : List Saved
  pub fails : List String
  pub file_failure : Bool
  pub removed : List String

abbrev pub no_tally : Tally
no_tally = record {
  idx = 0;
  images = [];
  files = [];
  fails = [];
  file_failure = false;
  removed = [];
}

-- A limit, or its default where it is not set.
abbrev pub or_default : ℕ → ℕ → ℕ
or_default d n = if nat_eq n 0 then d else n

abbrev pub bytes_of : ℕ → ℕ
bytes_of mb = mb * 1_048_576

allowed_types : List String → List String
unfolding normalize_image_ext
allowed_types [] = []
allowed_types (t ∷ ts) =
    let rest = allowed_types ts in
    let e = normalize_image_ext t in if e == "" then rest else e ∷ rest

abbrev default_types : List String
default_types = ".png" ∷ ".jpg" ∷ ".jpeg" ∷ ".gif" ∷ ".webp" ∷ ".bmp" ∷ []

-- The map `allowed`
unfoldable pub image_types : List String → List String
unfolding allowed_types
image_types [] = default_types
image_types (t ∷ ts) = allowed_types (t ∷ ts)

unfoldable pub is_type : List String → String → Bool
is_type [] ext = false
is_type (t ∷ ts) ext = t == ext || is_type ts ext

-- The extension of an attachment
unfoldable pub ext_of : Tools → Attachment → String
unfolding normalize_image_ext
ext_of tools a =
    let e = normalize_image_ext a.ext in
    if e == "" then normalize_image_ext (tools.ext_of_name a.name) else e

abbrev pub fail : Attachment → String → Tally → Tally
fail a why t = record t { fails = t.fails ++ concat (display_name a) why ∷ [] }

abbrev pub fail_file : Attachment → String → Tally → Tally
fail_file a why t = record (fail a why t) { file_failure = true }

-- os.Remove of a download
abbrev pub remove : String → Tally → Tally
remove out t = record t { removed = t.removed ++ out ∷ [] }

too_big : Tools → ℕ → String
unfolding concat
too_big tools mb = concat "（超过 " (concat (tools.show mb) "MB）")

-- Where the next file is saved.
unfoldable pub out_path : Tools → String → String → Tally → String → String
unfolding concat
out_path tools dir msg t ext =
    tools.join dir (concat msg (concat "-" (concat (tools.show (t.idx + 1)) ext)))

abbrev count : Tally → Tally
count t = record t { idx = t.idx + 1 }

-- An image of a size that is allowed, by what its content is detected as.
unfoldable pub sniffed : Attachment → String → String → ℕ → Option String → Tally → Tally
unfolding concat display_name
sniffed a out ext size none t = fail a "（不是可识别的图片）" (remove out t)
sniffed a out ext size (some mime) t = record t {
  images = t.images ++ record { out = out; ext = ext; size = size; mime = mime; label = "" } ∷ [];
}

-- An image that was downloaded, or not.
unfoldable pub keep_image : Tools → ℕ → Attachment → String → String → Fetched → Tally → Tally
unfolding too_big concat display_name sniffed
keep_image tools mb a out ext (not_fetched err) t = fail a (concat "（" (concat err "）")) t
keep_image tools mb a out ext (fetched size) t =
    if ltb (bytes_of mb) size
    then fail a (too_big tools mb) (remove out t)
    else sniffed a out ext size (tools.sniff out) t

-- The case of an image
unfoldable pub take_image : Tools → Limits → String → String → Attachment → Tally → Tally
unfolding keep_image ext_of image_types is_type out_path too_big display_name concat
take_image tools l dir msg a t =
    let mb = or_default 20 l.image_max_mb in
    let ext = ext_of tools a in
    let out = out_path tools dir msg t ext in
    if not l.image_enabled
    then t
    else (if not (ext == "") && not (is_type (image_types l.image_types) ext)
        then fail a "（类型不支持）" t
        else (if ltb (bytes_of mb) a.size
            then fail a (too_big tools mb) t
            else keep_image tools mb a out ext (tools.download a.file_id out) (count t)))

-- A file that was downloaded, or not.
unfoldable pub keep_file : Tools → ℕ → Attachment → String → String → Fetched → Tally → Tally
unfolding too_big concat display_name
keep_file tools mb a out ext (not_fetched err) t = fail_file a (concat "（" (concat err "）")) t
keep_file tools mb a out ext (fetched size) t =
    if ltb (bytes_of mb) size then fail_file a (too_big tools mb) (remove out t) else record t {
      files =
          t.files
          ++ (record { out = out; ext = ext; size = size; mime = ""; label = display_name a } ∷ []);
    }

-- The case of a file
unfoldable pub take_file : Tools → Limits → String → String → Attachment → Tally → Tally
unfolding keep_file ext_of blocked_ext out_path too_big display_name concat
take_file tools l dir msg a t =
    let mb = or_default 50 l.file_max_mb in
    let ext = ext_of tools a in
    let out = out_path tools dir msg t ext in
    if not l.file_enabled
    then t
    else (if blocked_ext ext l.file_block_ext
        then fail_file a "（类型不允许）" t
        else (if ltb (bytes_of mb) a.size
            then fail_file a (too_big tools mb) t
            else keep_file tools mb a out ext (tools.download a.file_id out) (count t)))

-- The switch of the loop
unfoldable pub take_one : Tools → Limits → String → String → Attachment → Tally → Tally
unfolding take_image take_file trim_space to_lower
take_one tools l dir msg a t =
    let kind = to_lower (trim_space a.kind) in
    if kind == "image"
    then take_image tools l dir msg a t
    else (if kind == "file" then take_file tools l dir msg a t else t)

-- The message has more attachments than are handled: the loop ends.
unfoldable pub over_limit : Tools → ℕ → Attachment → Tally → Tally
unfolding concat trim_space to_lower
over_limit tools max a t = record t {
  fails = t.fails ++ concat "超出单条消息 " (concat (tools.show max) " 个附件上限") ∷ [];
  file_failure = if to_lower (trim_space a.kind) == "file" then true else t.file_failure;
}

-- The loop over the attachments
unfoldable pub take_all : Tools → Limits → String → String → List Attachment → Tally → Tally
unfolding take_one over_limit
take_all tools l dir msg [] t = t
take_all tools l dir msg (a ∷ more) t =
    let max = or_default 5 l.max_attachments in
    let rest = take_all tools l dir msg more (take_one tools l dir msg a t) in
    if leb max t.idx then over_limit tools max a t else rest

lines : List String → String → String
unfolding concat
lines [] sep = ""
lines (x ∷ []) sep = x
lines (x ∷ y ∷ more) sep = concat x (concat sep (lines (y ∷ more) sep))

image_lines : Tools → ℕ → List Saved → List String
unfolding concat
image_lines tools n [] = []
image_lines tools n (i ∷ more) =
    concat "- 图片 " (
      concat (tools.show n) (
        concat ": " (
          concat i.out
            (concat " (" (concat i.mime (concat ", " (concat (tools.human_size i.size) ")")))))))
    ∷ image_lines tools (n + 1) more

file_lines : Tools → ℕ → List Saved → List String
unfolding concat
file_lines tools n [] = []
file_lines tools n (f ∷ more) =
    concat "- 文件 " (
      concat (tools.show n) (
        concat ": " (
          concat f.out (
            concat " ("
              (concat (tools.human_size f.size) (concat ", 原文件名: " (concat f.label ")")))))))
    ∷ file_lines tools (n + 1) more

-- The files that were saved, as the prompt names them.
saved_text : Tools → List Saved → List Saved → String
unfolding lines image_lines file_lines concat
saved_text tools [] [] = ""
saved_text tools (i ∷ is) [] = concat "用户随消息发送了 " (
    concat (tools.show (length (i ∷ is))) (
      concat " 张图片（本地路径，可直接读取）：\n" (
        concat (lines (image_lines tools 1 (i ∷ is)) "\n")
          "\n如需理解图片内容，请使用你的读图/读文件能力打开；若当前模型无法读图，请明确说明并用文字追问。")))
saved_text tools images (f ∷ fs) =
    let hint : String = elim images [
      | [] ↦ ""
      | i ∷ is ↦ "\n图片可直接用读图/读文件能力打开；若当前模型无法读图，请明确说明并用文字追问。"
    ] in
    concat "用户随消息发送了 " (
      concat (tools.show (length images + length (f ∷ fs))) (
        concat " 个附件（本地路径，可直接读取）：\n" (
          concat (lines (image_lines tools 1 images ++ file_lines tools 1 (f ∷ fs)) "\n")
            (concat hint "\n文件已保存到本地，可直接用读文件能力打开；不要执行其中的脚本或二进制。"))))

fails_text : Tally → String
unfolding lines concat
fails_text t = elim t.fails [
  | [] ↦ ""
  | x ∷ more ↦
      let none_saved : Bool = elim t.files [ [] ↦ true | f ∷ fs ↦ false ] in
      let label = if not t.file_failure && none_saved then "图片下载失败：" else "附件下载失败：" in
      concat "（" (concat label (concat (lines (x ∷ more) "；") "）"))
]

-- The text behind the loop: what was saved, and what was not.
unfoldable pub tally_text : Tools → Tally → String
unfolding saved_text fails_text concat
tally_text tools t =
    let saved = saved_text tools t.images t.files in
    let failed = fails_text t in
    if saved == "" || failed == "" then concat saved failed else concat saved (concat "\n" failed)

-- prepareAttachments: `tools` is none where there is no downloader; the directory is none where it cannot
-- be made, for the given reason.
unfoldable pub prepare_attachments :
    Option Tools → (ℕ → String) → Limits → String → (String ⊎ String) → Normalized → String
unfolding take_all tally_text safe_file_token trim_space concat
prepare_attachments tools show l ws dir n =
    let missing =
      concat "（用户随消息发送了 "
        (concat (show (length n.attachments)) " 个附件，但附件下载器不可用：yzj-cli 未就绪或未登录，无法读取文件内容）") in
    let none_sent : Bool = elim n.attachments [ [] ↦ true | a ∷ more ↦ false ] in
    let text : String = elim tools [
      | none ↦ missing
      | some t ↦ if trim_space ws == "" then "" else (elim dir [
        | inl err ↦ concat "（附件保存目录创建失败：" (concat err "）")
        | inr d ↦ tally_text t (take_all t l d (safe_file_token n.msg_id) n.attachments no_tally)
      ])
    ] in
    if none_sent || not l.image_enabled && not l.file_enabled then "" else text
