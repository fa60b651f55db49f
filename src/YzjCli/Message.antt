-- ===== src/YzjCli/Message.antt =====
-- internal/yzjcli/message.go: a chat message, its attachments and whom it addresses. The JSON
-- decoding is left out: the flexible Booleans and numbers and the raw size are decoded values.
use yzj_bot_bridge.Prelude.{
  ℕ, String, Bool, true, false, not, ◌&&◌, ◌||◌, Option, none, some, List, [], ◌∷◌, ◌++◌, ltb,
  nat_eq, ◌==◌, if◌then◌else◌, length, concat, trim_space, to_lower, equal_fold, has_prefix,
  contains_text,
}

pub record Segment : Type 0 where
  pub kind : String  -- Type
  pub value : String  -- Data
  pub start : ℕ
  pub len : ℕ
  pub w : ℕ
  pub h : ℕ

pub record MessageParam : Type 0 where
  pub desc : List Segment
  pub reply_msg_id : String
  pub reply_open_id : String
  pub reply_person_name : String
  pub reply_summary : String
  pub file_id : String
  pub ext : String
  pub name : String
  pub size : ℕ
  pub ftype : Option ℕ
  pub pic_width : ℕ
  pub pic_height : ℕ
  pub sys_type : String

pub record Message : Type 0 where
  pub content : String
  pub from_open_id : String
  pub msg_id : String
  pub msg_type : String
  pub param : MessageParam
  pub send_time : String

pub data Kind : Type 0 where
  image file : Kind

pub record Attachment : Type 0 where
  pub kind : Kind
  pub file_id : String
  pub name : String
  pub ext : String
  pub size : ℕ
  pub width : ℕ
  pub height : ℕ

-- strings.ToUpper and HasPrefix with "BOT-", as the code uses them together.
has_bot_prefix : String → Bool
unfolding to_lower has_prefix
has_bot_prefix s = has_prefix (to_lower s) "bot-"

-- IsFromBot
unfoldable pub is_from_bot : Message → Bool
unfolding has_bot_prefix trim_space
is_from_bot m = has_bot_prefix (trim_space m.from_open_id)

-- IsRecall
unfoldable pub is_recall : Message → Bool
unfolding equal_fold trim_space
is_recall m =
    equal_fold (trim_space m.msg_type) "other"
    || equal_fold (trim_space m.param.sys_type) "withdrawMsg"

-- normalizeExt
unfoldable pub normalize_ext : String → String
unfolding to_lower trim_space has_prefix concat
normalize_ext ext =
    let e = to_lower (trim_space ext) in
    if e == "" then "" else if has_prefix e "." then e else concat "." e

one_of : String → List String → Bool
one_of s [] = false
one_of s (x ∷ xs) = s == x || one_of s xs

-- isImageExt
unfoldable pub is_image_ext : String → Bool
unfolding normalize_ext one_of
is_image_ext ext =
    one_of (normalize_ext ext) (".png" ∷ ".jpg" ∷ ".jpeg" ∷ ".gif" ∷ ".webp" ∷ ".bmp" ∷ [])

-- dropEmptyAttachments
unfoldable pub drop_empty_attachments : List Attachment → List Attachment
unfolding trim_space
drop_empty_attachments [] = []
drop_empty_attachments (a ∷ rest) =
    let kept = drop_empty_attachments rest in if trim_space a.file_id == "" then kept else a ∷ kept

-- The test by which a file message is an image: ftype 1, or an image extension.
is_image_file : Message → Bool
unfolding is_image_ext
is_image_file m =
    (elim m.param.ftype [ none ↦ false | some n ↦ nat_eq n 1 ])
    || is_image_ext (normalize_ext m.param.ext)

-- The loop over the segments of a rich text.
segment_images : List Segment → List Attachment
unfolding equal_fold trim_space
segment_images [] = []
segment_images (seg ∷ segs) =
    let rest = segment_images segs in
    if not (equal_fold seg.kind "image") || trim_space seg.value == ""
    then rest
    else record {
      kind = image;
      file_id = trim_space seg.value;
      name = "";
      ext = "";
      size = 0;
      width = seg.w;
      height = seg.h;
    }
      ∷ rest

type_of : Message → String
unfolding to_lower trim_space
type_of m = to_lower (trim_space m.msg_type)

-- ImageAttachments
unfoldable pub image_attachments : Message → List Attachment
unfolding type_of is_image_file segment_images drop_empty_attachments
image_attachments m =
    if type_of m == "file"
    then drop_empty_attachments (
        if is_image_file m
        then record {
          kind = image;
          file_id = trim_space m.param.file_id;
          name = m.param.name;
          ext = normalize_ext m.param.ext;
          size = m.param.size;
          width = m.param.pic_width;
          height = m.param.pic_height;
        }
          ∷ []
        else [])
    else if type_of m == "richtext"
    then drop_empty_attachments (segment_images m.param.desc)
    else []

-- Attachments
unfoldable pub attachments : Message → List Attachment
unfolding image_attachments
attachments m =
    let images = image_attachments m in
    if type_of m == "file"
    then drop_empty_attachments (
        if not (is_image_file m) && not (trim_space m.param.file_id == "")
        then images
          ++ record {
            kind = file;
            file_id = trim_space m.param.file_id;
            name = m.param.name;
            ext = normalize_ext m.param.ext;
            size = m.param.size;
            width = 0;
            height = 0;
          }
            ∷ []
        else images)
    else drop_empty_attachments images

any_image : List Attachment → Bool
any_image [] = false
any_image (a ∷ rest) =
    (elim a.kind [ image ↦ not (a.file_id == "") | file ↦ false ]) || any_image rest

-- HasImages
unfoldable pub has_images : Message → Bool
unfolding attachments any_image
has_images m = any_image (attachments m)

-- containsFold
unfoldable pub contains_fold : List String → String → Bool
unfolding equal_fold trim_space
contains_fold [] v = false
contains_fold (x ∷ xs) v = equal_fold (trim_space x) (trim_space v) || contains_fold xs v

-- The loop over the at-segments: whether it finds one of the robots `ids`, and whether any robot is
-- addressed.
at_segments : List String → List Segment → Bool × Bool
unfolding equal_fold trim_space contains_fold has_bot_prefix
at_segments ids [] = (false, false)
at_segments ids (seg ∷ segs) =
    let (hit, bot) = at_segments ids segs in
    let value = trim_space seg.value in
    if not (equal_fold (trim_space seg.kind) "at")
    then (hit, bot)
    else if value == "" || equal_fold value "all"
    then (hit, bot)
    else if not (has_bot_prefix value)
    then (hit, bot)
    else (contains_fold ids value || hit, true)

names_alias : String → List String → Bool
unfolding trim_space to_lower contains_text concat
names_alias low [] = false
names_alias low (a ∷ aliases) =
    let b = trim_space a in
    not (b == "") && contains_text low (concat "@" (to_lower b)) || names_alias low aliases

-- MentionsBots
unfoldable pub mentions_bots : Message → List String → List String → Bool
unfolding at_segments names_alias
mentions_bots m aliases ids =
    let (hit, bot) = at_segments ids m.param.desc in
    if hit
    then true
    else if ltb 0 (length ids) && bot
    then false
    else if names_alias (to_lower m.content) aliases
    then true
    else bot && nat_eq (length aliases) 0

alias_is : String → List String → Bool
unfolding equal_fold trim_space
alias_is name [] = false
alias_is name (a ∷ aliases) = equal_fold (trim_space a) name || alias_is name aliases

-- QuotesBot
unfoldable pub quotes_bot : Message → List String → List String → Bool
unfolding alias_is contains_fold has_bot_prefix
quotes_bot m aliases ids =
    let reply = trim_space m.param.reply_open_id in
    let name = trim_space m.param.reply_person_name in
    if not (has_bot_prefix reply)
    then false
    else if ltb 0 (length ids) && not (contains_fold ids reply)
    then false
    else if nat_eq (length aliases) 0
    then true
    else if name == ""
    then true
    else if alias_is name aliases
    then true
    else not (nat_eq (length ids) 0)
