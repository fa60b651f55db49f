-- ===== src/Inbound/Limits.antt =====
-- The limits on the attachments of a message.
use yzj_bot_bridge.Prelude.{
  ℕ, suc, ◌+◌, ◌≤◌, ◌<◌, String, ◌≡◌, refl, Bool, true, false, not, ◌&&◌, Option, none, some, List,
  [], ◌∷◌, ◌++◌, arith, ltb, leb, ◌==◌, if◌then◌else◌, not-ltb-le, length, All, length-append,
  All-append, trim_space, to_lower,
}
use yzj_bot_bridge.Inbound.Types.{Attachment}
use yzj_bot_bridge.Inbound.Attachments.{
  Limits, Fetched, fetched, not_fetched, Tools, Saved, Tally, no_tally, or_default, bytes_of,
  image_types, is_type, blocked_ext, ext_of, sniffed, keep_image, take_image, keep_file, take_file,
  take_one, over_limit, take_all, out_path,
}

-- An image that may be kept: not too big, and of a type that is allowed, if its type is known.
abbrev pub ImageFits : Limits → Saved → Type 0
ImageFits l s =
    (s.size ≤ bytes_of (or_default 20 l.image_max_mb))
    × ((not (s.ext == "") && not (is_type (image_types l.image_types) s.ext)) ≡ false)

-- A file that may be kept: not too big, and not of a type that is refused.
abbrev pub FileFits : Limits → Saved → Type 0
FileFits l s =
    (s.size ≤ bytes_of (or_default 50 l.file_max_mb)) × (blocked_ext s.ext l.file_block_ext ≡ false)

pub record Sound (l : Limits) (t : Tally) : Type 0 where
  pub counted : length t.images + length t.files ≤ t.idx
  pub images_fit : All (ImageFits l) t.images
  pub files_fit : All (FileFits l) t.files

-- One attachment leads from one tally to the other.
record Grown (l : Limits) (n : ℕ) (t : Tally) : Type 0 where
  sound : Sound l t
  step : t.idx ≤ suc n

if_Grown :
    (l : Limits) (n : ℕ) (c : Bool) (a b : Tally)
    → (c ≡ true → Grown l n a)
    → (c ≡ false → Grown l n b)
    → Grown l n (if c then a else b)
if_Grown l n true a b ga gb = ga refl
if_Grown l n false a b ga gb = gb refl

stay : (l : Limits) (t : Tally) → Sound l t → Grown l t.idx t
stay l t s = record { sound = s; step = omega arith }

failed_Grown :
    (l : Limits) (t : Tally) (fails : List String) (ff : Bool) (gone : List String) (n : ℕ)
    → Sound l t
    → t.idx ≤ n
    → n ≤ suc t.idx
    → Grown l t.idx (record t { fails = fails; file_failure = ff; idx = n; removed = gone })
failed_Grown l t fails ff gone n s h h' = record {
  sound = record {
    counted = omega (arith, s.counted);
    images_fit = s.images_fit;
    files_fit = s.files_fit;
  };
  step = h';
}

more_images :
    (l : Limits) (t : Tally) (i : Saved) (n : ℕ)
    → Sound l t
    → n ≡ suc t.idx
    → ImageFits l i
    → Grown l t.idx (record t { images = t.images ++ i ∷ []; idx = n })
more_images l t i n s e fits = record {
  sound = record {
    counted = omega (arith, s.counted, length-append t.images (i ∷ []));
    images_fit = All-append (ImageFits l) t.images (i ∷ []) s.images_fit (fits, tt);
    files_fit = s.files_fit;
  };
  step = omega arith;
}

more_files :
    (l : Limits) (t : Tally) (f : Saved) (n : ℕ)
    → Sound l t
    → n ≡ suc t.idx
    → FileFits l f
    → Grown l t.idx (record t { files = t.files ++ f ∷ []; idx = n })
more_files l t f n s e fits = record {
  sound = record {
    counted = omega (arith, s.counted, length-append t.files (f ∷ []));
    images_fit = s.images_fit;
    files_fit = All-append (FileFits l) t.files (f ∷ []) s.files_fit (fits, tt);
  };
  step = omega arith;
}

sniffed-Grown :
    (l : Limits) (a : Attachment) (out ext : String) (size : ℕ) (mime : Option String) (t : Tally)
    → Sound l t
    → size ≤ bytes_of (or_default 20 l.image_max_mb)
    → (not (ext == "") && not (is_type (image_types l.image_types) ext)) ≡ false
    → Grown l t.idx (sniffed a out ext size mime (record t { idx = t.idx + 1 }))
unfolding sniffed
sniffed-Grown l a out ext size none t s small ok =
    failed_Grown l t _ _ _ (t.idx + 1) s (omega arith) (omega arith)
sniffed-Grown l a out ext size (some mime) t s small ok =
    more_images l t _ (t.idx + 1) s (omega arith) (small, ok)

keep_image-Grown :
    (tools : Tools) (l : Limits) (a : Attachment) (out ext : String) (r : Fetched) (t : Tally)
    → Sound l t
    → (not (ext == "") && not (is_type (image_types l.image_types) ext)) ≡ false
    → Grown l t.idx
        (keep_image tools (or_default 20 l.image_max_mb) a out ext r (record t { idx = t.idx + 1 }))
unfolding keep_image
keep_image-Grown tools l a out ext (not_fetched err) t s ok =
    failed_Grown l t _ _ _ (t.idx + 1) s (omega arith) (omega arith)
keep_image-Grown tools l a out ext (fetched size) t s ok =
    if_Grown l t.idx (ltb (bytes_of (or_default 20 l.image_max_mb)) size) _ _
      (λ big. failed_Grown l t _ _ _ (t.idx + 1) s (omega arith) (omega arith))
      (λ small.
        sniffed-Grown l a out ext size (tools.sniff out) t s
          (not-ltb-le (bytes_of (or_default 20 l.image_max_mb)) size small) ok)

keep_file-Grown :
    (tools : Tools) (l : Limits) (a : Attachment) (out ext : String) (r : Fetched) (t : Tally)
    → Sound l t
    → blocked_ext ext l.file_block_ext ≡ false
    → Grown l t.idx
        (keep_file tools (or_default 50 l.file_max_mb) a out ext r (record t { idx = t.idx + 1 }))
unfolding keep_file
keep_file-Grown tools l a out ext (not_fetched err) t s ok =
    failed_Grown l t _ _ _ (t.idx + 1) s (omega arith) (omega arith)
keep_file-Grown tools l a out ext (fetched size) t s ok =
    if_Grown l t.idx (ltb (bytes_of (or_default 50 l.file_max_mb)) size) _ _
      (λ big. failed_Grown l t _ _ _ (t.idx + 1) s (omega arith) (omega arith))
      (λ small.
        more_files l t _ (t.idx + 1) s (omega arith)
          (not-ltb-le (bytes_of (or_default 50 l.file_max_mb)) size small, ok))

take_image-Grown :
    (tools : Tools) (l : Limits) (dir msg : String) (a : Attachment) (t : Tally)
    → Sound l t
    → Grown l t.idx (take_image tools l dir msg a t)
unfolding take_image
take_image-Grown tools l dir msg a t s =
    let ext = ext_of tools a in
    let out = out_path tools dir msg t ext in
    if_Grown l t.idx (not l.image_enabled) _ _ (λ off. stay l t s)
      (λ on.
        if_Grown l t.idx (not (ext == "") && not (is_type (image_types l.image_types) ext)) _ _
          (λ refused. failed_Grown l t _ _ _ t.idx s (omega arith) (omega arith))
          (λ ok.
            if_Grown l t.idx (ltb (bytes_of (or_default 20 l.image_max_mb)) a.size) _ _
              (λ big. failed_Grown l t _ _ _ t.idx s (omega arith) (omega arith))
              (λ small. keep_image-Grown tools l a out ext (tools.download a.file_id out) t s ok)))

take_file-Grown :
    (tools : Tools) (l : Limits) (dir msg : String) (a : Attachment) (t : Tally)
    → Sound l t
    → Grown l t.idx (take_file tools l dir msg a t)
unfolding take_file
take_file-Grown tools l dir msg a t s =
    let ext = ext_of tools a in
    let out = out_path tools dir msg t ext in
    if_Grown l t.idx (not l.file_enabled) _ _ (λ off. stay l t s)
      (λ on.
        if_Grown l t.idx (blocked_ext ext l.file_block_ext) _ _
          (λ refused. failed_Grown l t _ _ _ t.idx s (omega arith) (omega arith))
          (λ ok.
            if_Grown l t.idx (ltb (bytes_of (or_default 50 l.file_max_mb)) a.size) _ _
              (λ big. failed_Grown l t _ _ _ t.idx s (omega arith) (omega arith))
              (λ small. keep_file-Grown tools l a out ext (tools.download a.file_id out) t s ok)))

take_one-Grown :
    (tools : Tools) (l : Limits) (dir msg : String) (a : Attachment) (t : Tally)
    → Sound l t
    → Grown l t.idx (take_one tools l dir msg a t)
unfolding take_one
take_one-Grown tools l dir msg a t s =
    let kind = to_lower (trim_space a.kind) in
    if_Grown l t.idx (kind == "image") _ _ (λ e. take_image-Grown tools l dir msg a t s)
      (λ e.
        if_Grown l t.idx (kind == "file") _ _ (λ f. take_file-Grown tools l dir msg a t s)
          (λ f. stay l t s))

-- The tally at the end of the loop.
pub record Within (l : Limits) (t : Tally) : Type 0 where
  pub sound : Sound l t
  pub bound : t.idx ≤ or_default 5 l.max_attachments

if_Within :
    (l : Limits) (c : Bool) (a b : Tally)
    → (c ≡ true → Within l a)
    → (c ≡ false → Within l b)
    → Within l (if c then a else b)
if_Within l true a b ga gb = ga refl
if_Within l false a b ga gb = gb refl

not-leb-lt : (a b : ℕ) → leb a b ≡ false → b < a
not-leb-lt a b h = ground arith

take_all-Within :
    (tools : Tools) (l : Limits) (dir msg : String) (as' : List Attachment) (t : Tally)
    → Within l t
    → Within l (take_all tools l dir msg as' t)
unfolding take_all over_limit
take_all-Within tools l dir msg [] t w = w
take_all-Within tools l dir msg (a ∷ more) t w =
    if_Within l (leb (or_default 5 l.max_attachments) t.idx) _ _
      (λ full. record {
        sound = record {
          counted = w.sound.counted;
          images_fit = w.sound.images_fit;
          files_fit = w.sound.files_fit;
        };
        bound = w.bound;
      })
      (λ room.
        let g = take_one-Grown tools l dir msg a t w.sound in
        take_all-Within tools l dir msg more (take_one tools l dir msg a t) (record {
          sound = g.sound;
          bound = omega (arith, g.step, not-leb-lt (or_default 5 l.max_attachments) t.idx room);
        }))

no_tally-Within : (l : Limits) → Within l no_tally
no_tally-Within l = record {
  sound = record { counted = omega arith; images_fit = tt; files_fit = tt };
  bound = omega arith;
}

-- Of the attachments of a message no more are saved than the limit, by default five, and each that is
-- saved is within its limit of size; an image has an allowed type, if its type is known, and no file has
-- a refused one.
pub attachments-Within :
    (tools : Tools) (l : Limits) (dir msg : String) (attachments : List Attachment)
    → Within l (take_all tools l dir msg attachments no_tally)
attachments-Within tools l dir msg attachments =
    take_all-Within tools l dir msg attachments no_tally (no_tally-Within l)
