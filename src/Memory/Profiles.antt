-- ===== src/Memory/Profiles.antt =====
-- internal/memory/types.go, path.go, store.go and turns.go: the profiles and turns of the users, by the
-- names of their files. The files are read and written without a failure. A time is in seconds; what
-- unicode takes for a letter or a digit beyond ASCII, and StripPII, are arguments.
use Prim.Native.Char.{Char, code}
use yzj_bot_bridge.Prelude.{
  ℕ, String, Bool, true, false, ◌&&◌, ◌||◌, Option, none, some, List, [], ◌∷◌, ◌++◌, leb, nat_eq,
  ◌==◌, if◌then◌else◌, drop, Dict, empty_dict, put, delete, trim_space, first_runes,
}

pub record Field : Type 0 where
  pub manual : String
  pub inferred : String
  pub locked : Bool

pub record StringListField : Type 0 where
  pub manual_list : List String
  pub inferred_list : List String
  pub list_locked : Bool

pub record FactCard : Type 0 where
  pub text : String
  pub source : String
  pub expires_at : String
  pub card_locked : Bool

-- The time until which a forget waits for its second call is none where the text is empty or no time.
pub record Profile : Type 0 where
  pub open_id : String
  pub display_name : String
  pub how_to_address : Field
  pub role : Field
  pub ask_style : Field
  pub reply_style : Field
  pub donts : StringListField
  pub notes : Field
  pub fact_cards : List FactCard
  pub last_seen : String
  pub bots_seen : List String
  pub opted_out : Bool
  pub forget_pending_until : Option ℕ
  pub profiled_count : ℕ
  pub last_profile_at : String
  pub last_error : String
  pub updated_at : String

pub record Turn : Type 0 where
  pub ts : String
  pub bot_id : String
  pub group : String
  pub user : String
  pub assistant : String

abbrev pub no_field : Field
no_field = record { manual = ""; inferred = ""; locked = false }

abbrev pub no_list : StringListField
no_list = record { manual_list = []; inferred_list = []; list_locked = false }

-- &Profile{OpenID: openID}
abbrev pub new_profile : String → Profile
new_profile open_id = record {
  open_id = open_id;
  display_name = "";
  how_to_address = no_field;
  role = no_field;
  ask_style = no_field;
  reply_style = no_field;
  donts = no_list;
  notes = no_field;
  fact_cards = [];
  last_seen = "";
  bots_seen = [];
  opted_out = false;
  forget_pending_until = none;
  profiled_count = 0;
  last_profile_at = "";
  last_error = "";
  updated_at = "";
}

-- `[a-zA-Z0-9._-]`
safe_char : ℕ → Bool
safe_char c =
    leb 97 c && leb c 122
    || leb 65 c && leb c 90
    || leb 48 c && leb c 57
    || nat_eq c 46
    || nat_eq c 95
    || nat_eq c 45

-- The loop over the runes, and then the replacement of each run of the other letters; `in_run` says that
-- such a run goes on.
safe_text : (ℕ → Bool) → Bool → String → String
unfolding safe_char
safe_text letter in_run String.[] = ""
safe_text letter in_run (String.◌∷◌ c s) =
    let kept = String.◌∷◌ c (safe_text letter false s) in
    let masked = String.◌∷◌ "_" (safe_text letter false s) in
    let run = String.◌∷◌ "_" (safe_text letter true s) in
    let more = safe_text letter true s in
    if safe_char (code c)
    then kept
    else (if letter (code c) then (if in_run then more else run) else masked)

mark_char : ℕ → Bool
mark_char c = nat_eq c 46 || nat_eq c 95 || nat_eq c 45

trim_marks_left : String → String
unfolding mark_char
trim_marks_left String.[] = ""
trim_marks_left (String.◌∷◌ c s) =
    let rest = trim_marks_left s in if mark_char (code c) then rest else String.◌∷◌ c s

keep_mark : Char → String → String
unfolding mark_char
keep_mark c String.[] = if mark_char (code c) then "" else String.◌∷◌ c ""
keep_mark c (String.◌∷◌ d s) = String.◌∷◌ c (String.◌∷◌ d s)

trim_marks_right : String → String
unfolding keep_mark
trim_marks_right String.[] = ""
trim_marks_right (String.◌∷◌ c s) = keep_mark c (trim_marks_right s)

-- SanitizeOpenID
unfoldable pub sanitize_open_id : (ℕ → Bool) → String → String
unfolding safe_text trim_marks_left trim_marks_right trim_space first_runes
sanitize_open_id letter open_id =
    let s = trim_space open_id in
    let out = trim_marks_right (trim_marks_left (safe_text letter false s)) in
    if s == "" || out == "" then "_empty" else first_runes 120 out

-- The files of the memory, by the names that SanitizeOpenID gives.
pub record Files : Type 0 where
  pub profiles : Dict Profile
  pub turns : Dict (List Turn)

abbrev pub no_files : Files
no_files = record { profiles = empty_dict; turns = empty_dict }

unfoldable pub named_profile : String → Profile → Profile
named_profile open_id p = if p.open_id == "" then record p { open_id = open_id } else p

-- getLocked
unfoldable pub get_locked : (ℕ → Bool) → String → Files → Option Profile
unfolding sanitize_open_id named_profile
get_locked letter open_id d = elim (d.profiles (sanitize_open_id letter open_id)) [
  | none ↦ none
  | some p ↦ some (named_profile open_id p)
]

-- Get
unfoldable pub get : (ℕ → Bool) → String → Files → Option Profile
unfolding get_locked trim_space
get letter open_id d =
    if trim_space open_id == "" then none else get_locked letter (trim_space open_id) d

abbrev pub or_new : String → Option Profile → Profile
or_new open_id none = new_profile open_id
or_new open_id (some p) = p

-- GetOrCreate; none is the error "empty open_id"
unfoldable pub get_or_create : (ℕ → Bool) → String → Files → Option Profile
unfolding get_locked trim_space
get_or_create letter open_id d =
    let id = trim_space open_id in
    if id == "" then none else some (or_new id (get_locked letter id d))

-- Save, with the time of the write; none is the error "profile open_id required"
unfoldable pub save : (ℕ → Bool) → String → Profile → Files → Option Files
unfolding sanitize_open_id trim_space
save letter stamp p d =
    if trim_space p.open_id == ""
    then none
    else some (record d {
      profiles =
          put (sanitize_open_id letter p.open_id) (record p { updated_at = stamp }) d.profiles;
    })

-- What Forget clears in a profile
unfoldable pub forgotten : Profile → Profile
forgotten p = record p {
  how_to_address = no_field;
  role = no_field;
  ask_style = no_field;
  reply_style = no_field;
  donts = no_list;
  notes = no_field;
  fact_cards = [];
  forget_pending_until = none;
  last_error = "";
  display_name = "";
}

-- clearInferredField and clearInferredNotes
unfoldable pub clear_inferred : Field → Field
clear_inferred f = if f.locked then f else record f { inferred = "" }

kept_cards : List FactCard → List FactCard
kept_cards [] = []
kept_cards (c ∷ cs) =
    let rest = kept_cards cs in if c.card_locked || c.source == "manual" then c ∷ rest else rest

-- What ResetInferred does to a profile
unfoldable pub without_inferred : Profile → Profile
unfolding clear_inferred kept_cards
without_inferred p = record p {
  how_to_address = clear_inferred p.how_to_address;
  role = clear_inferred p.role;
  ask_style = clear_inferred p.ask_style;
  reply_style = clear_inferred p.reply_style;
  notes = clear_inferred p.notes;
  donts = if p.donts.list_locked then p.donts else record (p.donts) { inferred_list = [] };
  fact_cards = kept_cards p.fact_cards;
  last_error = "";
}

-- A change of a profile: GetOrCreate, the change, Save.
unfoldable pub change_profile :
    (ℕ → Bool) → String → String → (Profile → Profile) → Files → Option Files
unfolding get_or_create save
change_profile letter stamp open_id f d = elim (get_or_create letter open_id d) [
  | none ↦ none
  | some p ↦ save letter stamp (f p) d
]

abbrev pub turns_of : Option (List Turn) → List Turn
turns_of none = []
turns_of (some ts) = ts

-- ListTurns
unfoldable pub list_turns : (ℕ → Bool) → String → Files → List Turn
unfolding sanitize_open_id trim_space
list_turns letter open_id d =
    if trim_space open_id == ""
    then []
    else turns_of (d.turns (sanitize_open_id letter (trim_space open_id)))

-- AppendTurn; none is one of its two errors
unfoldable pub append_turn :
    (ℕ → Bool) → (String → String) → String → String → Turn → Files → Option Files
unfolding sanitize_open_id trim_space list_turns
append_turn letter strip now open_id t d =
    let t' : Turn = record t {
      ts = if t.ts == "" then now else t.ts;
      user = strip t.user;
      assistant = strip t.assistant;
    } in
    if trim_space open_id == "" || trim_space t.user == "" && trim_space t.assistant == ""
    then none
    else some (record d {
      turns =
          put (sanitize_open_id letter (trim_space open_id))
            (list_turns letter open_id d ++ t' ∷ []) d.turns;
    })

-- UnprofiledTurns
unfoldable pub unprofiled_turns : (ℕ → Bool) → String → ℕ → Files → List Turn
unfolding list_turns
unprofiled_turns letter open_id count d = drop count (list_turns letter open_id d)

-- ClearTurns
unfoldable pub clear_turns : (ℕ → Bool) → String → Files → Option Files
unfolding sanitize_open_id trim_space
clear_turns letter open_id d =
    if trim_space open_id == ""
    then none
    else some (record d { turns = delete (sanitize_open_id letter (trim_space open_id)) d.turns })
