-- ===== src/LogBuf.antt =====
-- internal/logbuf/logbuf.go: a ring of the newest log lines, which are also appended to a file for
-- each day. The clock and the outcome of the file operations are arguments.
pub mod Bot
pub mod Window
mod Examples
use yzj_bot_bridge.Prelude.{
  ℕ, ◌+◌, ◌-◌, String, Bool, not, ◌&&◌, ◌||◌, Option, none, some, List, [], ◌∷◌, ◌++◌, ltb, leb,
  nat_eq, ◌==◌, if◌then◌else◌, length, drop, concat, trim_space,
}
use Bot.{Line, guess_bot, match_bot}

pub record Buffer : Type 0 where
  pub cap : ℕ
  pub seq : ℕ  -- int64, counted up by one for each line
  pub lines : List Line
  pub persist_dir : String
  pub file : Option String  -- the path of the open file
  pub file_day : String

-- time.Now: the two formats that the code makes of it.
pub record Now : Type 0 where
  pub stamp : String
  pub day : String

-- What the file system answers: MkdirAll and OpenFile succeed or not, a line is encoded or not.
pub record Files : Type 0 where
  pub mkdir : Bool
  pub open_file : Bool
  pub marshal : Bool

-- What a write adds to the disk: the path of the file and the line.
abbrev pub Disk : Type 0
Disk = List (String × Line)

-- NewWithDir; a capacity below one is 2000
pub new_with_dir : ℕ → String → Buffer
unfolding trim_space
new_with_dir capacity dir = record {
  cap = if nat_eq capacity 0 then 2000 else capacity;
  seq = 0;
  lines = [];
  persist_dir = trim_space dir;
  file = none;
  file_day = "";
}

-- New
pub new : ℕ → Buffer
unfolding new_with_dir
new capacity = new_with_dir capacity ""

-- PersistDir
pub get_persist_dir : Option Buffer → String
get_persist_dir none = ""
get_persist_dir (some b) = b.persist_dir

-- Close
pub close : Buffer → Buffer
close b = elim b.file [ none ↦ b | some path ↦ record b { file = none; file_day = "" } ]

-- filepath.Join of two names, without its cleaning.
file_path : String → String → String
file_path dir day = concat dir (concat "/runtime-" (concat day ".jsonl"))

write_line : Buffer → Files → Line → Option String → Buffer × Disk
write_line b f line none = (b, [])
write_line b f line (some path) = (b, if f.marshal then (path, line) ∷ [] else [])

-- The part of persistLocked that opens the file of another day.
open_day : Buffer → Now → Files → Line → Buffer × Disk
unfolding file_path write_line
open_day b now f line =
    let closed : Buffer = record b { file = none } in
    let path = file_path b.persist_dir now.day in
    let opened : Buffer = record b { file = some path; file_day = now.day } in
    if not f.mkdir || not f.open_file then (closed, []) else write_line opened f line (some path)

pub persist_locked : Buffer → Now → Files → Line → Buffer × Disk
unfolding open_day write_line
persist_locked b now f line = if b.persist_dir == "" then (b, []) else elim b.file [
  | none ↦ open_day b now f line
  | some path ↦
      if b.file_day == now.day then write_line b f line (some path) else open_day b now f line
]

-- The line that Append makes.
pub line_of : Buffer → Now → String → String → String → Line
unfolding guess_bot
line_of b now level bot message = record {
  seq = b.seq + 1;
  time = now.stamp;
  level = level;
  bot = if bot == "" then guess_bot message else bot;
  message = message;
}

-- The ring after a line more.
pub push_line : ℕ → List Line → Line → List Line
push_line cap lines line =
    let all = lines ++ line ∷ [] in
    if ltb cap (length all) then drop (length all - cap) all else all

-- Append
pub append : Buffer → Now → Files → String → String → String → Buffer × Line × Disk
unfolding line_of push_line persist_locked
append b now f level bot message =
    let line = line_of b now level bot message in
    let (b', disk) =
      persist_locked (record b { seq = b.seq + 1; lines = push_line b.cap b.lines line }) now f
        line in
    (b', line, disk)

-- Since
pub since : List Line → ℕ → String → List Line
unfolding match_bot
since [] seq bot_filter = []
since (l ∷ ls) seq bot_filter =
    let rest = since ls seq bot_filter in
    if leb l.seq seq
    then rest
    else if not (bot_filter == "") && not (match_bot l bot_filter)
    then rest
    else l ∷ rest
