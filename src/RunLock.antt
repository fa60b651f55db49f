-- ===== src/RunLock.antt =====
-- internal/runlock/runlock.go: one binary semaphore for each key. The channel of a semaphore is the
-- Boolean "the token is in it". The release functions that were handed out and not yet called are
-- part of the state, and the callers that acquire, give up and release make its steps.
pub mod Exclusion
pub mod Examples
use yzj_bot_bridge.Prelude.{
  ℕ, suc, ◌<◌, String, Bool, true, false, ◌||◌, Option, none, some, List, [], ◌∷◌, ◌==◌,
  if◌then◌else◌, Dict, empty_dict, put, concat, trim_space, to_lower,
}

pub record Semaphore : Type 0 where
  pub ch : Bool

pub record Manager : Type 0 where
  pub sems : Dict Semaphore

unfoldable pub new : Manager
new = record { sems = empty_dict }

-- The `sem` of the source: makes the semaphore, with its token, where the key has none.
pub sem : Manager → String → Manager × Semaphore
sem m key = elim (m.sems key) [
  | none ↦ let s : Semaphore = record { ch = true } in (record m { sems = put key s m.sems }, s)
  | some s ↦ (m, s)
]

pub data Error : Type 0 where
  cancelled deadline_exceeded : Error

-- What `select` finds: the context is done with this error, or not; where both cases are ready Go
-- chooses one, which `prefer_done` decides.
pub record Chance : Type 0 where
  pub done : Option Error
  pub prefer_done : Bool

-- The outcome of Acquire: the lock, the error of the context, or still waiting.
pub data Outcome : Type 0 where
  granted : Outcome
  failed : Error → Outcome
  waiting : Outcome

take_token : Manager → String → Manager × Outcome
take_token m key = (record m { sems = put key (record { ch = false }) m.sems }, granted)

-- One look of the `select` in Acquire.
select : Manager → String → Bool → Option Error → Bool → Manager × Outcome
unfolding take_token
select m key true none prefer_done = take_token m key
select m key true (some e) prefer_done = if prefer_done then (m, failed e) else take_token m key
select m key false none prefer_done = (m, waiting)
select m key false (some e) prefer_done = (m, failed e)

-- Acquire, each time that it looks.
unfoldable pub acquire : Manager → String → Chance → Manager × Outcome
unfolding sem select
acquire m key c = let (m', s) = sem m key in select m' key s.ch c.done c.prefer_done

-- The function that Acquire returns: it puts the token back.
pub release : Manager → String → Manager
release m key = record m { sems = put key (record { ch = true }) m.sems }

-- NormalizeEngine
unfoldable pub normalize_engine : String → String
unfolding trim_space to_lower
normalize_engine backend =
    let b = to_lower (trim_space backend) in
    if b == "cursor_cli" || b == "cursor"
    then "cursor"
    else if b == "claude_code" || b == "claude"
    then "claude"
    else if b == "openai"
    then "openai"
    else b

-- SessionKey
unfoldable pub session_key : String → String → String → String
session_key engine bot_id key = concat engine (concat ":" (concat bot_id (concat ":" key)))

-- The manager and the keys of the release functions that wait to be called.
pub record World : Type 0 where
  pub manager : Manager
  pub held : List String

-- Takes one release function of this key out of those that wait.
unfoldable pub drop_held : String → List String → List String
drop_held key [] = []
drop_held key (k ∷ ks) = if k == key then ks else k ∷ drop_held key ks

unfoldable pub holders : String → List String → ℕ
holders key [] = 0
holders key (k ∷ ks) = if k == key then suc (holders key ks) else holders key ks

-- A caller keeps the release function that a granted Acquire returns.
unfoldable pub after_acquire : World → String → Manager × Outcome → World
after_acquire w key (m, granted) = record { manager = m; held = key ∷ w.held }
after_acquire w key (m, failed e) = record { manager = m; held = w.held }
after_acquire w key (m, waiting) = record { manager = m; held = w.held }

-- The interleavings: a caller looks, or one that holds the lock calls its release function once.
pub data Step (w : World) : World → Type 0 where
  looks : (key : String) (c : Chance) → Step w (after_acquire w key (acquire w.manager key c))
  releases :
      (key : String)
      → 0 < holders key w.held
      → Step w (record { manager = release w.manager key; held = drop_held key w.held })

abbrev pub init : World
init = record { manager = new; held = [] }

pub data Reach : World → Type 0 where
  start : Reach init
  later : {w w' : World} → Reach w → Step w w' → Reach w'
