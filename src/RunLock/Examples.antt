-- ===== src/RunLock/Examples.antt =====
-- The theorems about the run locks at two callers of one key.
use yzj_bot_bridge.Prelude.{◌+◌, ◌≤◌, ◌≡◌, refl, false, none, [], ◌∷◌, concat}
use yzj_bot_bridge.RunLock.Exclusion.{tokens, keys_exclusive}
use yzj_bot_bridge.RunLock.{
  new, Chance, acquire, World, holders, after_acquire, looks, init, Reach, start, later,
  normalize_engine, session_key,
}

abbrev free : Chance
free = record { done = none; prefer_done = false }

-- The first caller holds the lock; the second looks in vain.
contended-Reach : Reach (
    after_acquire
      (after_acquire init "k" (acquire init.manager "k" free))
      "k"
      (acquire (after_acquire init "k" (acquire init.manager "k" free)).manager "k" free))
contended-Reach = later (later start (looks "k" free)) (looks "k" free)

abbrev contended : World
contended =
    after_acquire (after_acquire init "k" (acquire init.manager "k" free)) "k"
      (acquire (after_acquire init "k" (acquire init.manager "k" free)).manager "k" free)

contended-held : contended.held ≡ "k" ∷ []
unfolding acquire after_acquire new
contended-held = refl

keys_exclusive_example :
    (holders "k" contended.held ≤ 1)
    × (tokens contended.manager "k" + holders "k" contended.held ≡ 1)
keys_exclusive_example = keys_exclusive contended-Reach "k"

engines :
    (normalize_engine " Cursor_CLI " ≡ "cursor")
    × (normalize_engine "claude" ≡ "claude")
    × (normalize_engine "DSH" ≡ "dsh")
    × (session_key "cursor" "bot" "user" ≡ "cursor:bot:user")
unfolding normalize_engine session_key concat
engines = (refl, refl, refl, refl)
