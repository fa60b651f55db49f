-- ===== src/Orchestrator/Locked.antt =====
-- Dispatches against the run locks: which calls of the engines run side by side.
use mathlib.Core.Path.{subst}
use yzj_bot_bridge.Prelude.{
  ℕ, suc, ◌+◌, ◌≤◌, ◌<◌, String, ◌≡◌, refl, sym, ap, ◌∙◌, Bool, true, false, Option, none, some,
  List, [], ◌∷◌, ◌++◌, arith, ◌==◌, if◌then◌else◌, ==_of_eq, Dict,
}
use yzj_bot_bridge.RunLock
use yzj_bot_bridge.RunLock.{
  World, Chance, Outcome, granted, failed, waiting, acquire, after_acquire, holders, drop_held,
  looks, releases, later, release, Manager,
}
use yzj_bot_bridge.RunLock.Exclusion.{keys_exclusive, holders-drop}
use yzj_bot_bridge.Registry.{get_bot}
use yzj_bot_bridge.Bots.{Config}
use yzj_bot_bridge.Sessions.Store.{Store}
use yzj_bot_bridge.Orchestrator.{
  RunResult, Env, Desk, Ask, Begun, refused, waits, asks, handler_id, look, after_lock, ask_of,
  begin_with, begin, complete,
}

-- The dispatches that share the locks, with the calls of engines that run.
pub record Work : Type 0 where
  pub desk : Desk
  pub working : List Ask

-- How many of the calls run under a key.
unfoldable pub working_on : String → List Ask → ℕ
working_on k [] = 0
working_on k (a ∷ more) = let rest = working_on k more in if a.lock_key == k then suc rest else rest

working_on-append :
    (k : String) (xs ys : List Ask) → working_on k (xs ++ ys) ≡ working_on k xs + working_on k ys
unfolding working_on
working_on-append k [] ys = omega arith
working_on-append k (x ∷ xs) ys = ground (arith, working_on-append k xs ys)

-- A dispatch adds its call, if it asks an engine.
unfoldable pub add_ask : List Ask → Begun → List Ask
add_ask working (refused r) = working
add_ask working (waits a) = working
add_ask working (asks a) = a ∷ working

-- The work when a dispatch begins.
unfoldable pub begun :
    {Pkgs : Type 0}
    → Env Pkgs
    → Work
    → String
    → String
    → String
    → String
    → Dict String
    → Chance
    → Work
unfolding begin add_ask
begun env w receive_bot_id content open_id name overrides c =
    let b = begin env w.desk receive_bot_id content open_id name overrides c in
    record { desk = b.0; working = add_ask w.working b.1 }

-- The work when a dispatch that waits looks at its lock again.
unfoldable pub looked :
    {Pkgs : Type 0} → Env Pkgs → Work → Ask → String → Dict String → Chance → Work
unfolding look add_ask
looked env w ask open_id overrides c =
    let b = look env w.desk ask open_id overrides c in
    record { desk = b.0; working = add_ask w.working b.1 }

-- What happens: a dispatch begins, one looks at its lock again, with what any dispatch may have resolved,
-- or an engine answers one.
pub data Step (w : Work) : Work → Type 1 where
  begins :
      {Pkgs : Type 0} (env : Env Pkgs) (receive_bot_id content open_id name : String)
      (overrides : Dict String) (c : Chance)
      → Step w (begun env w receive_bot_id content open_id name overrides c)
  looks_again :
      {Pkgs : Type 0} (env : Env Pkgs) (ask : Ask) (open_id : String) (overrides : Dict String)
      (c : Chance)
      → Step w (looked env w ask open_id overrides c)
  completes :
      (before after : List Ask) (a : Ask) (result : RunResult)
      → w.working ≡ before ++ a ∷ after
      → Step w (record { desk = (complete w.desk a result).0; working = before ++ after })

pub data Reach : Work → Type 1 where
  start :
      (store : Store)
      → Reach (record { desk = record { locks = RunLock.init; store = store }; working = [] })
  next : (w w' : Work) → Reach w → Step w w' → Reach w'

-- The locks are in a state that callers of Acquire lead to, and each call has the lock of its key.
pub record Held (d : Desk) (working : List Ask) : Type 0 where
  pub locks : RunLock.Reach d.locks
  pub keys : (k : String) → working_on k working ≡ holders k d.locks.held

added_key :
    (k : String) (a : Ask) (more : List Ask) (ks : List String)
    → working_on k more ≡ holders k ks
    → working_on k (a ∷ more) ≡ holders k (a.lock_key ∷ ks)
unfolding working_on holders
added_key k a more ks e = ap (λ n. if a.lock_key == k then suc n else n) e

module _ {Pkgs : Type 0} where
  after_lock-Held :
      (env : Env Pkgs) (d : Desk) (ask : Ask) (open_id : String) (overrides : Dict String)
      (working : List Ask) (m : Manager) (o : Outcome)
      → Held d working
      → RunLock.Reach (after_acquire d.locks ask.lock_key (m, o))
      → let b =
          after_lock env
            (record d { locks = after_acquire d.locks ask.lock_key (m, o) })
            ask
            open_id
            overrides
            o in
        Held b.0 (add_ask working b.1)
  unfolding after_lock after_acquire add_ask
  after_lock-Held env d ask open_id overrides working m granted h r = record {
    locks = r;
    keys = λ k. added_key k ask working d.locks.held (h.keys k);
  }
  after_lock-Held env d ask open_id overrides working m (failed e) h r = record {
    locks = r;
    keys = h.keys;
  }
  after_lock-Held env d ask open_id overrides working m waiting h r = record {
    locks = r;
    keys = h.keys;
  }

  look-Held :
      (env : Env Pkgs) (d : Desk) (ask : Ask) (open_id : String) (overrides : Dict String)
      (c : Chance) (working : List Ask)
      → Held d working
      → let b = look env d ask open_id overrides c in Held b.0 (add_ask working b.1)
  unfolding look add_ask
  look-Held env d ask open_id overrides c working h =
      let a = acquire d.locks.manager ask.lock_key c in
      after_lock-Held env d ask open_id overrides working a.0 a.1 h
        (later h.locks (looks ask.lock_key c))

  begin_with-Held :
      (env : Env Pkgs) (d : Desk) (handler : Option Config)
      (receive_bot_id content open_id name : String) (overrides : Dict String) (c : Chance)
      (working : List Ask)
      → Held d working
      → let b = begin_with env d handler receive_bot_id content open_id name overrides c in
        Held b.0 (add_ask working b.1)
  unfolding begin_with add_ask
  begin_with-Held env d none receive_bot_id content open_id name overrides c working h = h
  begin_with-Held env d (some handler) receive_bot_id content open_id name overrides c working h =
      look-Held env d (ask_of env d handler receive_bot_id content open_id name overrides) open_id
        overrides c working h

  begin-Held :
      (env : Env Pkgs) (d : Desk) (receive_bot_id content open_id name : String)
      (overrides : Dict String) (c : Chance) (working : List Ask)
      → Held d working
      → let b = begin env d receive_bot_id content open_id name overrides c in
        Held b.0 (add_ask working b.1)
  unfolding begin
  begin-Held env d receive_bot_id content open_id name overrides c working h =
      let id = handler_id env.registry env.visited receive_bot_id content in
      begin_with-Held env d (if env.has_backend id then get_bot id env.registry else none)
        receive_bot_id content open_id name overrides c working h

working_on-same :
    (k : String) (a : Ask) (after : List Ask)
    → (a.lock_key == k) ≡ true
    → working_on k (a ∷ after) ≡ suc (working_on k after)
unfolding working_on
working_on-same k a after e = rw e refl

working_on-other :
    (k : String) (a : Ask) (after : List Ask)
    → (a.lock_key == k) ≡ false
    → working_on k (a ∷ after) ≡ working_on k after
unfolding working_on
working_on-other k a after e = rw e refl

working_on-here :
    (a : Ask) (after : List Ask)
    → working_on a.lock_key (a ∷ after) ≡ suc (working_on a.lock_key after)
working_on-here a after = working_on-same a.lock_key a after (==_of_eq a.lock_key a.lock_key refl)

abbrev one_if : Bool → ℕ
one_if b = if b then 1 else 0

holders-same :
    (k : String) (a : Ask) (held : List String)
    → 0 < holders a.lock_key held
    → (a.lock_key == k) ≡ true
    → holders k held ≡ suc (holders k (drop_held a.lock_key held))
holders-same k a held pos e = omega (arith, holders-drop a.lock_key k held pos, ap one_if e)

holders-other :
    (k : String) (a : Ask) (held : List String)
    → 0 < holders a.lock_key held
    → (a.lock_key == k) ≡ false
    → holders k held ≡ holders k (drop_held a.lock_key held)
holders-other k a held pos e = omega (arith, holders-drop a.lock_key k held pos, ap one_if e)

complete-Held :
    (d : Desk) (before after : List Ask) (a : Ask) (result : RunResult)
    → Held d (before ++ a ∷ after)
    → Held (complete d a result).0 (before ++ after)
unfolding complete
complete-Held d before after a result h = record {
  locks = later h.locks (releases a.lock_key held_now);
  keys = λ k. left k (a.lock_key == k) refl;
}
  where
    count : (k : String) → working_on k before + working_on k (a ∷ after) ≡ holders k d.locks.held
    count k = sym (working_on-append k before (a ∷ after)) ∙ h.keys k

    held_now : 0 < holders a.lock_key d.locks.held
    held_now = omega (arith, count a.lock_key, working_on-here a after)

    left :
        (k : String) (b : Bool)
        → (a.lock_key == k) ≡ b
        → working_on k (before ++ after) ≡ holders k (drop_held a.lock_key d.locks.held)
    left k true e = omega (
      arith,
      count k,
      working_on-append k before after,
      working_on-same k a after e,
      holders-same k a d.locks.held held_now e,
    )
    left k false e = omega (
      arith,
      count k,
      working_on-append k before after,
      working_on-other k a after e,
      holders-other k a d.locks.held held_now e,
    )

step-Held : (w w' : Work) → Step w w' → Held w.desk w.working → Held w'.desk w'.working
unfolding begun looked
step-Held w _ (begins env receive_bot_id content open_id name overrides c) h =
    begin-Held env w.desk receive_bot_id content open_id name overrides c w.working h
step-Held w _ (looks_again env ask open_id overrides c) h =
    look-Held env w.desk ask open_id overrides c w.working h
step-Held w _ (completes before after a result e) h =
    complete-Held w.desk before after a result (subst (Held w.desk) e h)

pub reach-Held : (w : Work) → Reach w → Held w.desk w.working
unfolding working_on holders
reach-Held _ (start store) = record { locks = RunLock.start; keys = λ k. refl }
reach-Held w' (next w _ r s) = step-Held w w' s (reach-Held w r)

-- However dispatches begin, wait, ask and end, at most one call of an engine runs under the key of a
-- session at any time, and it holds the run lock of that key.
pub engine_exclusive :
    (w : Work) (k : String)
    → Reach w
    → (working_on k w.working ≤ 1) × (working_on k w.working ≡ holders k w.desk.locks.held)
engine_exclusive w k r =
    let h = reach-Held w r in
    (subst (λ n. n ≤ 1) (sym (h.keys k)) (keys_exclusive h.locks k).0, h.keys k)
