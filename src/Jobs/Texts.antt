-- ===== src/Jobs/Texts.antt =====
-- The texts that users add to a running or a waiting job, and where they get lost.
use mathlib.Core.Bool.{and-false}
use yzj_bot_bridge.Prelude.{
  String, ◌≡◌, refl, sym, ◌∙◌, ◌≢◌, not, none, some, List, [], ◌∷◌, eq_refl, ◌==◌, if◌then◌else◌,
  ==_of_ne, ==_of_eq, concat,
}
use yzj_bot_bridge.Jobs.Types.{accepted, idle_slot, Item, Slot, merged}
use yzj_bot_bridge.Jobs.{
  Manager, slot, accept, merge_extra, try_accept, drain_extra, drain_slot, finish, finish_slot,
  pop_waiter,
}

-- What the texts make of what was there: each on a line of its own.
abbrev pub joined : String → List String → String
joined x [] = x
joined x (t ∷ ts) = joined (if x == "" then t else concat x (concat "\n" t)) ts

module _ {P : Type 0} where
  -- The runner's calls of TryAccept with these texts, one after the other.
  pub add_texts : Manager P → String → Item P → List String → Manager P
  add_texts m k item [] = m
  add_texts m k item (t ∷ ts) = add_texts (try_accept m k (record item { content = t })).0 k item ts

  try_accept-merges :
      (m : Manager P) (k : String) (item : Item P) (s : Slot P)
      → m.slots k ≡ some s
      → item.open_id ≢ ""
      → s.busy_open_id ≡ item.open_id
      → ((try_accept m k item).1.status ≡ merged)
        × ((try_accept m k item).0.slots k
            ≡ some (record s { extra = joined s.extra (item.content ∷ []) }))
  unfolding try_accept slot merge_extra
  try_accept-merges m k item s e h b =
      rw
        (
          e,
          slot,
          ==_of_ne s.busy_open_id "" (λ p. h (sym b ∙ p)),
          ==_of_eq s.busy_open_id item.open_id b,
          eq_refl k,
        )
        (refl, refl)

  -- What DrainExtra gives the runner, and that it gives it once.
  pub Drains : Manager P → String → String → String → Type 0
  Drains m k u text =
      ((drain_extra m k u).1 ≡ text) × ((drain_extra (drain_extra m k u).0 k u).1 ≡ "")

  drain_extra-runner :
      (m : Manager P) (k u : String) (s : Slot P)
      → m.slots k ≡ some s
      → s.busy_open_id ≡ u
      → Drains m k u s.extra
  unfolding drain_extra Drains
  drain_extra-runner m k u s e b =
      rw
        (
          e,
          drain_extra,
          drain_slot,
          ==_of_eq s.busy_open_id u b,
          eq_refl k,
          drain_slot,
          ==_of_eq s.busy_open_id u b,
        )
        (refl, refl)

  -- The texts that the runner of a scope adds while the job runs come back from DrainExtra, behind
  -- those that had not been drained, in order and each on a line of its own; they come back once, a
  -- second DrainExtra gives nothing.
  pub drain-add_texts :
      (m : Manager P) (k : String) (item : Item P) (s : Slot P) (ts : List String)
      → m.slots k ≡ some s
      → item.open_id ≢ ""
      → s.busy_open_id ≡ item.open_id
      → Drains (add_texts m k item ts) k item.open_id (joined s.extra ts)
  unfolding add_texts
  drain-add_texts m k item s [] e h b = drain_extra-runner m k item.open_id s e b
  drain-add_texts m k item s (t ∷ ts) e h b =
      let item' : Item P = record item { content = t } in
      drain-add_texts (try_accept m k item').0 k item (record s { extra = joined s.extra (t ∷ []) })
        ts (try_accept-merges m k item' s e h b).1 h b

  -- What Finish leaves in the scope does not depend on the text that was not drained.
  pop_waiter-extra :
      (m m' : Manager P) (k x : String) (s : Slot P) (qs : List (Item P))
      → m'.next_ctx ≡ m.next_ctx
      → ((pop_waiter m' k (idle_slot (record s { extra = x })) qs).0.slots k
          ≡ (pop_waiter m k (idle_slot s) qs).0.slots k)
        × ((pop_waiter m' k (idle_slot (record s { extra = x })) qs).1
            ≡ (pop_waiter m k (idle_slot s) qs).1)
  unfolding pop_waiter
  pop_waiter-extra m m' k x s [] e = (rw (eq_refl k), refl)
  pop_waiter-extra m m' k x s (q ∷ qs) e = (rw (eq_refl k, e), refl)

  finish-extra :
      (m m' : Manager P) (k u x : String) (s : Slot P)
      → m.slots k ≡ some s
      → m'.slots k ≡ some (record s { extra = x })
      → s.busy_open_id ≡ u
      → m'.next_ctx ≡ m.next_ctx
      → ((finish m' k u).0.slots k ≡ (finish m k u).0.slots k)
        × ((finish m' k u).1 ≡ (finish m k u).1)
  unfolding finish finish_slot
  finish-extra m m' k u x s e e' b n =
      rw (e, e', finish_slot, ==_of_eq s.busy_open_id u b, and-false (not (s.busy_open_id == "")))
        (pop_waiter-extra m m' k x s s.queue n)

  try_accept-next :
      (m : Manager P) (k : String) (item : Item P) (s : Slot P)
      → m.slots k ≡ some s
      → item.open_id ≢ ""
      → s.busy_open_id ≡ item.open_id
      → (try_accept m k item).0.next_ctx ≡ m.next_ctx
  unfolding try_accept slot merge_extra
  try_accept-next m k item s e h b = rw (
    e,
    slot,
    ==_of_ne s.busy_open_id "" (λ p. h (sym b ∙ p)),
    ==_of_eq s.busy_open_id item.open_id b,
  )

  -- A text that the runner adds after the last DrainExtra of the job is lost: TryAccept answers
  -- that it was merged, and when the job then finishes the slot is what it would be without the
  -- text, so no later job or snapshot of the scope shows it.
  pub merged_text_lost :
      (m : Manager P) (k : String) (item : Item P) (s : Slot P)
      → m.slots k ≡ some s
      → item.open_id ≢ ""
      → s.busy_open_id ≡ item.open_id
      → ((try_accept m k item).1.status ≡ merged)
        × ((finish (try_accept m k item).0 k item.open_id).0.slots k
            ≡ (finish m k item.open_id).0.slots k)
        × ((finish (try_accept m k item).0 k item.open_id).1 ≡ (finish m k item.open_id).1)
  merged_text_lost m k item s e h b =
      let (status, left) = try_accept-merges m k item s e h b in
      let (same, next) =
        finish-extra m (try_accept m k item).0 k item.open_id (joined s.extra (item.content ∷ [])) s
          e left b (try_accept-next m k item s e h b) in
      (status, same, next)

  -- An anonymous job does not occupy its scope: while it runs, TryAccept accepts whoever comes, so
  -- two jobs of one scope run together.
  pub anonymous_job_overlaps :
      (m : Manager P) (k : String) (first second : Item P)
      → m.slots k ≡ none
      → first.open_id ≡ ""
      → ((try_accept m k first).1.status ≡ accepted)
        × ((try_accept (try_accept m k first).0 k second).1.status ≡ accepted)
  unfolding try_accept slot accept
  anonymous_job_overlaps m k first second e h = rw (e, h, slot, eq_refl k) (refl, refl)
