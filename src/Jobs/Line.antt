-- ===== src/Jobs/Line.antt =====
-- The abstract view of a scope: the users in it, the runner first and then the waiters in order.
-- What each operation does to that line.
use native.Mathlib.Numerals.{add-one}
use yzj_bot_bridge.Prelude.{
  ℕ, zero, suc, String, ◌≡◌, refl, ap, inl, inr, false, Option, none, some, List, [], ◌∷◌, ◌++◌,
  arith, eq_iff, eq_refl, ◌==◌, if◌then◌else◌, Bool-cases, Option-cases, get_elem?, length-append,
}
use yzj_bot_bridge.Jobs.Types.{Item, Slot, Result, empty_slot, merge_waiting}
use yzj_bot_bridge.Jobs.Waiters.{
  Absent, users, length-users, users-append, merge_waiting-Merged, merge_waiting-none,
  get_elem?-append_last,
}
use yzj_bot_bridge.Jobs.Invariant.{SlotInv, Inv}
use yzj_bot_bridge.Jobs.{Manager, slot, offer, accept, merge_extra, enqueue, try_accept}

-- A user joins a line: a user who stands in it stays where they are, another goes to its end.
abbrev pub join : String → List String → List String
join u [] = u ∷ []
join u (v ∷ vs) = if v == u then v ∷ vs else v ∷ join u vs

-- The head of the line leaves it, if it is this user.
abbrev pub leave : String → List String → List String
leave u [] = []
leave u (v ∷ vs) = if v == u then vs else v ∷ vs

join-Absent : (u : String) (vs : List String) → Absent u vs → join u vs ≡ vs ++ u ∷ []
join-Absent u [] a = refl
join-Absent u (v ∷ vs) a = ground (arith, eq_iff v u, join-Absent u vs a.1)

join_present : (u : String) (vs : List String) (i : ℕ) → get_elem? vs i ≡ some u → join u vs ≡ vs
join_present u [] i h = cc
join_present u (v ∷ vs) zero h = ground (arith, eq_iff v u)
join_present u (v ∷ vs) (suc i) h = ground (arith, join_present u vs i h)

module _ {P : Type 0} where
  abbrev pub members_of : Option (Slot P) → List String
  members_of none = []
  members_of (some s) = s.busy_open_id ∷ users s.queue

  abbrev pub members : Manager P → String → List String
  members m k = members_of (m.slots k)

  -- The line and the place that a call of TryAccept leaves, in one statement for each branch.
  pub record Joined (m : Manager P) (k u : String) (before : List String) (r : Result)
      : Type 0 where
    pub line : members m k ≡ join u before
    pub place : get_elem? (members m k) r.position ≡ some u

  enqueue-Joined :
      (m : Manager P) (k : String) (s : Slot P) (item : Item P)
      → (s.busy_open_id == item.open_id) ≡ false
      → (r : Option (List (Item P) × ℕ))
      → merge_waiting item.open_id item.name item.content item.payload s.queue ≡ r
      → Joined
          (enqueue m k s item r).0
          k
          item.open_id
          (s.busy_open_id ∷ users s.queue)
          (enqueue m k s item r).1
  unfolding enqueue
  enqueue-Joined m k s item other none new_user =
      let a =
        merge_waiting-none item.open_id item.name item.content item.payload s.queue new_user in
      record {
        line = rw (
          eq_refl k,
          other,
          users-append s.queue (item ∷ []),
          join-Absent item.open_id (users s.queue) a,
        );
        place =
            rw (eq_refl k, length-append s.queue (item ∷ []), users-append s.queue (item ∷ []))
              (rw (add-one, ← length-users s.queue)
                (get_elem?-append_last (users s.queue) item.open_id));
      }
  enqueue-Joined m k s item other (some (qs, i)) found =
      let g =
        merge_waiting-Merged item.open_id item.name item.content item.payload s.queue qs i found in
      record {
        line = rw (
          eq_refl k,
          other,
          g.same_users,
          join_present item.open_id (users s.queue) i g.at_place,
        );
        place = rw (eq_refl k, g.same_users) (rw add-one g.at_place);
      }

  offer-Joined :
      (m : Manager P) (k : String) (s : Slot P) (item : Item P)
      → SlotInv s
      → Joined
          (offer m k s item).0
          k
          item.open_id
          (s.busy_open_id ∷ users s.queue)
          (offer m k s item).1
  unfolding offer merge_extra
  offer-Joined m k s item w = elim (Bool-cases (s.busy_open_id == "")) [
    | inl idle ↦ absurd (w.runs ((eq_iff s.busy_open_id "").0 idle))
    | inr running ↦ elim (Bool-cases (s.busy_open_id == item.open_id)) [
      | inl same ↦ record {
        line = rw (running, offer, same, merge_extra, eq_refl k);
        place =
            rw (running, offer, same, merge_extra, eq_refl k)
              (ap some ((eq_iff s.busy_open_id item.open_id).0 same));
      }
      | inr other ↦
          rw (running, offer, other)
            (enqueue-Joined m k s item other
              (merge_waiting item.open_id item.name item.content item.payload s.queue) refl)
    ]
  ]

  accept-Joined :
      (m : Manager P) (k u name content : String)
      → Joined
          (accept m k empty_slot u name content).0
          k
          u
          []
          (accept m k empty_slot u name content).1
  unfolding accept
  accept-Joined m k u name content = record {
    line = rw (accept, eq_refl k);
    place = rw (accept, eq_refl k);
  }

  -- In a state that the calls reach, TryAccept leaves the caller in the line of the scope: at the end,
  -- or where the caller was before. The position that it answers is the caller's place in that line,
  -- counted from the runner at 0, whether the job runs, is merged, waits or was waiting.
  pub try_accept-Joined :
      (m : Manager P) (k : String) (item : Item P)
      → Inv m
      → Joined (try_accept m k item).0 k item.open_id (members m k) (try_accept m k item).1
  unfolding try_accept
  try_accept-Joined m k item v = elim (Option-cases (m.slots k)) [
    | inl e ↦ rw (e, try_accept, slot) (accept-Joined m k item.open_id item.name item.content)
    | inr (s, e) ↦ rw (e, try_accept, slot) (offer-Joined m k s item (v.slots k s e))
  ]
