-- ===== src/YzjCli/Delivery.antt =====
-- pollOnce hands out the messages behind the cursor.
use mathlib.Core.Path.{subst}
use yzj_bot_bridge.Prelude.{
  ℕ, zero, suc, ◌+◌, ◌-◌, ◌*◌, ◌<◌, String, ◌≡◌, refl, sym, ap, ◌∙◌, ◌≢◌, inl, inr, true, false,
  none, some, List, [], ◌∷◌, ◌++◌, arith, eq_refl, ltb, if◌then◌else◌, Bool-cases, ==_of_ne, length,
  drop, All, length-append, put_self, trim_space,
}
use yzj_bot_bridge.YzjCli.State.{
  GroupState, zero_state, StateStore, update_state, stored, has_recent, append_recent, cut_ring,
  ring_max,
}
use yzj_bot_bridge.YzjCli.Message.{Message, is_recall}
use yzj_bot_bridge.YzjCli.Watcher.{
  Watcher, page, Env, Output, on_message, gathered, gather, dispatch, dispatch_one, handled,
  catchup,
}
use yzj_bot_bridge.YzjCli.Gather.{NoId, Uniq, Uniq-right, Serves, last_page}
use yzj_bot_bridge.YzjCli.Catchup.{gather_found, drop-cons}
use yzj_bot_bridge.YzjCli.Poll.{
  poll_once, wait_shared_poll_goes, polled, on_answer, on_page, catch_up, advance, on_cursor,
  last_msg,
}

-- What the consumer gets of a list of new messages: all but the notices of a recall.
unfoldable pub posts : List Message → List Output
posts [] = []
posts (m ∷ ms) = if is_recall m then posts ms else on_message m ∷ posts ms

-- The ids of these messages are not in the group's ring.
abbrev pub Fresh : StateStore → String → List Message → Type 0
Fresh store key ms = All (λ m. has_recent (stored store key).recent_msg_ids m.msg_id ≡ false) ms

has_recent-drop-false :
    (n : ℕ) (ids : List String) (id : String)
    → has_recent ids id ≡ false
    → has_recent (drop n ids) id ≡ false
unfolding has_recent
has_recent-drop-false zero ids id h = h
has_recent-drop-false (suc n) [] id h = refl
has_recent-drop-false (suc n) (v ∷ vs) id h = has_recent-drop-false n vs id (ground (arith, h))

has_recent-snoc-false :
    (ids : List String) (id other : String)
    → has_recent ids other ≡ false
    → id ≢ other
    → has_recent (ids ++ id ∷ []) other ≡ false
unfolding has_recent
has_recent-snoc-false [] id other h n = rw (==_of_ne id other n) refl
has_recent-snoc-false (v ∷ vs) id other h n =
    ground (arith, h, has_recent-snoc-false vs id other (ground (arith, h)) n)

cut_ring-false :
    (max : ℕ) (ids : List String) (other : String)
    → has_recent ids other ≡ false
    → has_recent (cut_ring max ids) other ≡ false
unfolding cut_ring
cut_ring-false max ids other h = elim (Bool-cases (ltb max (length ids))) [
  | inl over ↦ rw (cut_ring, over) (has_recent-drop-false (length ids - max) ids other h)
  | inr room ↦ rw (cut_ring, room) h
]

append_recent-false :
    (ids : List String) (id other : String) (max : ℕ)
    → has_recent ids other ≡ false
    → id ≢ other
    → has_recent (append_recent ids id max) other ≡ false
unfolding append_recent
append_recent-false ids id other max h n = elim (Bool-cases (has_recent ids id)) [
  | inl old ↦ rw (append_recent, old) h
  | inr new ↦
      rw (append_recent, new)
        (cut_ring-false (ring_max max) (ids ++ id ∷ []) other
          (has_recent-snoc-false ids id other h n))
]

stored_update :
    (store : StateStore) (key : String) (now : ℕ) (f : GroupState → GroupState)
    → stored (update_state now key f store) key ≡ record (f (stored store key)) { updated_at = now }
unfolding update_state
stored_update store key now f =
    ap (λ o. elim o as (λ o. GroupState) [ none ↦ zero_state | some st ↦ st ])
      (put_self key (record (f (stored store key)) { updated_at = now }) store)

-- Handling one message keeps the others fresh.
Fresh-handled :
    (store : StateStore) (key : String) (now : ℕ) (m : Message) (ms : List Message)
    → NoId m.msg_id ms
    → Fresh store key ms
    → Fresh (update_state now key (handled m) store) key ms
unfolding handled
Fresh-handled store key now m [] n f = tt
Fresh-handled store key now m (m' ∷ ms) n f = (
  ap (λ st. has_recent st.recent_msg_ids m'.msg_id) (stored_update store key now (handled m))
      ∙ append_recent-false (stored store key).recent_msg_ids m.msg_id m'.msg_id 200 f.0
          (λ e. n.0 (sym e)),
  Fresh-handled store key now m ms n.1 f.1,
)

-- The watcher once a message is handled.
abbrev after_message : Env → Message → Watcher → Watcher
after_message env m w = record w {
  last_msg_at = elim (env.send_time_value m.send_time) [ none ↦ w.last_msg_at | some t ↦ t ];
  store = update_state env.now w.key (handled m) w.store;
}

-- dispatch hands out fresh messages in their order.
dispatch-posts :
    (env : Env) (ms : List Message) (w : Watcher)
    → Uniq ms
    → Fresh w.store w.key ms
    → ((dispatch env ms w).1 ≡ posts ms) × ((dispatch env ms w).0.key ≡ w.key)
unfolding dispatch dispatch_one posts
dispatch-posts env [] w u f = (refl, refl)
dispatch-posts env (m ∷ ms) w u f = elim (Bool-cases (is_recall m)) [
  | inl recall ↦ rw (dispatch, dispatch_one, recall, posts) (dispatch-posts env ms w u.2 f.1)
  | inr plain ↦
      let rest =
        dispatch-posts env ms (after_message env m w) u.2
          (Fresh-handled w.store w.key env.now m ms u.1 f.1) in
      rw (dispatch, dispatch_one, plain, f.0, posts) (ap (λ l. on_message m ∷ l) rest.0, rest.1)
]

catch_up-posts :
    (env : Env) (ms new : List Message) (newest : Message) (cursor : String) (w : Watcher)
    → gather w env.old ms cursor ≡ gathered new true
    → Uniq new
    → Fresh w.store w.key new
    → ((catch_up env ms newest cursor w).1 ≡ posts new)
      × ((stored (catch_up env ms newest cursor w).0.store w.key).last_msg_id ≡ newest.msg_id)
unfolding catch_up advance
catch_up-posts env ms new newest cursor w e u f =
    rw (catch_up, e)
      (
        all.0,
        subst
            (λ key.
              (stored (update_state env.now key (on_cursor newest) (dispatch env new w).0.store)
                w.key).last_msg_id
              ≡ newest.msg_id)
            (sym all.1)
            (ap (λ st. st.last_msg_id)
              (stored_update (dispatch env new w).0.store w.key env.now (on_cursor newest))),
      )
  where
    all : ((dispatch env new w).1 ≡ posts new) × ((dispatch env new w).0.key ≡ w.key)
    all = dispatch-posts env new w u f

last_msg-append : (d m : Message) (xs ys : List Message) → last_msg d (xs ++ m ∷ ys) ≡ last_msg m ys
unfolding last_msg
last_msg-append d m [] ys = refl
last_msg-append d m (x ∷ xs) ys = last_msg-append x m xs ys

last_msg-drop :
    (n : ℕ) (d : Message) (xs : List Message)
    → n < length xs
    → last_msg d (drop n xs) ≡ last_msg d xs
unfolding last_msg
last_msg-drop n d [] h = absurd (omega arith)
last_msg-drop zero d (x ∷ xs) h = refl
last_msg-drop (suc zero) d (x ∷ []) h = absurd (omega arith)
last_msg-drop (suc n) d (x ∷ (y ∷ ys)) h = last_msg-drop n d (y ∷ ys) (omega arith)
last_msg-drop (suc (suc n)) d (x ∷ []) h = absurd (omega arith)

NoId-last :
    (id : String) (m : Message) (ms : List Message) → NoId id (m ∷ ms) → (last_msg m ms).msg_id ≢ id
unfolding last_msg
NoId-last id m [] n = n.0
NoId-last id m (m' ∷ ms) n = NoId-last id m' ms n.1

on_page-posts :
    (env : Env) (ms back : List Message) (m : Message) (w : Watcher)
    → gather w env.old ms m.msg_id ≡ gathered back true
    → Uniq (m ∷ back)
    → Fresh w.store w.key back
    → (stored w.store w.key).last_msg_id ≡ m.msg_id
    → trim_space m.msg_id ≢ ""
    → ((on_page env ms (last_msg m back) w).1 ≡ posts back)
      × ((stored (on_page env ms (last_msg m back) w).0.store w.key).last_msg_id
          ≡ (last_msg m back).msg_id)
unfolding on_page last_msg posts
on_page-posts env ms [] m w g u f cursor set =
    rw (on_page, cursor, ==_of_ne (trim_space m.msg_id) "" set, eq_refl m.msg_id) (refl, cursor)
on_page-posts env ms (b ∷ bs) m w g u f cursor set =
    rw
      (
        on_page,
        cursor,
        ==_of_ne (trim_space m.msg_id) "" set,
        ==_of_ne m.msg_id (last_msg b bs).msg_id (λ e. NoId-last m.msg_id b bs u.1 (sym e)),
      )
      (catch_up-posts env ms (b ∷ bs) (last_msg b bs) m.msg_id w g u.2 f)

module _ (env : Env) (w : Watcher) (history front back : List Message) (m : Message) where
  -- The poll goes through, and the group has at least the message on which the cursor stands.
  pub record Polls : Type 0 where
    pub goes : env.done ≡ false
    pub serves : Serves history (last_page history) env.old
    pub page_is : env.newest ≡ page (last_page history)
    pub uniq : Uniq history
    pub is : history ≡ front ++ m ∷ back
    pub cursor : (stored w.store w.key).last_msg_id ≡ m.msg_id
    pub set : trim_space m.msg_id ≢ ""
    pub near : length back < 20 * (catchup w.catchup_pages + 1)
    pub fresh : Fresh w.store w.key back

  -- A poll whose context goes on, in a group whose history the tool serves with ids that differ and
  -- are not empty, with the cursor on a message that has fewer messages behind it than the newest
  -- page and the budget of older pages hold, none of them in the ring of handled ones: it hands out
  -- the messages behind the cursor, in their order and without the recall notices, and the cursor is
  -- then on the newest message.
  pub poll_delivers :
      Polls
      → ((poll_once env w).1 ≡ posts back)
        × ((stored (poll_once env w).0.store w.key).last_msg_id ≡ (last_msg m back).msg_id)
  unfolding poll_once on_answer polled last_msg
  poll_delivers p = shown (drop-cons (length history - 20) history some_history)
    where
      some_history : length history - 20 < length history
      some_history = omega (arith, ap length p.is, length-append front (m ∷ back))

      shown :
          ((x : Message) × (xs : List Message) × last_page history ≡ x ∷ xs)
          → ((poll_once env w).1 ≡ posts back)
            × ((stored (poll_once env w).0.store w.key).last_msg_id ≡ (last_msg m back).msg_id)
      shown (x, xs, cut) =
          rw
            (
              poll_once,
              wait_shared_poll_goes env w p.goes,
              p.page_is,
              cut,
              on_answer,
              newest_is,
              ← cut,
            )
            (on_page-posts env (last_page history) back m (polled env.now w) found
              (Uniq-right front (m ∷ back) (subst Uniq p.is p.uniq)) p.fresh p.cursor p.set)
        where
          newest_is : last_msg x xs ≡ last_msg m back
          newest_is =
              ap (last_msg m) (sym cut)
              ∙ last_msg-drop (length history - 20) m history some_history
              ∙ ap (last_msg m) p.is
              ∙ last_msg-append m m front back

          found :
              gather (polled env.now w) env.old (last_page history) m.msg_id ≡ gathered back true
          found =
              gather_found history (last_page history) env.old p.serves p.uniq (polled env.now w)
                front back m p.is p.near
