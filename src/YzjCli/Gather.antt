-- ===== src/YzjCli/Gather.antt =====
-- gather against a group whose whole history is known: it returns the messages behind the cursor.
use yzj_bot_bridge.Prelude.{
  suc, ◌-◌, String, ◌≡◌, refl, sym, ap, ◌≢◌, false, none, some, List, [], ◌∷◌, ◌++◌, eq_refl,
  ==_of_ne, length, drop, All,
}
use yzj_bot_bridge.YzjCli.State.{has_recent}
use yzj_bot_bridge.YzjCli.Message.{Message}
use yzj_bot_bridge.YzjCli.Watcher.{Answer, page, index_of_msg, dedupe_from, dedupe_msgs}

-- No message of the list has this id.
abbrev pub NoId : String → List Message → Type 0
NoId id ms = All (λ m. m.msg_id ≢ id) ms

-- The ids are not empty and differ.
abbrev pub Uniq : List Message → Type 0
Uniq [] = Unit
Uniq (m ∷ ms) = (m.msg_id ≢ "") × NoId m.msg_id ms × Uniq ms

-- The newest twenty messages.
abbrev pub last_page : List Message → List Message
last_page ms = drop (length ms - 20) ms

-- What the tool's message list is documented to give for a group with this history, oldest first:
-- the newest twenty, and the twenty before an anchor.
pub record Serves (history newest : List Message) (old : String → Answer) : Type 0 where
  pub first : newest ≡ last_page history
  pub older :
      (before after : List Message) (anchor : Message)
      → history ≡ before ++ anchor ∷ after
      → old anchor.msg_id ≡ page (last_page before)

pub Uniq-right : (xs ys : List Message) → Uniq (xs ++ ys) → Uniq ys
Uniq-right [] ys u = u
Uniq-right (x ∷ xs) ys u = Uniq-right xs ys u.2

pub All-right {κ} : (P : Message → Type κ) (xs ys : List Message) → All P (xs ++ ys) → All P ys
All-right P [] ys a = a
All-right P (x ∷ xs) ys a = All-right P xs ys a.1

pub All-left {κ} : (P : Message → Type κ) (xs ys : List Message) → All P (xs ++ ys) → All P xs
All-left P [] ys a = tt
All-left P (x ∷ xs) ys a = (a.0, All-left P xs ys a.1)

pub index_of_msg-none : (ms : List Message) (id : String) → NoId id ms → index_of_msg ms id ≡ none
unfolding index_of_msg
index_of_msg-none [] id n = refl
index_of_msg-none (m ∷ ms) id n = rw (index_of_msg-none ms id n.1, ==_of_ne m.msg_id id n.0)

pub index_of_msg-last :
    (xs ys : List Message) (m : Message)
    → NoId m.msg_id ys
    → index_of_msg (xs ++ m ∷ ys) m.msg_id ≡ some (length xs)
unfolding index_of_msg
index_of_msg-last [] ys m n = rw (index_of_msg-none ys m.msg_id n, eq_refl m.msg_id)
index_of_msg-last (x ∷ xs) ys m n = rw (index_of_msg-last xs ys m n)

pub drop-after : (xs ys : List Message) (m : Message) → drop (suc (length xs)) (xs ++ m ∷ ys) ≡ ys
drop-after [] ys m = refl
drop-after (x ∷ xs) ys m = drop-after xs ys m

has_recent-ne :
    (seen : List String) (id other : String)
    → has_recent seen other ≡ false
    → other ≢ id
    → has_recent (id ∷ seen) other ≡ false
unfolding has_recent
has_recent-ne seen id other h n = rw (==_of_ne id other (λ e. n (sym e))) h

Unseen-cons :
    (seen : List String) (id : String) (ms : List Message)
    → NoId id ms
    → All (λ m. has_recent seen m.msg_id ≡ false) ms
    → All (λ m. has_recent (id ∷ seen) m.msg_id ≡ false) ms
Unseen-cons seen id [] n a = tt
Unseen-cons seen id (m ∷ ms) n a =
    (has_recent-ne seen id m.msg_id a.0 n.0, Unseen-cons seen id ms n.1 a.1)

dedupe_from-Uniq :
    (seen : List String) (ms : List Message)
    → Uniq ms
    → All (λ m. has_recent seen m.msg_id ≡ false) ms
    → dedupe_from seen ms ≡ ms
unfolding dedupe_from
dedupe_from-Uniq seen [] u a = refl
dedupe_from-Uniq seen (m ∷ ms) u a =
    rw (==_of_ne m.msg_id "" u.0, a.0)
      (ap (λ rest. m ∷ rest)
        (dedupe_from-Uniq (m.msg_id ∷ seen) ms u.2 (Unseen-cons seen m.msg_id ms u.1 a.1)))

All-unseen : (ms : List Message) → All (λ m. has_recent [] m.msg_id ≡ false) ms
unfolding has_recent
All-unseen [] = tt
All-unseen (m ∷ ms) = (refl, All-unseen ms)

pub dedupe_msgs-Uniq : (ms : List Message) → Uniq ms → dedupe_msgs ms ≡ ms
unfolding dedupe_msgs
dedupe_msgs-Uniq ms u = dedupe_from-Uniq [] ms u (All-unseen ms)
