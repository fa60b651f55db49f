-- ===== src/ChatStore/File.antt =====
-- internal/chatstore/store.go: the sessions and their form in the file, by the tags of the fields. A member
-- is found by its exact name, and one that is null leaves the zero value, as encoding/json does.
use yzj_bot_bridge.Prelude.{
  ℕ, zero, suc, String, ◌≡◌, refl, sym, ap, inl, inr, Option, none, some, List, [], ◌∷◌, eq_iff,
  ◌==◌, if◌then◌else◌, Bool-cases, length,
}
use yzj_bot_bridge.Json.{Json, null, bool, num, text, arr, obj, omit_text}

pub record Message : Type 0 where
  pub role : String
  pub content : String
  pub bot_id : String
  pub reasoning : String
  pub ts : String

pub record Session : Type 0 where
  pub id : String
  pub title : String
  pub bot_id : String
  pub bound_open_id : String
  pub updated_at : String
  pub messages : List Message

-- What reading the file gives.
pub data FileRead : Type 0 where
  missing unreadable empty unparsable : FileRead
  parsed : Json → FileRead

abbrev then_with {ℓ κ} : {A : Type ℓ} {B : Type κ} → Option A → (A → Option B) → Option B
then_with none f = none
then_with (some x) f = f x

item_at : {A : Type 0} → (A → Json) → List A → ℕ → Json
item_at encode [] i = null
item_at encode (x ∷ xs) zero = encode x
item_at encode (x ∷ xs) (suc i) = item_at encode xs i

message_json : Message → Json
unfolding omit_text
message_json m = obj (λ k.
    if k == "role"
    then text m.role
    else (if k == "content"
        then text m.content
        else (if k == "bot_id"
            then omit_text m.bot_id
            else (if k == "reasoning"
                then omit_text m.reasoning
                else (if k == "ts" then text m.ts else null)))))

session_json : Session → Json
unfolding omit_text message_json item_at
session_json s = obj (λ k.
    if k == "id"
    then text s.id
    else (if k == "title"
        then text s.title
        else (if k == "bot_id"
            then text s.bot_id
            else (if k == "bound_open_id"
                then omit_text s.bound_open_id
                else (if k == "updated_at"
                    then text s.updated_at
                    else (if k == "messages"
                        then arr (length s.messages) (item_at message_json s.messages)
                        else null))))))

-- What saveLocked writes.
unfoldable pub file_json : List Session → Json
unfolding session_json item_at
file_json ss = obj (λ k.
    if k == "version"
    then num 1
    else (if k == "sessions" then arr (length ss) (item_at session_json ss) else null))

-- A text, a number and a list as Unmarshal decodes them; none is its error.
text_of : Json → Option String
text_of null = some ""
text_of (text s) = some s
text_of (bool b) = none
text_of (num n) = none
text_of (arr n f) = none
text_of (obj f) = none

num_of : Json → Option ℕ
num_of null = some 0
num_of (num n) = some n
num_of (text s) = none
num_of (bool b) = none
num_of (arr n f) = none
num_of (obj f) = none

items_of : {A : Type 0} → (Json → Option A) → ℕ → (ℕ → Json) → Option (List A)
items_of decode zero f = some []
items_of decode (suc n) f =
    then_with (decode (f 0))
      (λ x. then_with (items_of decode n (λ i. f (suc i))) (λ xs. some (x ∷ xs)))

list_of : {A : Type 0} → (Json → Option A) → Json → Option (List A)
unfolding items_of
list_of decode null = some []
list_of decode (arr n f) = items_of decode n f
list_of decode (text s) = none
list_of decode (bool b) = none
list_of decode (num n) = none
list_of decode (obj f) = none

-- The members of an object; null has none.
members_of : Json → Option (String → Json)
members_of null = some (λ k. null)
members_of (obj f) = some f
members_of (text s) = none
members_of (bool b) = none
members_of (num n) = none
members_of (arr n f) = none

message_of : Json → Option Message
unfolding members_of text_of
message_of j = then_with (members_of j) (λ f. then_with (text_of (f "role")) (λ role.
    then_with (text_of (f "content")) (λ content. then_with (text_of (f "bot_id")) (λ bot_id.
      then_with (text_of (f "reasoning")) (λ reasoning. then_with (text_of (f "ts")) (λ ts.
        some (record {
          role = role;
          content = content;
          bot_id = bot_id;
          reasoning = reasoning;
          ts = ts;
        })))))))

session_of : Json → Option Session
unfolding members_of text_of list_of message_of
session_of j = then_with (members_of j) (λ f. then_with (text_of (f "id")) (λ id.
    then_with (text_of (f "title")) (λ title. then_with (text_of (f "bot_id")) (λ bot_id.
      then_with (text_of (f "bound_open_id")) (λ bound. then_with (text_of (f "updated_at")) (λ at.
        then_with (list_of message_of (f "messages")) (λ messages. some (record {
          id = id;
          title = title;
          bot_id = bot_id;
          bound_open_id = bound;
          updated_at = at;
          messages = messages;
        }))))))))

-- What Unmarshal makes of the file in Open.
unfoldable pub file_sessions : Json → Option (List Session)
unfolding members_of num_of list_of session_of
file_sessions j =
    then_with (members_of j)
      (λ f. then_with (num_of (f "version")) (λ version. list_of session_of (f "sessions")))

text_of-omit_text : (s : String) → text_of (omit_text s) ≡ some s
unfolding text_of omit_text
text_of-omit_text s = elim (Bool-cases (s == "")) [
  | inl blank ↦ rw (omit_text, blank) (ap some (sym ((eq_iff s "").0 blank)))
  | inr some_text ↦ rw (omit_text, some_text) refl
]

items_of-item_at :
    {A : Type 0} (encode : A → Json) (decode : Json → Option A) (xs : List A)
    → ((x : A) → decode (encode x) ≡ some x)
    → items_of decode (length xs) (item_at encode xs) ≡ some xs
unfolding items_of item_at
items_of-item_at encode decode [] back = refl
items_of-item_at encode decode (x ∷ xs) back =
    rw (back x, items_of-item_at encode decode xs back) refl

message_of-message_json : (m : Message) → message_of (message_json m) ≡ some m
unfolding message_of message_json
message_of-message_json m = rw (text_of-omit_text m.bot_id, text_of-omit_text m.reasoning) refl

session_of-session_json : (s : Session) → session_of (session_json s) ≡ some s
unfolding session_of session_json list_of
session_of-session_json s =
    rw
      (
        text_of-omit_text s.bound_open_id,
        items_of-item_at message_json message_of s.messages message_of-message_json,
      )
      refl

-- The sessions come back from what is written.
pub file_sessions-file_json : (ss : List Session) → file_sessions (file_json ss) ≡ some ss
unfolding file_sessions file_json list_of
file_sessions-file_json ss = items_of-item_at session_json session_of ss session_of-session_json
