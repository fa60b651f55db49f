-- ===== src/YzjOut/Send.antt =====
-- internal/yzjout/yzjout.go: sendOnce, with its tries, and the parts of SendText. What the server does
-- in each try is an argument; its body stands for what the JSON decoder makes of it.
use yzj_bot_bridge.Prelude.{
  ℕ, zero, suc, String, ◌≡◌, Bool, ◌||◌, Option, none, some, leb, nat_eq, ◌==◌, if◌then◌else◌,
  concat, first_runes,
}

pub record ReplyMeta : Type 0 where
  pub msg_id : String
  pub summary : String
  pub person_name : String
  pub group_type : ℕ

pub record Reference : Type 0 where
  pub reply_msg_id : String
  pub reply_summary : String
  pub reply_person_name : String

-- The body of a message: whom it notifies, and the message that it refers to.
pub record Payload : Type 0 where
  pub content : String
  pub notify : Option String
  pub reference : Option Reference

pub record Business : Type 0 where
  pub success : Bool
  pub error : String
  pub error_code : String  -- in decimal

-- One try: the request cannot be made, there is no answer, or one with a status and a body.
pub data Attempt : Type 0 where
  bad_request no_answer : String → Attempt
  answers : ℕ → Option Business → Attempt

reference_of : ReplyMeta → Reference
reference_of r = record {
  reply_msg_id = r.msg_id;
  reply_summary = first_runes 200 r.summary;
  reply_person_name = r.person_name;
}

notify_of : String → Option ReplyMeta → Option String
notify_of open_id none = if open_id == "" then none else some open_id
notify_of open_id (some r) = if open_id == "" || nat_eq r.group_type 3 then none else some open_id

-- The payload of sendOnce.
unfoldable pub payload_of : String → String → Option ReplyMeta → Payload
unfolding notify_of reference_of
payload_of content open_id reply = record {
  content = content;
  notify = notify_of open_id reply;
  reference = elim reply [
    | none ↦ none
    | some r ↦ if r.msg_id == "" then none else some (reference_of r)
  ];
}

-- parseBizError
unfoldable pub parse_biz_error : Option Business → String
parse_biz_error none = ""
parse_biz_error (some b) =
    if b.success
    then ""
    else (concat (if b.error == "" then "unknown error" else b.error)
        (concat " (errorCode=" (concat b.error_code ")")))

-- What a try comes to: the message is there, it is refused for good, or it may be tried again.
pub data Verdict : Type 0 where
  delivered : Verdict
  refused again : String → Verdict

status_text : (ℕ → String) → ℕ → String
status_text show code = concat "http " (show code)

unfoldable pub verdict : (ℕ → String) → Attempt → Verdict
unfolding parse_biz_error status_text
verdict show (bad_request e) = refused e
verdict show (no_answer e) = again e
verdict show (answers code body) =
    let biz = parse_biz_error body in
    if leb 500 code
    then again (status_text show code)
    else (if leb 400 code
        then refused (status_text show code)
        else (if biz == "" then delivered else refused (concat "yzj biz error: " biz)))

-- The tries that are left, from the i-th on; `none` is success.
unfoldable pub try_send : (ℕ → String) → (ℕ → Attempt) → ℕ → ℕ → Option String → Option String
unfolding verdict
try_send show server zero i last_err = last_err
try_send show server (suc left) i last_err = elim (verdict show (server i)) [
  | delivered ↦ none
  | refused e ↦ some e
  | again e ↦ try_send show server left (suc i) (some e)
]

-- The loop of sendOnce.
unfoldable pub send_once : (ℕ → String) → (ℕ → Attempt) → Option String
unfolding try_send
send_once show server = try_send show server 3 0 none

-- Whether a message gets through depends on the first try that is not one to repeat.
pub Delivers : (ℕ → String) → (ℕ → Attempt) → ℕ → Type 0
Delivers show server i = verdict show (server i) ≡ delivered

-- The try may be repeated.
pub Repeats : (ℕ → String) → (ℕ → Attempt) → ℕ → Type 0
Repeats show server i = (e : String) × verdict show (server i) ≡ again e
