-- ===== src/YzjCli/Examples.antt =====
-- The theorems about the watcher at a group of three messages.
use mathlib.Core.Path.{subst}
use yzj_bot_bridge.Prelude.{
  String, ◌≡◌, refl, sym, ap, ◌∙◌, ◌≢◌, true, false, none, List, [], ◌∷◌, ◌++◌, arith, eq_iff,
  eq_refl, ◌==◌, if◌then◌else◌, ==_of_ne, trim_space,
}
use yzj_bot_bridge.YzjCli.Errors.{PollError, cli, is_auth_error}
use yzj_bot_bridge.YzjCli.State.{zero_state, stored, has_recent, put_state}
use yzj_bot_bridge.YzjCli.Message.{Message, MessageParam}
use yzj_bot_bridge.YzjCli.Watcher.{index_of_msg, Watcher, Answer, page, failed, Env}
use yzj_bot_bridge.YzjCli.Gather.{NoId, Uniq, Serves, last_page}
use yzj_bot_bridge.YzjCli.Poll.{poll_once, poll_all, last_msg}
use yzj_bot_bridge.YzjCli.Delivery.{posts, poll_delivers}
use yzj_bot_bridge.YzjCli.Throttle.{messages}
use yzj_bot_bridge.YzjCli.Rounds.{Fails, older_fails, fails_here, poll_once-failed}
use yzj_bot_bridge.YzjCli.Login.{RefusedLogin, poll_all-refused}

-- The messages in front of the one with the id.
before_id : String → List Message → List Message
before_id id [] = []
before_id id (m ∷ ms) = if m.msg_id == id then [] else m ∷ before_id id ms

before_id_lem :
    (before after : List Message) (a : Message)
    → Uniq (before ++ a ∷ after)
    → before_id a.msg_id (before ++ a ∷ after) ≡ before
unfolding before_id
before_id_lem [] after a u = rw (eq_refl a.msg_id) refl
before_id_lem (m ∷ ms) after a u =
    rw (==_of_ne m.msg_id a.msg_id (λ e. apart ms after m a u.1 (sym e)))
      (ap (λ l. m ∷ l) (before_id_lem ms after a u.2))
  where
    apart :
        (ms after : List Message) (m a : Message)
        → NoId m.msg_id (ms ++ a ∷ after)
        → a.msg_id ≢ m.msg_id
    apart [] after m a n = n.0
    apart (x ∷ xs) after m a n = apart xs after m a n.1

-- A tool that serves a history.
serve : List Message → String → Answer
serve history id = page (last_page (before_id id history))

serve-Serves :
    (history : List Message) → Uniq history → Serves history (last_page history) (serve history)
unfolding serve
serve-Serves history u = record {
  first = refl;
  older = λ before after anchor e.
      ap (λ l. page (last_page l))
        (ap (before_id anchor.msg_id) e ∙ before_id_lem before after anchor (subst Uniq e u));
}

abbrev no_param : MessageParam
no_param = record {
  desc = [];
  reply_msg_id = "";
  reply_open_id = "";
  reply_person_name = "";
  reply_summary = "";
  file_id = "";
  ext = "";
  name = "";
  size = 0;
  ftype = none;
  pic_width = 0;
  pic_height = 0;
  sys_type = "";
}

abbrev message : String → String → Message
message id kind = record {
  content = "hi";
  from_open_id = "u1";
  msg_id = id;
  msg_type = kind;
  param = no_param;
  send_time = "";
}

abbrev m1 : Message
m1 = message "m1" "2"

abbrev m2 : Message
m2 = message "m2" "2"

abbrev m3 : Message
m3 = message "m3" "2"

abbrev history : List Message
history = m1 ∷ (m2 ∷ (m3 ∷ []))

history-Uniq : Uniq history
history-Uniq = (
  ground (arith, eq_iff "m1" ""),
  (ground (arith, eq_iff "m2" "m1"), (ground (arith, eq_iff "m3" "m1"), tt)),
  (
    ground (arith, eq_iff "m2" ""),
    (ground (arith, eq_iff "m3" "m2"), tt),
    (ground (arith, eq_iff "m3" ""), tt, tt),
  ),
)

abbrev watcher : Watcher
watcher = record {
  key = "p|g";
  catchup_pages = 3;
  startup_mode = "baseline";
  enabled = true;
  cancel = true;
  last_poll = 0;
  last_msg_at = 0;
  last_err = "";
  auth_fails = 0;
  backoff = 0;
  last_throttle = none;
  store = put_state 0 "p|g" (record zero_state { last_msg_id = "m1" }) (λ k. none);
  cooldown_until = 0;
}

abbrev polls : Answer → Env
polls answer = record {
  begun = 100;
  done = false;
  now = 100;
  newest = answer;
  old = serve history;
  send_time_value = λ s. none;
  skip_text = λ id n. id;
}

trimmed : trim_space "m1" ≢ ""
unfolding trim_space
trimmed = ground (arith, eq_iff "m1" "")

poll_delivers_example :
    ((poll_once (polls (page history)) watcher).1 ≡ posts (m2 ∷ (m3 ∷ [])))
    × ((stored (poll_once (polls (page history)) watcher).0.store "p|g").last_msg_id
        ≡ (last_msg m1 (m2 ∷ (m3 ∷ []))).msg_id)
unfolding put_state has_recent
poll_delivers_example =
    poll_delivers (polls (page history)) watcher history [] (m2 ∷ (m3 ∷ [])) m1 (record {
      goes = refl;
      serves = serve-Serves history history-Uniq;
      page_is = refl;
      uniq = history-Uniq;
      is = refl;
      cursor = refl;
      set = trimmed;
      near = omega arith;
      fresh = (refl, (refl, tt));
    })

-- The tool is throttled, or its login is refused.
abbrev limited : PollError
limited =
    cli (record { exit_code = 4; kind = ""; subtype = ""; message = ""; hint = ""; code = "" })

abbrev refused : PollError
refused =
    cli (record { exit_code = 3; kind = ""; subtype = ""; message = ""; hint = ""; code = "" })

refused_is : is_auth_error refused ≡ true
unfolding is_auth_error
refused_is = refl

-- The newest page has 2 messages behind the cursor, and the call for the page before it fails.
abbrev behind_failure : Env
behind_failure = record (polls (page (m2 ∷ (m3 ∷ [])))) { old = λ id. failed limited "429" }

out_of_page : index_of_msg (m2 ∷ (m3 ∷ [])) "m1" ≡ none
unfolding index_of_msg
out_of_page = refl

older_limited : Fails behind_failure watcher
unfolding put_state
older_limited =
    older_fails m2 (m3 ∷ []) refl trimmed out_of_page (fails_here 2 "m2" limited "429" refl)

poll_once-failed_example :
    ((poll_once behind_failure watcher).0.store ≡ watcher.store)
    × (messages (poll_once behind_failure watcher).1 ≡ [])
poll_once-failed_example = poll_once-failed behind_failure watcher older_limited

login_refused : RefusedLogin (polls (failed refused "login"))
login_refused = (refl, (refused, "login", refl, refused_is))

poll_all-refused_example :
    (poll_all
      (polls (failed refused "login")
        ∷ (polls (failed refused "login") ∷ (polls (failed refused "login") ∷ [])))
      watcher).0.enabled
    ≡ false
poll_all-refused_example =
    poll_all-refused
      (polls (failed refused "login")
        ∷ (polls (failed refused "login") ∷ (polls (failed refused "login") ∷ [])))
      watcher (login_refused, (login_refused, (login_refused, tt))) refl
