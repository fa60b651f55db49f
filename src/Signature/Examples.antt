-- ===== src/Signature/Examples.antt =====
-- The signature of a message of the example.
use mathlib.Core.Logic.{◌↔◌}
use yzj_bot_bridge.Prelude.{
  String, ◌≡◌, refl, ap, true, arith, eq_iff, Dict, empty_dict, put, concat,
}
use yzj_bot_bridge.Signature.{build_signature_string, verify_signature}
use yzj_bot_bridge.Signature.Binding.{has_comma, Plain, SameMembers, verify_signature-SameMembers}

-- What stands for HMAC-SHA1: the text and the secret in one.
abbrev sealed : String → String → String
unfolding concat
sealed text secret = concat text (concat "|" secret)

abbrev message : Dict String
message = put "msgId" "m1" (put "content" "hi" empty_dict)

signed : verify_signature (λ v. v) sealed message " ,,,,,m1,hi|s " "s" ≡ (true, "")
unfolding verify_signature concat build_signature_string
signed = refl

-- The same members, and another one.
abbrev resent : Dict String
resent = put "groupId" "g" message

message-Plain : Plain (λ v. v) message
unfolding has_comma
message-Plain = record {
  robot_id = refl;
  robot_name = refl;
  operator_open_id = refl;
  operator_name = refl;
  time = refl;
  msg_id = refl;
}

resent-Plain : Plain (λ v. v) resent
unfolding has_comma
resent-Plain = record {
  robot_id = refl;
  robot_name = refl;
  operator_open_id = refl;
  operator_name = refl;
  time = refl;
  msg_id = refl;
}

one_text : build_signature_string (λ v. v) message ≡ build_signature_string (λ v. v) resent
unfolding build_signature_string concat
one_text = refl

verify_signature-SameMembers_example :
    ((verify_signature (λ v. v) sealed resent " ,,,,,m1,hi|s " "s").0 ≡ true)
    ↔ SameMembers (λ v. v) message resent
verify_signature-SameMembers_example =
    verify_signature-SameMembers (λ v. v) sealed message resent " ,,,,,m1,hi|s " "s"
      (ground (arith, eq_iff "s" "")) message-Plain resent-Plain (λ e. one_text)
      (ap (λ r. r.0) signed)
