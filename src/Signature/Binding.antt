-- ===== src/Signature/Binding.antt =====
-- What a signature says of the message that it stands under.
use Prim.Native.Char.{Char, code}
use mathlib.Core.Logic.{◌↔◌}
use mathlib.Core.Path.{subst}
use yzj_bot_bridge.Prelude.{
  String, ◌≡◌, refl, sym, ap, ◌∙◌, ◌≢◌, Bool, true, false, ◌||◌, Option, arith, nat_eq, Dict,
  concat, trim_space,
}
use yzj_bot_bridge.Signature.{
  str_field, build_signature_string, verify_signature, verify_signature_accepts,
}

unfoldable pub has_comma : String → Bool
has_comma String.[] = false
has_comma (String.◌∷◌ c s) = nat_eq (code c) 44 || has_comma s

head_eq : (c d : Char) (s t : String) → String.◌∷◌ c s ≡ String.◌∷◌ d t → c ≡ d
head_eq c d s t e = cc

tail_eq : (c d : Char) (s t : String) → String.◌∷◌ c s ≡ String.◌∷◌ d t → s ≡ t
tail_eq c d s t e = cc

comma_first :
    (c : Char) (s t x : String)
    → has_comma (String.◌∷◌ c s) ≡ false
    → concat "," x ≡ String.◌∷◌ c t
    → ⊥
unfolding has_comma concat
comma_first c s t x h e =
    true_false (subst (λ d. nat_eq (code d) 44 ≡ false) (sym (head_eq _ c x t e)) first)
  where
    true_false : true ≡ false → ⊥
    true_false z = cc

    first : nat_eq (code c) 44 ≡ false
    first = ground (arith, h)

-- Texts without a comma are found again in front of the first comma.
split_comma :
    (a b x y : String)
    → has_comma a ≡ false
    → has_comma b ≡ false
    → concat a (concat "," x) ≡ concat b (concat "," y)
    → (a ≡ b) × (x ≡ y)
unfolding concat has_comma
split_comma String.[] String.[] x y h k e = (refl, tail_eq _ _ x y e)
split_comma String.[] (String.◌∷◌ d b) x y h k e =
    absurd (comma_first d b (concat b (concat "," y)) x k e)
split_comma (String.◌∷◌ c a) String.[] x y h k e =
    absurd (comma_first c a (concat a (concat "," x)) y h (sym e))
split_comma (String.◌∷◌ c a) (String.◌∷◌ d b) x y h k e =
    let r = split_comma a b x y (ground (arith, h)) (ground (arith, k)) (tail_eq c d _ _ e) in
    let p = head_eq c d _ _ e in (cc (p, r.0), r.1)

module _ {V : Type 0} (sprint : V → String) where
  -- How a member of a message is printed; one that is missing or null is printed as nothing.
  abbrev pub printed : Option V → String
  printed = str_field sprint

  -- Two messages have the same robot, sender, time, id and content.
  pub record SameMembers (msg msg' : Dict V) : Type 0 where
    pub robot_id : printed (msg "robotId") ≡ printed (msg' "robotId")
    pub robot_name : printed (msg "robotName") ≡ printed (msg' "robotName")
    pub operator_open_id : printed (msg "operatorOpenid") ≡ printed (msg' "operatorOpenid")
    pub operator_name : printed (msg "operatorName") ≡ printed (msg' "operatorName")
    pub time : printed (msg "time") ≡ printed (msg' "time")
    pub msg_id : printed (msg "msgId") ≡ printed (msg' "msgId")
    pub content : printed (msg "content") ≡ printed (msg' "content")

  -- No member but the content has a comma.
  pub record Plain (msg : Dict V) : Type 0 where
    pub robot_id : has_comma (printed (msg "robotId")) ≡ false
    pub robot_name : has_comma (printed (msg "robotName")) ≡ false
    pub operator_open_id : has_comma (printed (msg "operatorOpenid")) ≡ false
    pub operator_name : has_comma (printed (msg "operatorName")) ≡ false
    pub time : has_comma (printed (msg "time")) ≡ false
    pub msg_id : has_comma (printed (msg "msgId")) ≡ false

  seven : String → String → String → String → String → String → String → String
  unfolding concat
  seven a b c d e f g = concat a (
      concat "," (
        concat b (
          concat "," (
            concat c (
              concat ","
                (concat d (concat "," (concat e (concat "," (concat f (concat "," g)))))))))))

  build_signature_string-seven :
      (msg : Dict V)
      → build_signature_string sprint msg
        ≡ seven
            (printed (msg "robotId"))
            (printed (msg "robotName"))
            (printed (msg "operatorOpenid"))
            (printed (msg "operatorName"))
            (printed (msg "time"))
            (printed (msg "msgId"))
            (printed (msg "content"))
  unfolding build_signature_string seven
  build_signature_string-seven msg = refl

  same_seven :
      (msg msg' : Dict V)
      → SameMembers msg msg'
      → build_signature_string sprint msg ≡ build_signature_string sprint msg'
  same_seven msg msg' s =
      build_signature_string-seven msg
      ∙ cc (
        s.robot_id, s.robot_name, s.operator_open_id, s.operator_name, s.time, s.msg_id, s.content,
      )
      ∙ sym (build_signature_string-seven msg')

  -- The signed text has the members back.
  seven_inj :
      (msg msg' : Dict V)
      → Plain msg
      → Plain msg'
      → build_signature_string sprint msg ≡ build_signature_string sprint msg'
      → SameMembers msg msg'
  unfolding seven
  seven_inj msg msg' p q e =
      let whole = sym (build_signature_string-seven msg) ∙ e ∙ build_signature_string-seven msg' in
      let (a, e1) = split_comma _ _ _ _ p.robot_id q.robot_id whole in
      let (b, e2) = split_comma _ _ _ _ p.robot_name q.robot_name e1 in
      let (c, e3) = split_comma _ _ _ _ p.operator_open_id q.operator_open_id e2 in
      let (d, e4) = split_comma _ _ _ _ p.operator_name q.operator_name e3 in
      let (t, e5) = split_comma _ _ _ _ p.time q.time e4 in
      let (m, e6) = split_comma _ _ _ _ p.msg_id q.msg_id e5 in
      record {
        robot_id = a;
        robot_name = b;
        operator_open_id = c;
        operator_name = d;
        time = t;
        msg_id = m;
        content = e6;
      }

  -- A signature that lets one message in lets in exactly the messages that have the same robot, sender,
  -- time, id and content: where a secret is set, no member but the content has a comma in either
  -- message, and HMAC-SHA1 does not give the two signed texts one value.
  pub verify_signature-SameMembers :
      (hmac : String → String → String) (msg msg' : Dict V) (signature secret : String)
      → secret ≢ ""
      → Plain msg
      → Plain msg'
      → (hmac (build_signature_string sprint msg) secret
            ≡ hmac (build_signature_string sprint msg') secret
          → build_signature_string sprint msg ≡ build_signature_string sprint msg')
      → (verify_signature sprint hmac msg signature secret).0 ≡ true
      → ((verify_signature sprint hmac msg' signature secret).0 ≡ true) ↔ SameMembers msg msg'
  verify_signature-SameMembers hmac msg msg' signature secret kept p q apart let_in = (to, from)
    where
      signed :
          (trim_space signature ≢ "")
          × (trim_space signature ≡ hmac (build_signature_string sprint msg) secret)
      signed = (verify_signature_accepts sprint hmac msg signature secret kept).0 let_in

      to : (verify_signature sprint hmac msg' signature secret).0 ≡ true → SameMembers msg msg'
      to also =
          let too = (verify_signature_accepts sprint hmac msg' signature secret kept).0 also in
          seven_inj msg msg' p q (apart (sym (signed.1) ∙ too.1))

      from : SameMembers msg msg' → (verify_signature sprint hmac msg' signature secret).0 ≡ true
      from s =
          (verify_signature_accepts sprint hmac msg' signature secret kept).1
            (signed.0, signed.1 ∙ ap (λ x. hmac x secret) (same_seven msg msg' s))
