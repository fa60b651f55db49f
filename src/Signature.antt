-- ===== src/Signature.antt =====
-- internal/signature/signature.go: the signature of a message that comes in by the webhook. HMAC-SHA1 in
-- base64 and the printing of a value (fmt.Sprint) are arguments; a message is the map of its members,
-- a null member being none.
pub mod Binding
pub mod Examples
use mathlib.Core.Logic.{◌↔◌}
use yzj_bot_bridge.Prelude.{
  String, ◌≡◌, refl, ◌≢◌, Bool, true, false, not, Option, none, some, List, [], ◌∷◌, map, arith,
  eq_iff, ◌==◌, if◌then◌else◌, ==_of_ne, Dict, concat, trim_space,
}

-- strField and timeField
abbrev pub str_field : {V : Type 0} → (V → String) → Option V → String
str_field sprint none = ""
str_field sprint (some v) = sprint v

joined : List String → String
unfolding concat
joined [] = ""
joined (x ∷ xs) = elim xs [ [] ↦ x | y ∷ ys ↦ concat x (concat "," (joined xs)) ]

-- BuildSignatureString
unfoldable pub build_signature_string : {V : Type 0} → (V → String) → Dict V → String
unfolding joined
build_signature_string sprint msg = joined (
    map (λ k. str_field sprint (msg k))
      ("robotId" ∷ "robotName" ∷ "operatorOpenid" ∷ "operatorName" ∷ "time" ∷ "msgId" ∷ "content"
        ∷ []))

-- VerifySignature
unfoldable pub verify_signature :
    {V : Type 0}
    → (V → String)
    → (String → String → String)
    → Dict V
    → String
    → String
    → Bool × String
unfolding trim_space
verify_signature sprint hmac msg signature secret =
    let expected = hmac (build_signature_string sprint msg) secret in
    if secret == ""
    then (true, "")
    else (if trim_space signature == ""
        then (false, "missing sign header")
        else (if trim_space signature == expected
            then (true, "")
            else (false, "invalid signature")))

-- ExtractSignHeader, with the value of a header by its name
unfoldable pub extract_sign_header : (String → String) → String
unfolding trim_space
extract_sign_header h =
    if not (trim_space (h "sign") == "")
    then trim_space (h "sign")
    else (if not (trim_space (h "Sign") == "")
        then trim_space (h "Sign")
        else trim_space (h "SIGN"))

-- With a secret, a message is let in if and only if its signature, trimmed, is not empty and is the one
-- that the secret gives for the seven members that are signed.
pub verify_signature_accepts :
    {V : Type 0} (sprint : V → String) (hmac : String → String → String) (msg : Dict V)
    (signature secret : String)
    → secret ≢ ""
    → ((verify_signature sprint hmac msg signature secret).0 ≡ true) ↔ (
        (trim_space signature ≢ "")
        × (trim_space signature ≡ hmac (build_signature_string sprint msg) secret))
unfolding verify_signature
verify_signature_accepts sprint hmac msg signature secret kept =
    rw (==_of_ne secret "" kept)
      (go (trim_space signature == "") (trim_space signature == expected) refl refl)
  where
    expected : String
    expected = hmac (build_signature_string sprint msg) secret

    answer : Bool → Bool → Bool × String
    answer b c =
        if b
        then (false, "missing sign header")
        else (if c then (true, "") else (false, "invalid signature"))

    go :
        (b c : Bool)
        → (trim_space signature == "") ≡ b
        → (trim_space signature == expected) ≡ c
        → ((answer b c).0 ≡ true)
          ↔ ((trim_space signature ≢ "") × (trim_space signature ≡ expected))
    go true c e f = ground (arith, eq_iff (trim_space signature) "")
    go false true e f =
        ground (arith, eq_iff (trim_space signature) "", eq_iff (trim_space signature) expected)
    go false false e f = ground (arith, eq_iff (trim_space signature) expected)
