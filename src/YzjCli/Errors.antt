-- ===== src/YzjCli/Errors.antt =====
-- internal/yzjcli/client.go: the failures of the command line tool.
use yzj_bot_bridge.Prelude.{
  ℕ, String, ◌≡◌, refl, Bool, true, false, ◌||◌, List, [], ◌∷◌, nat_eq, ◌==◌, trim_space, to_lower,
  contains_text,
}

pub record CliError : Type 0 where
  pub exit_code : ℕ
  pub kind : String  -- Type
  pub subtype : String
  pub message : String
  pub hint : String
  pub code : String

-- An error that errors.As finds to be a CLIError, or another one with its text.
pub data PollError : Type 0 where
  cli : CliError → PollError
  other : String → PollError

-- IsAuthError
unfoldable pub is_auth_error : PollError → Bool
unfolding to_lower trim_space
is_auth_error (other text) = false
is_auth_error (cli e) =
    let subtype = to_lower (trim_space e.subtype) in
    nat_eq e.exit_code 3
    || (subtype == "credentials_missing"
        || subtype == "session_expired"
        || subtype == "refresh_failed")
    || to_lower (trim_space e.kind) == "authentication"

contains_any : String → List String → Bool
unfolding contains_text
contains_any s [] = false
contains_any s (x ∷ xs) = contains_text s x || contains_any s xs

-- IsRateLimited
unfoldable pub is_rate_limited : PollError → Bool
unfolding to_lower contains_any
is_rate_limited (other text) = false
is_rate_limited (cli e) =
    nat_eq e.exit_code 4
    || contains_any (to_lower e.message)
        ("请求过于频繁" ∷ "too many requests" ∷ "rate limit" ∷ "throttle" ∷ "10000429" ∷ "频繁" ∷ [])
    || e.code == "10000429"
    || contains_any (to_lower e.kind) ("rate" ∷ "throttle" ∷ "transport" ∷ [])
    || contains_any (to_lower e.subtype) ("rate" ∷ "throttle" ∷ "transport" ∷ [])

throttles :
    (is_rate_limited (
        cli (record {
          exit_code = 1;
          kind = "api_error";
          subtype = "";
          message = "API error: code=10000429, 请求过于频繁";
          hint = "";
          code = "10000429";
        }))
      ≡ true)
    × (is_auth_error (
          cli (record {
            exit_code = 1;
            kind = "Authentication";
            subtype = "";
            message = "x";
            hint = "";
            code = "";
          }))
        ≡ true)
unfolding is_rate_limited is_auth_error
throttles = (refl, refl)
