-- ===== src/Errors.antt =====
-- app/src/c/errors.c and errors.h: the error codes of answers. The result codes of the protocol are in
-- a file that the build generates, and are parameters.
use tele_bezel.Base.{ℕ, Bool, false, ◌||◌, ◌==◌}
use tele_bezel.Base.Int.{ℤ, pos, negsuc}
use tele_bezel.Requests.Layer.{
  Outcome, Response, response, timeout, unreachable, cancelled, protocol,
}

-- The `TB_RESULT_` codes that errors.c and send_tracker.c use.
pub record Results : Type 0 where
  pub ok : ℕ
  pub config_missing : ℕ
  pub config_invalid : ℕ
  pub api_unauthorized : ℕ
  pub protocol_error : ℕ
  pub account_needs_login : ℕ
  pub account_gone : ℕ
  pub busy : ℕ
  pub wrong_token_type : ℕ
  pub send_rate_limited : ℕ

abbrev pub error_none : ℕ
error_none = 0

abbrev pub phone_unreachable : ℕ
phone_unreachable = 100

abbrev pub no_response : ℕ
no_response = 101

-- The `int32_t` is this code.
abbrev pub is_code : ℤ → ℕ → Bool
is_code (pos n) code = n == code
is_code (negsuc n) code = false

module _ (k : Results) where
  -- `tb_error_from_outcome`
  unfoldable pub error_from_outcome : Outcome → ℤ
  error_from_outcome unreachable = pos phone_unreachable
  error_from_outcome protocol = pos k.protocol_error
  error_from_outcome cancelled = pos error_none
  error_from_outcome response = pos no_response
  error_from_outcome timeout = pos no_response

  unfoldable pub error_of : Outcome → ℤ → ℤ
  error_of unreachable result = pos phone_unreachable
  error_of timeout result = pos no_response
  error_of protocol result = pos k.protocol_error
  error_of cancelled result = pos error_none
  error_of response result = result

  -- `tb_error_from_response`
  unfoldable pub error_from_response : Response → ℤ
  error_from_response r = error_of r.outcome r.result

  -- `tb_error_is_connection_level`
  unfoldable pub is_connection_level : ℤ → Bool
  is_connection_level error =
      is_code error k.config_missing
      || is_code error k.config_invalid
      || is_code error k.api_unauthorized
      || is_code error k.wrong_token_type

  -- `tb_error_is_account_level`
  unfoldable pub is_account_level : ℤ → Bool
  is_account_level error = is_code error k.account_needs_login || is_code error k.account_gone
