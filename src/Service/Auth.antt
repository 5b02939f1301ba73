-- ===== src/Service/Auth.antt =====
-- UserService/service/src/auth_service.cc.
pub mod Login
pub mod SendCode
use photon_commerce.Base.{
  ℕ, String, Option, none, some, Bool, true, false, not, if◌then◌else◌, Expected, value, unexpected,
  Await, pure, ◌>>=◌, ◌>>◌, Outcome, ret, thrown, std_exception,
}
use photon_commerce.Domain.User.{User}
use photon_commerce.Domain.Repositories.{DbError, UserRepository, VerificationCodeRepository}
use photon_commerce.Service.Model.{
  ErrorCode, internal_error, invalid_argument, user_not_found, password_incorrect,
  verification_code_mismatch, CommonStatus, fail, succeeded, CodeUsage, unknown, user_register,
  user_login, reset_password, out_of_range, SendCodeRequest, SendCodeResponse,
  LoginByPasswordRequest, LoginByCodeRequest, LoginResult,
}
use photon_commerce.Service.Utilities.{JwtGenerator, SecurityUtil, VerificationCodeGenerator}
use text.Mathlib.Text.{◌==◌ as str_eq}

pub record AuthService (S : Type 0) : Type 0 where
  pub verification_code_generator : VerificationCodeGenerator S
  pub verification_code_repository : VerificationCodeRepository S
  pub user_repository : UserRepository S
  pub jwt_util : JwtGenerator S
  pub security_util : SecurityUtil S

-- The constructor, which checks the one pointer that it is given for the JWT utility.
unfoldable pub make_auth_service :
    {S : Type 0}
    → VerificationCodeGenerator S
    → VerificationCodeRepository S
    → UserRepository S
    → Option (JwtGenerator S)
    → SecurityUtil S
    → Outcome (AuthService S)
make_auth_service generator codes users none security =
    thrown (std_exception "Injection Failed: jwt_util is null")
make_auth_service generator codes users (some jwt) security = ret (record {
  verification_code_generator = generator;
  verification_code_repository = codes;
  user_repository = users;
  jwt_util = jwt;
  security_util = security;
})

-- `code_opt.has_value() && code_opt.value() == code`.
abbrev pub code_matches : Option String → String → Bool
code_matches none code = false
code_matches (some c) code = str_eq c code

-- A `LoginResult` built from its status alone.
abbrev pub refused : ErrorCode → String → LoginResult
refused code message = record { status = fail code message; token = ""; user_id = "" }

abbrev pub respond : CommonStatus → SendCodeResponse
respond status = record { status = status }

-- TTL: std::chrono::minutes(5).
abbrev pub code_expiry : ℕ
code_expiry = 300

module _ {S : Type 0} (auth : AuthService S) where
  open auth use {
    verification_code_generator, verification_code_repository, user_repository, jwt_util,
    security_util,
  }

  -- The end of `SendCode`, where a code is made and stored.
  deliver_code : SendCodeRequest → Await S SendCodeResponse
  deliver_code req = do
    code ← verification_code_generator.generate 6
    verification_code_repository.save_code req.usage req.phone_number code code_expiry
    pure (respond succeeded)

  -- What follows the look-up in the cases USER_LOGIN and RESET_PASSWORD.
  send_to_known : SendCodeRequest → Expected (Option User) DbError → Await S SendCodeResponse
  unfolding deliver_code
  send_to_known req (unexpected e) = pure (respond (fail internal_error "系统内部错误"))
  send_to_known req (value none) = pure (respond succeeded)
  send_to_known req (value (some user)) = deliver_code req

  send_for : CodeUsage → SendCodeRequest → Await S SendCodeResponse
  unfolding send_to_known deliver_code
  send_for user_register req = deliver_code req
  send_for user_login req =
      user_repository.get_user_by_phone_number req.phone_number >>= send_to_known req
  send_for reset_password req =
      user_repository.get_user_by_phone_number req.phone_number >>= send_to_known req
  send_for unknown req = pure (respond (fail invalid_argument "发送验证码用途不明"))
  send_for (out_of_range n) req = pure (respond (fail invalid_argument "发送验证码用途不明"))

  unfoldable pub send_code : SendCodeRequest → Await S SendCodeResponse
  unfolding send_for
  send_code req = send_for req.usage req

  -- The token is signed for the user that was found.
  issue_token : User → Await S LoginResult
  issue_token user = do
    token ← jwt_util.generate_token user.id
    pure (record { status = succeeded; token = token; user_id = user.id })

  login_found_by_code : Expected (Option User) DbError → Await S LoginResult
  unfolding issue_token
  login_found_by_code (unexpected e) = pure (refused internal_error "DB Error")
  login_found_by_code (value none) = pure (refused user_not_found "该手机号未注册")
  login_found_by_code (value (some user)) = issue_token user

  unfoldable pub login_by_code : LoginByCodeRequest → Await S LoginResult
  unfolding login_found_by_code
  login_by_code req = do
    code ← verification_code_repository.get_code user_login req.phone_number
    if code_matches code req.code
        then user_repository.get_user_by_phone_number req.phone_number >>= login_found_by_code
        else pure (refused verification_code_mismatch "验证码错误")

  login_found_by_id : LoginByPasswordRequest → Expected (Option User) DbError → Await S LoginResult
  unfolding issue_token
  login_found_by_id req (unexpected e) = pure (refused internal_error "DB Error")
  login_found_by_id req (value none) = pure (refused user_not_found "ID不存在")
  login_found_by_id req (value (some user)) =
      if security_util.verify_password req.password user.salt user.password_hash
      then issue_token user
      else pure (refused password_incorrect "密码错误")

  unfoldable pub login_by_password : LoginByPasswordRequest → Await S LoginResult
  unfolding login_found_by_id
  login_by_password req = user_repository.get_user_by_id req.user_id >>= login_found_by_id req
