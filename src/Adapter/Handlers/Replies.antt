-- ===== src/Adapter/Handlers/Replies.antt =====
-- What the replies of the wire tell, with the services behind them.
use photon_commerce.Base.{
  String, Option, none, some, ◌≡◌, refl, ◌≢◌, ◌↔◌, inl, inr, arith, Expected, value, unexpected,
  ret, Outcome-cases, value_or,
}
use photon_commerce.Domain.User.{User}
use photon_commerce.Domain.Repositories.{DbError}
use photon_commerce.Service.Model.{
  ErrorCode, success, internal_error, invalid_argument, unauthorized, user_not_found,
  user_already_exists, password_incorrect, verification_code_expired, verification_code_mismatch,
  code_value, LoginByPasswordRequest, LoginByCodeRequest, LoginResult,
}
use photon_commerce.Service.Auth.{AuthService, login_by_code, login_by_password}
use photon_commerce.Service.Auth.Login.{
  CodeLogin, PasswordLogin, login_by_code-success_iff, login_by_password-success_iff,
}
use photon_commerce.Service.BasicUser.{BasicUserService, get_user_info, info_of}
use photon_commerce.Adapter.Handlers.{
  LoginReply, GetUserInfoReply, UserMessage, is_success, run_login_by_code, run_login_by_password,
  run_get_user_info,
}

-- A reply as `Reset` leaves it.
abbrev pub no_login : LoginReply
no_login = record { status = record { code = 0; message = "" }; token = "" }

abbrev pub no_user_info : GetUserInfoReply
no_user_info = record { status = record { code = 0; message = "" }; user = none }

pub success_of_code_value : (code : ErrorCode) → code_value code ≡ 0 → code ≡ success
unfolding code_value
success_of_code_value success e = refl
success_of_code_value internal_error e = ground arith
success_of_code_value invalid_argument e = ground arith
success_of_code_value unauthorized e = ground arith
success_of_code_value user_not_found e = ground arith
success_of_code_value user_already_exists e = ground arith
success_of_code_value password_incorrect e = ground arith
success_of_code_value verification_code_expired e = ground arith
success_of_code_value verification_code_mismatch e = ground arith

module _ {S : Type 0} (auth : AuthService S) where
  -- A reply of LoginByPassword that comes back with code 0 carries the token of a password login:
  -- the user of the request was found, the password verified, and the token is the one signed for
  -- that user.
  pub run_login_by_password-code_zero :
      (req : LoginByPasswordRequest) (s : S)
      → (run_login_by_password (login_by_password auth) req (no_login, s)).0 ≡ ret tt
      → (run_login_by_password (login_by_password auth) req (no_login, s)).1.0.status.code ≡ 0
      → (r : LoginResult) × PasswordLogin auth req s r
        × ((run_login_by_password (login_by_password auth) req (no_login, s)).1.0.token ≡ r.token)
  unfolding run_login_by_password is_success
  run_login_by_password-code_zero req s h zero_code =
      elim (Outcome-cases (login_by_password auth req s).0) [
        | inl (r, e) ↦
            let good = success_of_code_value r.status.code (ground (arith, e, zero_code)) in
            (
              r,
              (login_by_password-success_iff auth req s r).0 (e, good),
              ground (arith, e, zero_code),
            )
        | inr (ex, e) ↦ ground (arith, e, h)
      ]

  -- So does one of LoginByCode, with the evidence of a login by code.
  pub run_login_by_code-code_zero :
      (req : LoginByCodeRequest) (s : S)
      → (run_login_by_code (login_by_code auth) req (no_login, s)).0 ≡ ret tt
      → (run_login_by_code (login_by_code auth) req (no_login, s)).1.0.status.code ≡ 0
      → (r : LoginResult) × CodeLogin auth req s r
        × ((run_login_by_code (login_by_code auth) req (no_login, s)).1.0.token ≡ r.token)
  unfolding run_login_by_code is_success
  run_login_by_code-code_zero req s h zero_code =
      elim (Outcome-cases (login_by_code auth req s).0) [
        | inl (r, e) ↦
            let good = success_of_code_value r.status.code (ground (arith, e, zero_code)) in
            (r, (login_by_code-success_iff auth req s r).0 (e, good), ground (arith, e, zero_code))
        | inr (ex, e) ↦ ground (arith, e, h)
      ]

-- The public part of a user.
abbrev pub shown : User → UserMessage
shown u = record {
  user_id = u.id;
  username = value_or u.username "";
  email = value_or u.email "";
  avatar_url = value_or u.avatar_url "";
  phone_number = u.phone_number;
}

-- The user of the reply is the public part of the user that was found, if one was.
abbrev pub shown? : Expected (Option User) DbError → Option UserMessage
shown? (unexpected e) = none
shown? (value none) = none
shown? (value (some u)) = some (shown u)

module _ {S : Type 0} (basic : BasicUserService S) where
  -- Where the look-up of the given user id returns, the logic of GetUserInfo returns, and replies
  -- with the public part of the user that was found, and with no user where none was found or the
  -- database failed; the code of the reply is 0 exactly if a user is shown.
  pub run_get_user_info-shown :
      (user_id : String) (s : S) (found : Expected (Option User) DbError)
      → (basic.user_repository.get_user_by_id user_id s).0 ≡ ret found
      → let out = run_get_user_info (get_user_info basic) user_id (no_user_info, s) in
        (out.0 ≡ ret tt)
        × (out.1.0.user ≡ shown? found)
        × ((out.1.0.status.code ≡ 0) ↔ (out.1.0.user ≢ none))
  unfolding run_get_user_info get_user_info info_of is_success code_value
  run_get_user_info-shown user_id s (unexpected err) e = ground (arith, e)
  run_get_user_info-shown user_id s (value none) e = ground (arith, e)
  run_get_user_info-shown user_id s (value (some u)) e = ground (arith, e)
