-- ===== src/Service/Model.antt =====
-- UserService/service/model: requests, responses and status codes.
use photon_commerce.Base.{ℕ, String}
use photon_commerce.Base.Int.{ℤ}

pub data ErrorCode : Type 0 where
  success : ErrorCode
  internal_error invalid_argument unauthorized : ErrorCode
  user_not_found user_already_exists password_incorrect : ErrorCode
  verification_code_expired verification_code_mismatch : ErrorCode

-- `static_cast<int32_t>(code)`.
unfoldable pub code_value : ErrorCode → ℕ
code_value success = 0
code_value internal_error = 1000
code_value invalid_argument = 1001
code_value unauthorized = 1002
code_value user_not_found = 2001
code_value user_already_exists = 2002
code_value password_incorrect = 2003
code_value verification_code_expired = 3001
code_value verification_code_mismatch = 3002

pub record CommonStatus : Type 0 where
  pub code : ErrorCode
  pub message : String

abbrev pub fail : ErrorCode → String → CommonStatus
fail code message = record { code = code; message = message }

abbrev pub succeeded : CommonStatus
succeeded = fail success "操作成功"

-- An unscoped enum, which the adapter fills from a number of the wire: other values occur.
pub data CodeUsage : Type 0 where
  unknown user_register user_login reset_password : CodeUsage
  out_of_range : ℤ → CodeUsage

pub record SendCodeRequest : Type 0 where
  pub phone_number : String
  pub usage : CodeUsage

pub record SendCodeResponse : Type 0 where
  pub status : CommonStatus

pub record LoginByPasswordRequest : Type 0 where
  pub user_id : String
  pub password : String

pub record LoginByCodeRequest : Type 0 where
  pub phone_number : String
  pub code : String

pub record LoginResult : Type 0 where
  pub status : CommonStatus
  pub token : String
  pub user_id : String

pub record RegisterRequest : Type 0 where
  pub username : String
  pub password : String
  pub phone_number : String
  pub code : String

pub record RegisterResponse : Type 0 where
  pub status : CommonStatus
  pub user_id : String

pub record GetUserInfoRequest : Type 0 where
  pub user_id : String

pub record GetUserInfoResponse : Type 0 where
  pub status : CommonStatus
  pub user_id : String
  pub username : String
  pub email : String
  pub avatar_url : String
  pub phone_number : String

pub record UpdateUserInfoRequest : Type 0 where
  pub username : String
  pub email : String
  pub avatar_url : String

pub record UpdateUserInfoResponse : Type 0 where
  pub status : CommonStatus
