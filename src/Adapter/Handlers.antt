-- ===== src/Adapter/Handlers.antt =====
-- The five RunSpecificLogic functions of UserService/adapter/v2/call_data/src: from a request of
-- the wire to the business service and back into `reply_`. The messages are those of
-- IDL/UserService/v1/user_service.proto; the state is the reply and what lies behind the service.
pub mod Replies
use photon_commerce.Base.{
  ℕ, zero, suc, String, Option, none, some, Bool, true, false, if◌then◌else◌, Outcome, Await, pure,
  ◌>>=◌, ◌>>◌, ◌==◌,
}
use photon_commerce.Base.Int.{ℤ, pos, negsuc}
use photon_commerce.Service.Model.{
  ErrorCode, success, code_value, CommonStatus, CodeUsage, unknown, user_register, user_login,
  reset_password, out_of_range, SendCodeRequest, SendCodeResponse, LoginByPasswordRequest,
  LoginByCodeRequest, LoginResult, RegisterRequest, RegisterResponse, GetUserInfoRequest,
  GetUserInfoResponse,
}

pub record StatusMessage : Type 0 where
  pub code : ℕ
  pub message : String

pub record SendCodeMessage : Type 0 where
  pub phone_number : String
  pub usage : ℤ

pub record SendCodeReply : Type 0 where
  pub status : StatusMessage

pub record LoginReply : Type 0 where
  pub status : StatusMessage
  pub token : String

pub record RegisterReply : Type 0 where
  pub status : StatusMessage
  pub user_id : String

pub record UserMessage : Type 0 where
  pub user_id : String
  pub username : String
  pub email : String
  pub avatar_url : String
  pub phone_number : String

-- `user` is none until `mutable_user` is called.
pub record GetUserInfoReply : Type 0 where
  pub status : StatusMessage
  pub user : Option UserMessage

-- `static_cast<service::CodeUsage>(request_.usage())`.
unfoldable pub usage_of_int : ℤ → CodeUsage
usage_of_int (pos zero) = unknown
usage_of_int (pos (suc zero)) = user_register
usage_of_int (pos (suc (suc zero))) = user_login
usage_of_int (pos (suc (suc (suc zero)))) = reset_password
usage_of_int n = out_of_range n

-- `set_code` and `set_message`.
abbrev pub message_of : CommonStatus → StatusMessage
message_of status = record { code = code_value status.code; message = status.message }

-- `result.status.code == ErrorCode::SUCCESS`.
unfoldable pub is_success : ErrorCode → Bool
unfolding code_value
is_success code = code_value code == 0

-- A handler's state is its reply, and the state of the services.
abbrev pub Handler : Type 0 → Type 0 → Type 0
Handler S Reply = Await (Reply × S) (Unit {0})

abbrev login_reply : LoginResult → LoginReply → LoginReply
login_reply result r = record {
  status = message_of result.status;
  token = if is_success result.status.code then result.token else r.token;
}

abbrev user_message : GetUserInfoResponse → UserMessage
user_message result = record {
  user_id = result.user_id;
  username = result.username;
  email = result.email;
  avatar_url = result.avatar_url;
  phone_number = result.phone_number;
}

module _ {S : Type 0} where
  abbrev call : {A Reply : Type 0} → Await S A → Await (Reply × S) A
  call m s = ((m s.1).0, (s.0, (m s.1).1))

  abbrev set_reply : {Reply : Type 0} → (Reply → Reply) → Handler S Reply
  set_reply f s = pure tt (f s.0, s.1)

  unfoldable pub run_register :
      (RegisterRequest → Await S RegisterResponse) → RegisterRequest → Handler S RegisterReply
  run_register service request = do
    result ← call (service request)
    set_reply (λ r. record { status = message_of result.status; user_id = result.user_id })

  unfoldable pub run_send_code :
      (SendCodeRequest → Await S SendCodeResponse) → SendCodeMessage → Handler S SendCodeReply
  unfolding usage_of_int
  run_send_code service request = do
    result ← call (
        service
          (record { phone_number = request.phone_number; usage = usage_of_int request.usage }))
    set_reply (λ r. record { status = message_of result.status })

  unfoldable pub run_login_by_code :
      (LoginByCodeRequest → Await S LoginResult) → LoginByCodeRequest → Handler S LoginReply
  unfolding is_success
  run_login_by_code service request = do
    result ← call (service request)
    set_reply (login_reply result)

  unfoldable pub run_login_by_password :
      (LoginByPasswordRequest → Await S LoginResult) → LoginByPasswordRequest → Handler S LoginReply
  unfolding is_success
  run_login_by_password service request = do
    result ← call (service request)
    set_reply (login_reply result)

  -- The user id is the one of the authentication.
  unfoldable pub run_get_user_info :
      (GetUserInfoRequest → Await S GetUserInfoResponse) → String → Handler S GetUserInfoReply
  unfolding is_success
  run_get_user_info service user_id = do
    result ← call (service (record { user_id = user_id }))
    set_reply (λ r. record {
      status = message_of result.status;
      user = if is_success result.status.code then some (user_message result) else r.user;
    })
