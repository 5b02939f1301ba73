-- ===== src/Adapter/Rpcs.antt =====
-- The five classes derived from CallData, of UserService/adapter/v2/call_data/include: the messages
-- of an RPC, whether it requires authentication, and its logic. Their wiring is that of
-- `SeedCallData`.
pub mod Sessions
pub mod Tokens
pub mod FirstSession
use photon_commerce.Base.{String, none, Bool, true, false, Await, Expected}
use photon_commerce.Base.Int.{pos}
use photon_commerce.Adapter.Handlers.{
  StatusMessage, SendCodeMessage, SendCodeReply, LoginReply, RegisterReply, GetUserInfoReply,
  run_register, run_send_code, run_login_by_code, run_login_by_password, run_get_user_info,
}
use photon_commerce.Adapter.Handlers.Replies.{no_login, no_user_info}
use photon_commerce.Adapter.Manager.{
  Rpc, register_rpc, send_code_rpc, login_pw_rpc, login_code_rpc, get_user_info_rpc,
}
use photon_commerce.Service.Auth.{AuthService, send_code, login_by_code, login_by_password}
use photon_commerce.Service.BasicUser.{BasicUserService, register, get_user_info}
use photon_commerce.Service.Model.{LoginByPasswordRequest, LoginByCodeRequest, RegisterRequest}

-- The template arguments of CallData, with the messages that `RequestType()` and `ResponseType()`
-- make, `kRequiresAuth`, and `RunSpecificLogic`.
pub record SpecificCallData (S : Type 0) : Type 1 where
  pub Request : Type 0
  pub Response : Type 0
  pub no_request : Request
  pub no_reply : Response
  pub requires_auth : Bool
  pub run_specific_logic : Request → String → Await (Response × S) (Unit {0})

abbrev pub no_status : StatusMessage
no_status = record { code = 0; message = "" }

module _ {S : Type 0} (auth : AuthService S) where
  abbrev pub send_code_call_data : SpecificCallData S
  send_code_call_data = record {
    Request = SendCodeMessage;
    Response = SendCodeReply;
    no_request = record { phone_number = ""; usage = pos 0 };
    no_reply = record { status = no_status };
    requires_auth = false;
    run_specific_logic = λ request user_id. run_send_code (send_code auth) request;
  }

  abbrev pub login_by_password_call_data : SpecificCallData S
  login_by_password_call_data = record {
    Request = LoginByPasswordRequest;
    Response = LoginReply;
    no_request = record { user_id = ""; password = "" };
    no_reply = no_login;
    requires_auth = false;
    run_specific_logic = λ request user_id. run_login_by_password (login_by_password auth) request;
  }

  abbrev pub login_by_code_call_data : SpecificCallData S
  login_by_code_call_data = record {
    Request = LoginByCodeRequest;
    Response = LoginReply;
    no_request = record { phone_number = ""; code = "" };
    no_reply = no_login;
    requires_auth = false;
    run_specific_logic = λ request user_id. run_login_by_code (login_by_code auth) request;
  }

module _ {S : Type 0} (basic : BasicUserService S) where
  abbrev pub register_call_data : SpecificCallData S
  register_call_data = record {
    Request = RegisterRequest;
    Response = RegisterReply;
    no_request = record { username = ""; password = ""; phone_number = ""; code = "" };
    no_reply = record { status = no_status; user_id = "" };
    requires_auth = false;
    run_specific_logic = λ request user_id. run_register (register basic) request;
  }

  -- The message GetUserInfoRequest has no fields.
  abbrev pub get_user_info_call_data : SpecificCallData S
  get_user_info_call_data = record {
    Request = Unit;
    Response = GetUserInfoReply;
    no_request = tt;
    no_reply = no_user_info;
    requires_auth = true;
    run_specific_logic = λ request user_id. run_get_user_info (get_user_info basic) user_id;
  }

-- The calls that the objects of each manager serve.
abbrev pub call_data_of :
    {S : Type 0} → AuthService S → BasicUserService S → Rpc → SpecificCallData S
call_data_of auth basic register_rpc = register_call_data basic
call_data_of auth basic send_code_rpc = send_code_call_data auth
call_data_of auth basic login_pw_rpc = login_by_password_call_data auth
call_data_of auth basic login_code_rpc = login_by_code_call_data auth
call_data_of auth basic get_user_info_rpc = get_user_info_call_data basic
