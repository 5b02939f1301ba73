-- ===== src/Adapter/CallData.antt =====
-- CallData of UserService/adapter/v2/call_data/interface/call_data.hpp: the state machine of one
-- slot of the completion queue. What it asks of gRPC and of the coroutine runtime is its action.
pub mod Protocol
pub mod Calls
pub mod Callers
use photon_commerce.Base.{
  ℕ, String, Option, none, some, Bool, true, false, List, [], ◌∷◌, if◌then◌else◌, Expected, value,
  unexpected, Exception, std_exception, unknown_exception,
}
use photon_commerce.Adapter.Authentication.{
  GrpcStatus, ok, internal, failed, perform_authentication,
}
use photon_commerce.Service.Utilities.{JwtError}

pub data State : Type 0 where
  wait_processing finished : State

-- The fields that change; `metadata` is what the ServerContext holds.
pub record CallData (Request Response : Type 0) : Type 0 where
  pub status : State
  pub request : Request
  pub reply : Response
  pub metadata : List (String × String)

-- `register` is RegisterCallDataToCQ, `finish` is `responder_.Finish`, and `spawn` is `co_spawn` of
-- the logic for a user id.
pub data Action (Response : Type 0) : Type 0 where
  register : Action Response
  finish : GrpcStatus → Response → Action Response
  spawn : String → Action Response

abbrev pub ok_status : GrpcStatus
ok_status = failed ok ""

-- The status that `OnLogicFinished` sends.
unfoldable pub status_of : Option Exception → GrpcStatus
status_of none = ok_status
status_of (some (std_exception what)) = failed internal what
status_of (some unknown_exception) = failed internal "Unknown exception type"

module _ {Request Response : Type 0} (no_request : Request) (no_reply : Response) where
  -- `Reset`: a fresh context, reply and request.
  unfoldable pub reset : CallData Request Response → CallData Request Response
  reset c = record c { request = no_request; reply = no_reply; metadata = [] }

  unfoldable pub handle_finish :
      CallData Request Response → CallData Request Response × Action Response
  unfolding reset
  handle_finish c = (reset (record c { status = wait_processing }), register)

  unfoldable pub on_logic_finished : Option Exception → CallData Request Response → Action Response
  unfolding status_of
  on_logic_finished e c = finish (status_of e) c.reply

  module _ (requires_auth : Bool) (verify_token : String → Expected String JwtError) where
    authenticated :
        Expected String GrpcStatus
        → CallData Request Response
        → CallData Request Response × Action Response
    authenticated (unexpected status) c = (record c { status = finished }, finish status c.reply)
    authenticated (value user_id) c = (record c { status = finished }, spawn user_id)

    unfoldable pub handle_process :
        CallData Request Response → CallData Request Response × Action Response
    unfolding authenticated
    handle_process c =
        authenticated
          (if requires_auth then perform_authentication verify_token c.metadata else value "") c

    handle_status : State → CallData Request Response → CallData Request Response × Action Response
    unfolding handle_process handle_finish
    handle_status wait_processing c = handle_process c
    handle_status finished c = handle_finish c

    -- `Proceed(ok)`, which the worker thread calls for each event of the queue.
    unfoldable pub proceed :
        Bool → CallData Request Response → CallData Request Response × Action Response
    unfolding handle_status handle_finish
    proceed false c = handle_finish c
    proceed true c = handle_status c.status c
