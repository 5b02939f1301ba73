-- ===== src/Tests/Calls.antt =====
-- Whole calls, and the objects of the server, over the services of Tests/Toy.
use Prim.Native.String.{◌++◌}
use photon_commerce.Base.{
  ℕ, String, some, true, false, List, [], ◌∷◌, ◌≡◌, refl, ◌↔◌, ◌+◌, ◌≤◌, ◌/◌, ◌*◌, arith, ltb,
  if◌then◌else◌, Expected, value, unexpected, ret, pure, Bool-cases, inl, inr,
}
use photon_commerce.Adapter.Authentication.{perform_authentication, find, strip_bearer}
use photon_commerce.Adapter.CallData.{register, finish, spawn, ok_status, proceed, handle_process}
use photon_commerce.Adapter.CallData.Protocol as Protocol
use photon_commerce.Adapter.CallData.Protocol.{deliver}
use photon_commerce.Adapter.CallData.Calls.{Reached, answer, serve-answer}
use photon_commerce.Adapter.Handlers.{RegisterReply, GetUserInfoReply, message_of}
use photon_commerce.Adapter.Handlers.Replies.{shown}
use photon_commerce.Adapter.Manager.{Rpc, get_user_info_rpc, register_rpc, Queue}
use photon_commerce.Adapter.Rpcs.{
  SpecificCallData, register_call_data, get_user_info_call_data, login_by_password_call_data,
}
use photon_commerce.Adapter.Rpcs.Sessions.{
  SlotOf, IsWaiting, serve_with, Shows, IsEntitled, serve-Shows_iff,
}
use photon_commerce.Adapter.Rpcs.Tokens.{IsRightPassword, login-get_user_info}
use photon_commerce.Service.Auth.{AuthService}
use photon_commerce.Service.Model.{RegisterRequest, succeeded, LoginByPasswordRequest}
use photon_commerce.Service.Utilities.{JwtError, token_expired, signature_invalid}
use photon_commerce.Server.Objects.{
  SlotFor, new_slot, waiting, at_slot, this, Reach, at_once, and_then,
}
use photon_commerce.Server.Objects.InFlight.{
  ServerObject, labels, delivered, replied, running, Reach-running,
}
use photon_commerce.Server.Objects.Callers.{Reach-authenticated}
use photon_commerce.Server.Seeding.Blocks.{b5, seed_call_data-blocks}
use photon_commerce.Server.Seeding.Limits.{new_queue, managers}
use photon_commerce.Utils.Jwt.{ticks, generate_token}
use photon_commerce.Utils.Jwt.{verify_token as jwt_verify}
use photon_commerce.Utils.Security.{verify_password, hash_password}
use photon_commerce.Tests.Adapters.{verify, metadata}
use photon_commerce.Tests.Program.{all_set, all_set-IsWired}
use photon_commerce.Tests.Settings.{toy_yaml, members, loaded, load_run}
use photon_commerce.Tests.Tokens.{toy_tokens, toy_tokens-laws, read}
use photon_commerce.Tests.Toy.{World, toy_world, toy_auth, toy_basic, alice}
use photon_commerce.Tests.Utilities.{settings, second}
use text.Mathlib.Text.{◌==◌ as str_eq}

abbrev info : SpecificCallData World
info = get_user_info_call_data toy_basic

abbrev slot : SlotOf info verify
slot = Protocol.start info.no_request info.no_reply true verify

slot-IsWaiting : IsWaiting info verify slot
slot-IsWaiting = record { reached = Protocol.here; registered = refl }

abbrev served : SlotOf info verify × World
served = serve_with info verify slot tt metadata toy_world

abbrev expected : GetUserInfoReply
expected = record { status = message_of succeeded; user = some (shown alice) }

serve-answer_example :
    let a =
      answer info.no_request info.no_reply true verify info.run_specific_logic tt metadata
        toy_world in
    Reached info.no_request info.no_reply true verify info.run_specific_logic served.0
    × (served.0.pending ≡ finish a.0.0 a.0.1)
    × (served.0.delivered ≡ 0 + 1)
    × (served.0.replied ≡ 0 + 1)
    × (served.1 ≡ a.1)
    × (Protocol.proceed_slot info.no_request info.no_reply true verify true served.0.call
        ≡ (slot.call, register))
serve-answer_example =
    serve-answer info.no_request info.no_reply true verify info.run_specific_logic slot tt metadata
      toy_world true Protocol.here refl

serve-Shows_iff_example :
    Shows toy_basic verify served.0 (shown alice)
    ↔ IsEntitled toy_basic verify metadata toy_world (shown alice)
serve-Shows_iff_example =
    serve-Shows_iff toy_basic verify slot metadata toy_world (shown alice) slot-IsWaiting

-- JwtUtil at noon.
abbrev noon : ℕ
noon = second 1059

abbrev pub verify_at_noon : String → Expected String JwtError
verify_at_noon token =
    if ltb ((read token).expires_at / ticks * ticks) noon
    then unexpected token_expired
    else if str_eq "secret" (read token).key
    then value (read token).user_id
    else unexpected signature_invalid

pub verify_at_noon_lem :
    (token : String) → jwt_verify toy_tokens settings noon token ≡ ret (verify_at_noon token)
unfolding jwt_verify
verify_at_noon_lem token = elim (Bool-cases (str_eq "secret" (read token).key)) [
  | inl same ↦ ground (arith, same)
  | inr other ↦ ground (arith, other)
]

-- The services with JwtUtil as it signs a minute earlier.
abbrev pub signing_auth : AuthService World
signing_auth = record toy_auth {
  jwt_util = record {
    generate_token = λ user_id. pure (generate_token toy_tokens settings (second 1000) user_id);
  };
}

abbrev login : SpecificCallData World
login = login_by_password_call_data signing_auth

abbrev login_slot : SlotOf login verify_at_noon
login_slot = Protocol.start login.no_request login.no_reply false verify_at_noon

login_slot-IsWaiting : IsWaiting login verify_at_noon login_slot
login_slot-IsWaiting = record { reached = Protocol.here; registered = refl }

abbrev noon_slot : SlotOf info verify_at_noon
noon_slot = Protocol.start info.no_request info.no_reply true verify_at_noon

noon_slot-IsWaiting : IsWaiting info verify_at_noon noon_slot
noon_slot-IsWaiting = record { reached = Protocol.here; registered = refl }

abbrev request : LoginByPasswordRequest
request = record { user_id = "a"; password = "pw" }

right_password :
    IsRightPassword signing_auth toy_basic verify_at_noon request toy_world alice
      (generate_token toy_tokens settings (second 1000) "a")
unfolding verify_password hash_password
right_password = record { found = refl; verified = refl; signed = refl }

login-get_user_info_example :
    (token : String) × ((serve_with login verify_at_noon login_slot request [] toy_world).0.pending
      ≡ finish ok_status (record { status = message_of succeeded; token = token }))
    × ((serve_with info verify_at_noon noon_slot tt
          (("authorization", "Bearer " ++ token) ∷ [])
          toy_world).0.pending
        ≡ finish ok_status (record { status = message_of succeeded; user = some (shown alice) }))
login-get_user_info_example =
    login-get_user_info signing_auth toy_basic verify_at_noon toy_tokens settings toy_tokens-laws
      (second 1000) (second 1059) login_slot noon_slot request [] [] toy_world toy_world alice alice
      verify_at_noon_lem (omega arith) (omega arith) login_slot-IsWaiting noon_slot-IsWaiting
      right_password refl

-- The objects of the server after SeedCallData, the first of which gets a request.
abbrev queue : Queue
queue = (b5 loaded.rpc_limits_config all_set all_set-IsWired (new_queue 100)).1

abbrev objects : List (ServerObject toy_auth toy_basic verify)
objects = waiting toy_auth toy_basic verify queue.requests

abbrev rest : List (Rpc × ℕ) → List (Rpc × ℕ)
rest [] = []
rest (x ∷ xs) = xs

abbrev no_registration : RegisterRequest
no_registration = (register_call_data toy_basic).no_request

abbrev no_registered : RegisterReply
no_registered = (register_call_data toy_basic).no_reply

abbrev new_user : RegisterRequest
new_user = record { username = "bob"; password = "pw"; phone_number = "777"; code = "222222" }

abbrev registering : SlotFor toy_auth toy_basic verify register_rpc
registering =
    Protocol.after no_registration no_registered false verify
      (new_slot toy_auth toy_basic verify register_rpc) 1
      (Protocol.proceed_slot no_registration no_registered false verify true (
        Protocol.filled no_registration no_registered false verify
          (new_slot toy_auth toy_basic verify register_rpc) new_user []))

abbrev busy : List (ServerObject toy_auth toy_basic verify)
busy =
    at_slot toy_auth toy_basic verify register_rpc 100 registering
    ∷ waiting toy_auth toy_basic verify (rest queue.requests)

busy_reached : Reach toy_auth toy_basic verify objects busy
busy_reached = and_then at_once (this 100 (deliver new_user [] refl))

Reach-running_example :
    (delivered toy_auth toy_basic verify register_rpc busy
      ≡ replied toy_auth toy_basic verify register_rpc busy
        + running toy_auth toy_basic verify register_rpc busy)
    × (running toy_auth toy_basic verify register_rpc busy ≤ 10)
    × (labels toy_auth toy_basic verify busy ≡ queue.requests)
Reach-running_example =
    Reach-running toy_auth toy_basic verify toy_yaml 8 members loaded "config.yaml" all_set 100
      (managers loaded.rpc_limits_config all_set all_set-IsWired 100) queue busy register_rpc
      (omega arith) load_run all_set-IsWired
      (seed_call_data-blocks loaded.rpc_limits_config all_set all_set-IsWired (new_queue 100))
      busy_reached

abbrev asked : SlotFor toy_auth toy_basic verify get_user_info_rpc
asked = Protocol.after info.no_request info.no_reply true verify slot 1 (
    Protocol.proceed_slot info.no_request info.no_reply true verify true
      (Protocol.filled info.no_request info.no_reply true verify slot tt metadata))

asked_spawns : asked.pending ≡ spawn "a"
unfolding proceed handle_process perform_authentication find strip_bearer
asked_spawns = refl

Reach-authenticated_example : perform_authentication verify asked.call.metadata ≡ value "a"
Reach-authenticated_example =
    Reach-authenticated toy_auth toy_basic verify ((get_user_info_rpc, 7) ∷ [])
      (at_slot toy_auth toy_basic verify get_user_info_rpc 7 asked ∷ []) 0
      (at_slot toy_auth toy_basic verify get_user_info_rpc 7 asked) "a"
      (and_then at_once (this 7 (deliver tt metadata refl))) refl refl asked_spawns
