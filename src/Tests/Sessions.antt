-- ===== src/Tests/Sessions.antt =====
-- The first session of bob, over the repository of Tests/Stack and the tokens of Tests/Tokens.
use photon_commerce.Base.{String, some, [], ◌≡◌, refl, ◌∙◌}
use photon_commerce.Adapter.CallData.{finish, ok_status, status_of}
use photon_commerce.Adapter.CallData.Protocol as Protocol
use photon_commerce.Adapter.Handlers.{RegisterReply, message_of, run_register}
use photon_commerce.Adapter.Rpcs.{
  SpecificCallData, register_call_data, login_by_password_call_data, get_user_info_call_data,
}
use photon_commerce.Adapter.Rpcs.Sessions.{SlotOf, IsWaiting, serve_with, serve_with-answer}
use photon_commerce.Domain.User.{User}
use photon_commerce.Service.BasicUser.{BasicUserService, register}
use photon_commerce.Service.BasicUser.FirstLogin.{shared_auth, shared_basic}
use photon_commerce.Service.Model.{succeeded, code_value}
use photon_commerce.Utils.Security.{generate_salt}
use photon_commerce.Tests.Calls.{verify_at_noon, signing_auth}
use photon_commerce.Tests.Stack.{inserted, bob, no_entries, users, basic, request}
use photon_commerce.Tests.Toy.{World, toy_security}

abbrev session_basic : BasicUserService World
session_basic = shared_basic signing_auth basic users toy_security

abbrev registration : SpecificCallData World
registration = register_call_data session_basic

abbrev login : SpecificCallData World
login = login_by_password_call_data (shared_auth signing_auth basic users toy_security)

abbrev info : SpecificCallData World
info = get_user_info_call_data session_basic

abbrev new_slot : (k : SpecificCallData World) → SlotOf k verify_at_noon
new_slot k = Protocol.start k.no_request k.no_reply k.requires_auth verify_at_noon

new_slot-IsWaiting : (k : SpecificCallData World) → IsWaiting k verify_at_noon (new_slot k)
new_slot-IsWaiting k = record { reached = Protocol.here; registered = refl }

abbrev reply : RegisterReply
reply = record { status = message_of succeeded; user_id = "u1" }

abbrev served : SlotOf registration verify_at_noon × World
served = serve_with registration verify_at_noon (new_slot registration) request [] no_entries

answered : served.0.pending ≡ finish ok_status reply
unfolding run_register register generate_salt status_of code_value
answered =
    serve_with-answer registration verify_at_noon (new_slot registration) request [] no_entries
      (new_slot-IsWaiting registration)
    ∙ refl

-- Bob as he is found later.
abbrev bob_there : User
bob_there = record bob { id = "u1"; username = some "bob" }

abbrev later : World
later = inserted bob_there no_entries
