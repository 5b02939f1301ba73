-- ===== src/Tests/Services.antt =====
-- Logins, codes and registrations in the world of Tests/Toy.
use Prim.Native.String.{◌++◌, count}
use photon_commerce.Base.{String, none, some, ◌≡◌, refl, ◌≢◌, ◌↔◌, inl, ap, arith, ret}
use photon_commerce.Domain.Stores.{Quiet}
use photon_commerce.Service.Model.{
  success, succeeded, user_login, verification_code_mismatch, password_incorrect, SendCodeRequest,
  LoginByCodeRequest, LoginByPasswordRequest, LoginResult, RegisterRequest, RegisterResponse,
}
use photon_commerce.Service.Auth.{
  make_auth_service, login_by_code, login_by_password, send_code, refused, respond,
}
use photon_commerce.Service.Auth.Login.{
  CodeLogin, PasswordLogin, login_by_code-success_iff, login_by_password-success_iff,
  login-KeepsSecret,
}
use photon_commerce.Service.Auth.SendCode.{
  send_code-hides_users, send_code-stored, login_by_code-send_code,
}
use photon_commerce.Service.BasicUser.{register}
use photon_commerce.Service.BasicUser.Register.{Registration, register-success_iff}
use photon_commerce.Service.BasicUser.FirstLogin.{
  login_by_password-register, login_by_password-register_wrong,
}
use photon_commerce.Repository.Codes.{get_code, save_code}
use photon_commerce.Utils.Security.{hash_password, verify_password, generate_salt}
use photon_commerce.Tests.Toy.{
  World, toy_world, toy_auth, toy_basic, toy_store, toy_users, toy_users-store, toy_security,
  toy_security-laws, alice,
}
use text.Mathlib.TextLemmas.{length-append}

abbrev right_code : LoginByCodeRequest
right_code = record { phone_number = "555"; code = "111111" }

abbrev wrong_code : LoginByCodeRequest
wrong_code = record { phone_number = "555"; code = "000000" }

abbrev right_password : LoginByPasswordRequest
right_password = record { user_id = "a"; password = "pw" }

abbrev logged_in : LoginResult
logged_in = record { status = succeeded; token = "token:a"; user_id = "a" }

make_auth_service_test :
    make_auth_service toy_auth.verification_code_generator toy_auth.verification_code_repository
      toy_users
      (some toy_auth.jwt_util)
      toy_security
    ≡ ret toy_auth
unfolding make_auth_service
make_auth_service_test = refl

login_by_code-success_iff_example :
    ((login_by_code toy_auth right_code toy_world).0 ≡ ret logged_in)
      × (logged_in.status.code ≡ success)
    ↔ CodeLogin toy_auth right_code toy_world logged_in
login_by_code-success_iff_example =
    login_by_code-success_iff toy_auth right_code toy_world logged_in

login_by_code_run : (login_by_code toy_auth right_code toy_world).0 ≡ ret logged_in
unfolding login_by_code get_code
login_by_code_run = refl

login_by_password-success_iff_example :
    ((login_by_password toy_auth right_password toy_world).0 ≡ ret logged_in)
      × (logged_in.status.code ≡ success)
    ↔ PasswordLogin toy_auth right_password toy_world logged_in
login_by_password-success_iff_example =
    login_by_password-success_iff toy_auth right_password toy_world logged_in

login_by_password_run : (login_by_password toy_auth right_password toy_world).0 ≡ ret logged_in
unfolding login_by_password verify_password hash_password
login_by_password_run = refl

abbrev mismatch : LoginResult
mismatch = refused verification_code_mismatch "验证码错误"

login_by_code-mismatch : (login_by_code toy_auth wrong_code toy_world).0 ≡ ret mismatch
unfolding login_by_code get_code
login_by_code-mismatch = refl

mismatch-ne : mismatch.status.code ≢ success
mismatch-ne e = cc

login-KeepsSecret_example : (mismatch.token ≡ "") × (mismatch.user_id ≡ "")
login-KeepsSecret_example =
    login-KeepsSecret toy_auth wrong_code right_password toy_world mismatch
      (inl login_by_code-mismatch) mismatch-ne

abbrev login_code : String → SendCodeRequest
login_code phone = record { phone_number = phone; usage = user_login }

send_code_known : (send_code toy_auth (login_code "555") toy_world).0 ≡ ret (respond succeeded)
unfolding send_code save_code
send_code_known = refl

send_code_unknown : (send_code toy_auth (login_code "999") toy_world).0 ≡ ret (respond succeeded)
unfolding send_code
send_code_unknown = refl

send_code-hides_users_example : respond succeeded ≡ respond succeeded
send_code-hides_users_example =
    send_code-hides_users toy_auth (login_code "555") (login_code "999") toy_world toy_world
      (some alice) none (respond succeeded) (respond succeeded) (inl refl) (inl refl) refl refl
      send_code_known send_code_unknown

Quiet-lookup : Quiet toy_store (toy_users.get_user_by_phone_number "555")
Quiet-lookup = record { up = λ s up. tt; kept = λ s v q w. refl }

Quiet-code : Quiet toy_store (toy_auth.verification_code_generator.generate 6)
Quiet-code = record { up = λ s up. tt; kept = λ s v q w. refl }

send_code-stored_example :
    ((send_code toy_auth (login_code "555") toy_world).0 ≡ ret (respond succeeded))
    × Unit {0}
    × (toy_store.stored (send_code toy_auth (login_code "555") toy_world).1 user_login "555"
        ≡ some "123456")
send_code-stored_example =
    send_code-stored toy_auth toy_store "555" "123456" toy_world alice user_login "555" tt
      Quiet-lookup Quiet-code refl refl tt

abbrev sent_world : World
sent_world = (send_code toy_auth (login_code "555") toy_world).1

login_sent :
    (login_by_code toy_auth (record { phone_number = "555"; code = "123456" }) sent_world).0
    ≡ ret logged_in
unfolding login_by_code get_code send_code save_code
login_sent = refl

abbrev given : String
given = "123456"

login_by_code-send_code_example : given ≡ "123456"
login_by_code-send_code_example =
    login_by_code-send_code toy_auth toy_store "555" "123456" given toy_world alice logged_in tt
      Quiet-lookup Quiet-code refl refl login_sent refl

abbrev bob : RegisterRequest
bob = record { username = "bob"; password = "secret"; phone_number = "777"; code = "222222" }

abbrev registered : RegisterResponse
registered = record { status = succeeded; user_id = "u1" }

register-success_iff_example :
    ((register toy_basic bob toy_world).0 ≡ ret registered) × (registered.status.code ≡ success)
    ↔ Registration toy_basic bob toy_world registered
register-success_iff_example = register-success_iff toy_basic bob toy_world registered

register_run : (register toy_basic bob toy_world).0 ≡ ret registered
unfolding register get_code generate_salt
register_run = refl

abbrev after_register : World
after_register = (register toy_basic bob toy_world).1

login_by_password-register_test :
    (login_by_password toy_auth (record { user_id = "u1"; password = "secret" }) after_register).0
    ≡ ret (record { status = succeeded; token = "token:u1"; user_id = "u1" })
login_by_password-register_test =
    login_by_password-register toy_auth toy_basic toy_users toy_security bob toy_world registered
      "token:u1" toy_users-store tt toy_security-laws register_run refl refl

differ :
    (salt : String)
    → toy_security.hash_password "wrong" salt ≢ toy_security.hash_password "secret" salt
unfolding hash_password
differ salt e = omega (
  arith,
  ap count e,
  length-append "#" ("wrong" ++ salt),
  length-append "#" ("secret" ++ salt),
  length-append "wrong" salt,
  length-append "secret" salt,
)

login_by_password-register_wrong_test :
    (login_by_password toy_auth (record { user_id = "u1"; password = "wrong" }) after_register).0
    ≡ ret (refused password_incorrect "密码错误")
login_by_password-register_wrong_test =
    login_by_password-register_wrong toy_auth toy_basic toy_users toy_security bob toy_world
      registered "wrong" toy_users-store tt toy_security-laws register_run refl differ
