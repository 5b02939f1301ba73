-- ===== src/Tests/Adapters.antt =====
-- Calls that carry a token, and the handlers in the world of Tests/Toy.
use Prim.Native.String.{◌++◌}
use photon_commerce.Base.{
  String, none, some, true, List, [], ◌∷◌, ◌≡◌, ◌≢◌, refl, ◌↔◌, if◌then◌else◌, Expected, value,
  unexpected, ret,
}
use photon_commerce.Adapter.Authentication.{
  find, strip_bearer, perform_authentication, perform_authentication_iff,
  perform_authentication-bearer,
}
use photon_commerce.Adapter.CallData.{spawn, handle_process, proceed}
use photon_commerce.Adapter.CallData.Protocol.{
  Slot, deliver, here, next, start, after, filled, proceed_slot, Inv, Reach-start-Inv,
  deliver-spawn,
}
use photon_commerce.Adapter.Handlers.{run_login_by_password, run_get_user_info}
use photon_commerce.Adapter.Handlers.Replies.{
  no_login, no_user_info, shown?, run_login_by_password-code_zero, run_get_user_info-shown,
}
use photon_commerce.Service.Auth.{login_by_password}
use photon_commerce.Service.Auth.Login.{PasswordLogin}
use photon_commerce.Service.BasicUser.{get_user_info}
use photon_commerce.Service.Model.{LoginByPasswordRequest, LoginResult, code_value}
use photon_commerce.Service.Utilities.{JwtError, signature_invalid}
use photon_commerce.Utils.Security.{verify_password, hash_password}
use photon_commerce.Tests.Toy.{toy_world, toy_auth, toy_basic, alice}
use text.Mathlib.Text.{◌==◌ as str_eq}

abbrev pub verify : String → Expected String JwtError
verify token = if str_eq token "good" then value "a" else unexpected signature_invalid

abbrev pub metadata : List (String × String)
metadata = ("authorization", "Bearer " ++ "good") ∷ []

perform_authentication_iff_test : (perform_authentication verify metadata ≡ value "a") ↔ (
    (text : String) × (find "authorization" metadata ≡ some text)
    × (verify (strip_bearer text) ≡ value "a"))
perform_authentication_iff_test = perform_authentication_iff verify metadata "a"

bearer_test : perform_authentication verify metadata ≡ value "a"
bearer_test = perform_authentication-bearer verify "good" "a" [] refl

abbrev blank : String
blank = ""

abbrev fresh : Slot blank blank true verify
fresh = start blank blank true verify

abbrev delivered : Slot blank blank true verify
delivered = after blank blank true verify fresh 1 (
    proceed_slot blank blank true verify true
      (filled blank blank true verify fresh "who am I" metadata))

Reach-start-Inv_example : Inv blank blank true verify delivered
Reach-start-Inv_example =
    Reach-start-Inv blank blank true verify (next here (deliver "who am I" metadata refl))

delivered_spawns :
    (proceed_slot blank blank true verify true
      (filled blank blank true verify fresh "who am I" metadata)).1
    ≡ spawn "a"
unfolding proceed handle_process perform_authentication find strip_bearer
delivered_spawns = refl

deliver-spawn_test : perform_authentication verify metadata ≡ value "a"
deliver-spawn_test =
    deliver-spawn blank blank true verify fresh "who am I" metadata "a" refl here refl
      delivered_spawns

abbrev request : LoginByPasswordRequest
request = record { user_id = "a"; password = "pw" }

run_login_ret :
    (run_login_by_password (login_by_password toy_auth) request (no_login, toy_world)).0 ≡ ret tt
unfolding run_login_by_password login_by_password verify_password hash_password
run_login_ret = refl

run_login_zero :
    (run_login_by_password
      (login_by_password toy_auth)
      request
      (no_login, toy_world)).1.0.status.code
    ≡ 0
unfolding run_login_by_password login_by_password verify_password hash_password code_value
run_login_zero = refl

run_login_by_password-code_zero_test :
    (r : LoginResult) × PasswordLogin toy_auth request toy_world r
    × ((run_login_by_password (login_by_password toy_auth) request (no_login, toy_world)).1.0.token
        ≡ r.token)
run_login_by_password-code_zero_test =
    run_login_by_password-code_zero toy_auth request toy_world run_login_ret run_login_zero

run_get_user_info-shown_test :
    ((run_get_user_info (get_user_info toy_basic) "a" (no_user_info, toy_world)).0 ≡ ret tt)
    × ((run_get_user_info (get_user_info toy_basic) "a" (no_user_info, toy_world)).1.0.user
        ≡ shown? (value (some alice)))
    × (((run_get_user_info (get_user_info toy_basic) "a" (no_user_info, toy_world)).1.0.status.code
          ≡ 0)
        ↔ ((run_get_user_info (get_user_info toy_basic) "a" (no_user_info, toy_world)).1.0.user
            ≢ none))
run_get_user_info-shown_test =
    run_get_user_info-shown toy_basic "a" toy_world (value (some alice)) refl
