-- ===== src/Adapter/Rpcs/Tokens.antt =====
-- A token from its login to its use: LoginByPassword, JwtUtil and GetUserInfo together.
use Prim.Native.String.{◌++◌}
use photon_commerce.Base.{
  ℕ, String, some, true, List, ◌∷◌, ◌≡◌, refl, sym, ap, ◌∙◌, ◌≤◌, arith, Expected, value, ret,
  Outcome, subst,
}
use photon_commerce.Domain.User.{User}
use photon_commerce.Service.Model.{succeeded, LoginByPasswordRequest, LoginResult, code_value}
use photon_commerce.Service.Auth.{AuthService}
use photon_commerce.Service.Auth.Login.{login_by_password-success_iff}
use photon_commerce.Service.BasicUser.{BasicUserService, get_user_info, info_of}
use photon_commerce.Service.Utilities.{JwtError}
use photon_commerce.Adapter.Authentication.{perform_authentication-bearer}
use photon_commerce.Adapter.CallData.{finish, ok_status, status_of}
use photon_commerce.Adapter.CallData.Calls.{answer_for}
use photon_commerce.Adapter.Handlers.{
  message_of, run_login_by_password, run_get_user_info, is_success,
}
use photon_commerce.Adapter.Handlers.Replies.{shown}
use photon_commerce.Adapter.Rpcs.{
  SpecificCallData, get_user_info_call_data, login_by_password_call_data,
}
use photon_commerce.Adapter.Rpcs.Sessions.{
  SlotOf, IsWaiting, serve_with, answer_with, serve_with-answer,
}
use photon_commerce.Utils.Jwt.{
  JwtLib, JwtConfig, IsJwtLib, generate_token, good_until, verify_token-generate_token,
}
use photon_commerce.Utils.Jwt.{verify_token as jwt_verify}

module _ {S : Type 0} (auth : AuthService S) (basic : BasicUserService S)
    (verify_token : String → Expected String JwtError) where
  abbrev login : SpecificCallData S
  login = login_by_password_call_data auth

  abbrev info : SpecificCallData S
  info = get_user_info_call_data basic

  -- What a login with the right password finds.
  pub record IsRightPassword (req : LoginByPasswordRequest) (w : S) (user : User) (token : String)
      : Type 0 where
    pub found : (auth.user_repository.get_user_by_id req.user_id w).0 ≡ ret (value (some user))
    pub verified :
        auth.security_util.verify_password req.password user.salt user.password_hash ≡ true
    pub signed :
        (auth.jwt_util.generate_token user.id
          (auth.user_repository.get_user_by_id req.user_id w).1).0
        ≡ ret token

  login_answer :
      (req : LoginByPasswordRequest) (metadata : List (String × String)) (w : S) (user : User)
      (token : String)
      → IsRightPassword req w user token
      → (answer_with login verify_token req metadata w).0
        ≡ (ok_status, record { status = message_of succeeded; token = token })
  unfolding run_login_by_password is_success code_value status_of
  login_answer req metadata w user token v =
      let r : LoginResult = record { status = succeeded; token = token; user_id = user.id } in
      let done = (login_by_password-success_iff auth req w r).1 (record {
        user = user;
        found = v.found;
        verified = v.verified;
        signed = v.signed;
        for_user = refl;
        status = refl;
      }) in
      ground (arith, done.0)

  verified_value :
      {r r' : Expected String JwtError}
      → ◌≡◌ {A = Outcome (Expected String JwtError)} (ret r) (ret r')
      → r ≡ r'
  verified_value e = cc

  info_answer :
      (token user_id : String) (rest : List (String × String)) (w : S) (there : User)
      → verify_token token ≡ value user_id
      → (basic.user_repository.get_user_by_id user_id w).0 ≡ ret (value (some there))
      → (answer_with info verify_token tt (("authorization", "Bearer " ++ token) ∷ rest) w).0
        ≡ (ok_status, record { status = message_of succeeded; user = some (shown there) })
  unfolding status_of run_get_user_info get_user_info info_of is_success code_value
  info_answer token user_id rest w there good e =
      let known = perform_authentication-bearer verify_token token user_id rest good in
      subst
        (λ r.
          (answer_for info.no_request info.no_reply true verify_token info.run_specific_logic r tt
            w).0
          ≡ (ok_status, record { status = message_of succeeded; user = some (shown there) }))
        (sym known) (ground (arith, e))

  -- A token works from its login on: with a JWT library that does what it documents, JwtUtil
  -- signing for the logins and verifying for the calls, where a user is found for the id of a
  -- LoginByPassword request and the password verifies, the call is answered with OK, code 0 and a
  -- token; and from the time of issue until that token expires, a call of GetUserInfo that sends it
  -- as a bearer token is answered with OK, code 0 and the public part of the user that the look-up
  -- of the id of the login finds by then, where it finds one, whatever else the call sends. Both
  -- slots are slots that have come to be registered.
  pub login-get_user_info :
      (lib : JwtLib) (config : JwtConfig) (laws : IsJwtLib lib) (made now : ℕ)
      (login_slot : SlotOf login verify_token) (slot : SlotOf info verify_token)
      (req : LoginByPasswordRequest) (metadata rest : List (String × String)) (w w' : S)
      (user there : User)
      → ((token : String) → jwt_verify lib config now token ≡ ret (verify_token token))
      → made ≤ now
      → now ≤ good_until lib config laws made
      → IsWaiting login verify_token login_slot
      → IsWaiting info verify_token slot
      → IsRightPassword req w user (generate_token lib config made user.id)
      → (basic.user_repository.get_user_by_id user.id w').0 ≡ ret (value (some there))
      → (token : String) × ((serve_with login verify_token login_slot req metadata w).0.pending
          ≡ finish ok_status (record { status = message_of succeeded; token = token }))
        × ((serve_with info verify_token slot tt
              (("authorization", "Bearer " ++ token) ∷ rest)
              w').0.pending
            ≡ finish ok_status
                (record { status = message_of succeeded; user = some (shown there) }))
  login-get_user_info lib config laws made now login_slot slot req metadata rest w w' user there
        same issued fresh waits waits' right looked_up =
      let token = generate_token lib config made user.id in
      let good = verified_value (
        sym (same token)
        ∙ verify_token-generate_token lib config laws made now user.id issued fresh) in
      let signed = login_answer req metadata w user token right in
      let shows = info_answer token user.id rest w' there good looked_up in
      let call = ("authorization", "Bearer " ++ token) ∷ rest in
      (
        token,
        serve_with-answer login verify_token login_slot req metadata w waits
            ∙ ap (λ a. finish a.0 a.1) signed,
        serve_with-answer info verify_token slot tt call w' waits' ∙ ap (λ a. finish a.0 a.1) shows,
      )
