-- ===== src/Service/Auth/SendCode.antt =====
-- What AuthService::SendCode stores and what its answer reveals.
use photon_commerce.Base.{
  String, Option, none, some, ◌≡◌, refl, sym, ◌∙◌, ◌⊎◌, arith, value, unexpected, ret, Expected,
  >>=-eq-ret, if◌then◌else◌, ◌&&◌,
}
use photon_commerce.Domain.User.{User}
use photon_commerce.Domain.Repositories.{DbError}
use photon_commerce.Domain.Stores.{CodeStore, Quiet, IsStorable, same_usage}
use photon_commerce.Service.Model.{
  success, succeeded, unknown, out_of_range, user_register, user_login, reset_password, CodeUsage,
  SendCodeRequest, SendCodeResponse, LoginResult,
}
use photon_commerce.Service.Auth.{
  AuthService, send_code, login_by_code, respond, send_for, send_to_known, deliver_code,
}
use photon_commerce.Service.Auth.Login.{login_by_code-success_iff}
use text.Mathlib.Text.{◌==◌ as str_eq}
use text.Mathlib.TextPositions.{eq_refl}

-- The usages for which the user is looked up first.
abbrev pub LooksUp : CodeUsage → Type 0
LooksUp u = (u ≡ user_login) ⊎ (u ≡ reset_password)

module _ {S : Type 0} (auth : AuthService S) where
  open auth use {verification_code_generator, verification_code_repository, user_repository}

  deliver_code-answer :
      (req : SendCodeRequest) (s : S) (r : SendCodeResponse)
      → (deliver_code auth req s).0 ≡ ret r
      → r ≡ respond succeeded
  unfolding deliver_code
  deliver_code-answer req s r h =
      let (code, made, h1) = >>=-eq-ret (verification_code_generator.generate 6) _ s h in
      let (done, saved, h2) =
        >>=-eq-ret (verification_code_repository.save_code req.usage req.phone_number code 300) _ _
          h1 in
      ground (arith, h2)

  send_to_known-answer :
      (req : SendCodeRequest) (found : Option User) (s : S) (r : SendCodeResponse)
      → (send_to_known auth req (value found) s).0 ≡ ret r
      → r ≡ respond succeeded
  unfolding send_to_known
  send_to_known-answer req none s r h = ground arith
  send_to_known-answer req (some user) s r h = deliver_code-answer req s r h

  send_for-answer :
      (u : CodeUsage) (req : SendCodeRequest) (s : S) (found : Option User) (r : SendCodeResponse)
      → LooksUp u
      → (user_repository.get_user_by_phone_number req.phone_number s).0 ≡ ret (value found)
      → (send_for auth u req s).0 ≡ ret r
      → r ≡ respond succeeded
  unfolding send_for
  send_for-answer user_login req s found r u e h = send_to_known-answer req found _ r (rw e at h)
  send_for-answer reset_password req s found r u e h =
      send_to_known-answer req found _ r (rw e at h)
  send_for-answer unknown req s found r u e h = ground arith
  send_for-answer user_register req s found r u e h = ground arith
  send_for-answer (out_of_range n) req s found r u e h = ground arith

  -- The answer does not tell whether a phone number is registered: for a login or a password
  -- reset, two requests whose look-ups met no database error, whatever users they found or did
  -- not find, get the same answer where both return.
  pub send_code-hides_users :
      (req req' : SendCodeRequest) (s s' : S) (found found' : Option User) (r r' : SendCodeResponse)
      → LooksUp req.usage
      → LooksUp req'.usage
      → (user_repository.get_user_by_phone_number req.phone_number s).0 ≡ ret (value found)
      → (user_repository.get_user_by_phone_number req'.phone_number s').0 ≡ ret (value found')
      → (send_code auth req s).0 ≡ ret r
      → (send_code auth req' s').0 ≡ ret r'
      → r ≡ r'
  unfolding send_code
  send_code-hides_users req req' s s' found found' r r' u u' e e' h h' =
      send_for-answer req.usage req s found r u e h
      ∙ sym (send_for-answer req'.usage req' s' found' r' u' e' h')

  send_for-no_delivery :
      (u : CodeUsage) (req : SendCodeRequest) (s : S) (found : Expected (Option User) DbError)
      → LooksUp u
      → (user_repository.get_user_by_phone_number req.phone_number s).0 ≡ ret found
      → ((found ≡ value none) ⊎ ((e : DbError) × (found ≡ unexpected e)))
      → (send_for auth u req s).1 ≡ (user_repository.get_user_by_phone_number req.phone_number s).1
  unfolding send_for send_to_known
  send_for-no_delivery user_login req s found u e h = ground arith
  send_for-no_delivery reset_password req s found u e h = ground arith
  send_for-no_delivery unknown req s found u e h = ground arith
  send_for-no_delivery user_register req s found u e h = ground arith
  send_for-no_delivery (out_of_range n) req s found u e h = ground arith

  module _ (store : CodeStore verification_code_repository) where
    open store use {IsUp, stored}

    deliver_code-stored :
        (req : SendCodeRequest) (s : S) (c : String)
        → IsUp s
        → Quiet store (verification_code_generator.generate 6)
        → IsStorable req.usage
        → (verification_code_generator.generate 6 s).0 ≡ ret c
        → ((deliver_code auth req s).0 ≡ ret (respond succeeded))
          × IsUp (deliver_code auth req s).1
          × ((v : CodeUsage) (q : String)
              → IsStorable v
              → stored (deliver_code auth req s).1 v q ≡ (
                  if same_usage req.usage v && str_eq req.phone_number q
                  then some c
                  else stored s v q))
    unfolding deliver_code
    deliver_code-stored req s c up quiet storable made =
        let (done, up', kept) =
          store.save (verification_code_generator.generate 6 s).1 req.usage req.phone_number c 300
            (quiet.up s up) storable in
        rw (made, done) (refl, up', λ v q w. kept v q w ∙ rw (quiet.kept s v q w))

    send_code_all :
        (p c : String) (s : S) (user : User)
        → IsUp s
        → Quiet store (user_repository.get_user_by_phone_number p)
        → Quiet store (verification_code_generator.generate 6)
        → (user_repository.get_user_by_phone_number p s).0 ≡ ret (value (some user))
        → (verification_code_generator.generate 6
            (user_repository.get_user_by_phone_number p s).1).0
          ≡ ret c
        → let out = send_code auth (record { phone_number = p; usage = user_login }) s in
          (out.0 ≡ ret (respond succeeded))
          × IsUp out.1
          × ((v : CodeUsage) (q : String)
              → IsStorable v
              → stored out.1 v q
                ≡ (if same_usage user_login v && str_eq p q then some c else stored s v q))
    unfolding send_code
    send_code_all p c s user up quiet_lookup quiet_code found made =
        let (done, up', kept) =
          deliver_code-stored (record { phone_number = p; usage = user_login }) _ c
            (quiet_lookup.up s up) quiet_code tt made in
        rw found (done, up', λ v q w. kept v q w ∙ rw (quiet_lookup.kept s v q w))

    -- A code sent for a login: for a user that the look-up finds, from a working store that the
    -- look-up and the generator leave alone, the request is answered with success, and afterwards
    -- the store is up and holds the generated code for USER_LOGIN and that phone number, and what
    -- it held for every other storable usage and phone number.
    pub send_code-stored :
        (p c : String) (s : S) (user : User) (v : CodeUsage) (q : String)
        → IsUp s
        → Quiet store (user_repository.get_user_by_phone_number p)
        → Quiet store (verification_code_generator.generate 6)
        → (user_repository.get_user_by_phone_number p s).0 ≡ ret (value (some user))
        → (verification_code_generator.generate 6
            (user_repository.get_user_by_phone_number p s).1).0
          ≡ ret c
        → IsStorable v
        → let out = send_code auth (record { phone_number = p; usage = user_login }) s in
          (out.0 ≡ ret (respond succeeded))
          × IsUp out.1
          × (stored out.1 v q
              ≡ (if same_usage user_login v && str_eq p q then some c else stored s v q))
    send_code-stored p c s user v q up quiet_lookup quiet_code found made hv =
        let (done, up', kept) = send_code_all p c s user up quiet_lookup quiet_code found made in
        (done, up', kept v q hv)

    -- From a working store that the look-up and the generator leave alone, after SendCode for a
    -- login of a user that the look-up finds, a login by code for the same phone number that
    -- answers success was given the generated code.
    pub login_by_code-send_code :
        (p c given : String) (s : S) (user : User) (r : LoginResult)
        → IsUp s
        → Quiet store (user_repository.get_user_by_phone_number p)
        → Quiet store (verification_code_generator.generate 6)
        → (user_repository.get_user_by_phone_number p s).0 ≡ ret (value (some user))
        → (verification_code_generator.generate 6
            (user_repository.get_user_by_phone_number p s).1).0
          ≡ ret c
        → (login_by_code auth
            (record { phone_number = p; code = given })
            (send_code auth (record { phone_number = p; usage = user_login }) s).1).0
          ≡ ret r
        → r.status.code ≡ success
        → given ≡ c
    login_by_code-send_code p c given s user r up quiet_lookup quiet_code found made h ok =
        let (done, up', kept) = send_code_all p c s user up quiet_lookup quiet_code found made in
        let login = (login_by_code-success_iff auth _ _ r).0 (h, ok) in
        let (got, up'', same) = store.get _ user_login p up' tt in
        ground (arith, login.code_stored, got, kept user_login p tt, eq_refl p)
