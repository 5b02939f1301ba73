-- ===== src/Service/BasicUser/FirstLogin.antt =====
-- The first login of a registered user: BasicUserService::Register, then
-- AuthService::LoginByPassword over the same user repository and security utility.
use photon_commerce.Base.{
  String, some, ◌≡◌, refl, ◌≢◌, arith, value, ret, inl, inr, Bool-cases, sym,
}
use photon_commerce.Domain.User.{User}
use photon_commerce.Domain.Repositories.{UserRepository}
use photon_commerce.Domain.Stores.{UserStore, SameIdentity}
use photon_commerce.Service.Model.{
  success, succeeded, password_incorrect, RegisterRequest, RegisterResponse,
}
use photon_commerce.Service.Utilities.{SecurityUtil, IsSecurityUtil}
use photon_commerce.Service.Auth.{AuthService, login_by_password, refused}
use photon_commerce.Service.BasicUser.{BasicUserService, register, new_user}
use photon_commerce.Service.BasicUser.Register.{
  Registration, register-success_iff, before_create, registered_user,
}
use photon_commerce.Service.Auth.Login.{login_by_password-success_iff}
use text.Mathlib.TextEquality.{eq_iff}

module _ {S : Type 0} (auth : AuthService S) (basic : BasicUserService S) (users : UserRepository S)
    (security : SecurityUtil S) where
  abbrev pub shared_auth : AuthService S
  shared_auth = record auth { user_repository = users; security_util = security }

  abbrev pub shared_basic : BasicUserService S
  shared_basic = record basic { user_repository = users; security_util = security }

  register-state :
      (req : RegisterRequest) (s : S) (r : RegisterResponse) (g : Registration shared_basic req s r)
      → (register shared_basic req s).1
        ≡ (users.create_user
            (registered_user shared_basic req r.user_id g.salt)
            (before_create shared_basic req s)).1
  unfolding register
  register-state req s r g = ground (
    arith,
    eq_iff req.code req.code,
    g.code_stored,
    g.phone_free,
    g.fresh_id,
    g.salted,
    g.inserted,
  )

  -- The user that the first login finds.
  pub found_after_register :
      (req : RegisterRequest) (s : S) (r : RegisterResponse) (store : UserStore users)
      → store.IsUp (before_create shared_basic req s)
      → (register shared_basic req s).0 ≡ ret r
      → r.status.code ≡ success
      → (v : User) × (salt : String) × ((users.get_user_by_id r.user_id
            (register shared_basic req s).1).0
          ≡ ret (value (some v)))
        × SameIdentity (registered_user shared_basic req r.user_id salt) v
  unfolding new_user
  found_after_register req s r store up h ok =
      let g = (register-success_iff shared_basic req s r).0 (h, ok) in
      let (v, found, same) =
        store.create-get (before_create shared_basic req s)
          (registered_user shared_basic req r.user_id g.salt) up (omega arith) g.inserted in
      (v, g.salt, rw (register-state req s r g) found, same)

  pub login_by_password-register :
      (req : RegisterRequest) (s : S) (r : RegisterResponse) (token : String)
      (store : UserStore users)
      → store.IsUp (before_create shared_basic req s)
      → IsSecurityUtil security
      → (register shared_basic req s).0 ≡ ret r
      → r.status.code ≡ success
      → (auth.jwt_util.generate_token r.user_id
          (users.get_user_by_id r.user_id (register shared_basic req s).1).1).0
        ≡ ret token
      → (login_by_password shared_auth
          (record { user_id = r.user_id; password = req.password })
          (register shared_basic req s).1).0
        ≡ ret (record { status = succeeded; token = token; user_id = r.user_id })
  unfolding new_user
  login_by_password-register req s r token store up util h ok signed =
      let (v, salt, found, same) = found_after_register req s r store up h ok in
      let verified = (util.verify-hash req.password req.password salt).1 refl in
      ((login_by_password-success_iff shared_auth _ _ _).1 (record {
        user = v;
        found = found;
        verified = rw (same.salt, same.password_hash) verified;
        signed = rw same.id signed;
        for_user = sym same.id;
        status = refl;
      })).0

  -- Over the same two, a login right after a successful registration, under the id of the answer,
  -- with a password that hashes like the registered one under no salt, is refused as
  -- PASSWORD_INCORRECT.
  pub login_by_password-register_wrong :
      (req : RegisterRequest) (s : S) (r : RegisterResponse) (given : String)
      (store : UserStore users)
      → store.IsUp (before_create shared_basic req s)
      → IsSecurityUtil security
      → (register shared_basic req s).0 ≡ ret r
      → r.status.code ≡ success
      → ((salt : String)
          → security.hash_password given salt ≢ security.hash_password req.password salt)
      → (login_by_password shared_auth
          (record { user_id = r.user_id; password = given })
          (register shared_basic req s).1).0
        ≡ ret (refused password_incorrect "密码错误")
  unfolding login_by_password new_user
  login_by_password-register_wrong req s r given store up util h ok differs =
      let (v, salt, found, same) = found_after_register req s r store up h ok in
      elim (Bool-cases (security.verify_password given v.salt v.password_hash)) [
        | inl good ↦ absurd (
            differs salt (
              (util.verify-hash given req.password salt).0
                (rw (same.salt, same.password_hash) at good)))
        | inr bad ↦ ground (arith, found, bad)
      ]
