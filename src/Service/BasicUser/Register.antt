-- ===== src/Service/BasicUser/Register.antt =====
-- When a registration succeeds.
use photon_commerce.Base.{
  String, Option, none, some, ◌≡◌, ◌∙◌, ap, ◌↔◌, inl, inr, arith, value, unexpected, ret, Expected,
  >>=-eq-ret, Bool-cases,
}
use photon_commerce.Domain.User.{User}
use photon_commerce.Domain.Repositories.{DbError}
use photon_commerce.Service.Model.{
  success, succeeded, user_register, RegisterRequest, RegisterResponse,
}
use photon_commerce.Service.Auth.{code_matches}
use photon_commerce.Service.Auth.Login.{code_matches-eq}
use photon_commerce.Service.BasicUser.{
  BasicUserService, register, register_checked, register_new, new_user, created,
}
use text.Mathlib.TextEquality.{eq_iff}

module _ {S : Type 0} (basic : BasicUserService S) where
  open basic use {user_repository, code_repository, id_generator, security_util}

  -- The states between the steps of a registration.
  abbrev after_code : RegisterRequest → S → S
  after_code req s = (code_repository.get_code user_register req.phone_number s).1

  abbrev after_lookup : RegisterRequest → S → S
  after_lookup req s =
      (user_repository.get_user_by_phone_number req.phone_number (after_code req s)).1

  abbrev after_uuid : RegisterRequest → S → S
  after_uuid req s = (id_generator.generate_uuid (after_lookup req s)).1

  abbrev pub before_create : RegisterRequest → S → S
  before_create req s = (security_util.generate_salt (after_uuid req s)).1

  abbrev pub registered_user : RegisterRequest → String → String → User
  registered_user req uuid salt =
      new_user req uuid salt (security_util.hash_password req.password salt)

  -- The evidence behind a registration from the state `s`.
  pub record Registration (req : RegisterRequest) (s : S) (r : RegisterResponse) : Type 0 where
    pub salt : String
    pub code_stored :
        (code_repository.get_code user_register req.phone_number s).0 ≡ ret (some req.code)
    pub phone_free :
        (user_repository.get_user_by_phone_number req.phone_number (after_code req s)).0
        ≡ ret (value none)
    pub fresh_id : (id_generator.generate_uuid (after_lookup req s)).0 ≡ ret r.user_id
    pub salted : (security_util.generate_salt (after_uuid req s)).0 ≡ ret salt
    pub inserted :
        (user_repository.create_user (registered_user req r.user_id salt) (before_create req s)).0
        ≡ ret (value tt)
    pub status : r.status ≡ succeeded

  register_created :
      (req : RegisterRequest) (s : S) (r : RegisterResponse)
      → (code_repository.get_code user_register req.phone_number s).0 ≡ ret (some req.code)
      → (user_repository.get_user_by_phone_number req.phone_number (after_code req s)).0
        ≡ ret (value none)
      → (uuid salt : String) (result : Expected (Unit {0}) DbError)
      → (id_generator.generate_uuid (after_lookup req s)).0 ≡ ret uuid
      → (security_util.generate_salt (after_uuid req s)).0 ≡ ret salt
      → (user_repository.create_user (registered_user req uuid salt) (before_create req s)).0
        ≡ ret result
      → ret (created uuid result) ≡ ret r
      → r.status.code ≡ success
      → Registration req s r
  register_created req s r stored free uuid salt (unexpected e) made salted inserted h ok =
      ground arith
  register_created req s r stored free uuid salt (value tt) made salted inserted h ok =
      let same : r.user_id ≡ uuid = ground arith in
      record {
        salt = salt;
        code_stored = stored;
        phone_free = free;
        fresh_id = rw same made;
        salted = salted;
        inserted = rw same inserted;
        status = ground arith;
      }

  register_new_sound :
      (req : RegisterRequest) (s : S) (r : RegisterResponse)
      → (code_repository.get_code user_register req.phone_number s).0 ≡ ret (some req.code)
      → (user_repository.get_user_by_phone_number req.phone_number (after_code req s)).0
        ≡ ret (value none)
      → (register_new basic req (after_lookup req s)).0 ≡ ret r
      → r.status.code ≡ success
      → Registration req s r
  unfolding register_new
  register_new_sound req s r stored free h ok =
      let (uuid, made, h1) = >>=-eq-ret id_generator.generate_uuid _ (after_lookup req s) h in
      let (salt, salted, h2) = >>=-eq-ret security_util.generate_salt _ (after_uuid req s) h1 in
      let (result, inserted, h3) =
        >>=-eq-ret (user_repository.create_user (registered_user req uuid salt)) _
          (before_create req s) h2 in
      register_created req s r stored free uuid salt result made salted inserted h3 ok

  register_checked_sound :
      (req : RegisterRequest) (s : S) (r : RegisterResponse)
      (found : Expected (Option User) DbError)
      → (code_repository.get_code user_register req.phone_number s).0 ≡ ret (some req.code)
      → (user_repository.get_user_by_phone_number req.phone_number (after_code req s)).0 ≡ ret found
      → (register_checked basic req found (after_lookup req s)).0 ≡ ret r
      → r.status.code ≡ success
      → Registration req s r
  unfolding register_checked
  register_checked_sound req s r (unexpected e) stored e' h ok = ground arith
  register_checked_sound req s r (value (some user)) stored e' h ok = ground arith
  register_checked_sound req s r (value none) stored e' h ok =
      register_new_sound req s r stored e' h ok

  register_sound :
      (req : RegisterRequest) (s : S) (r : RegisterResponse)
      → (register basic req s).0 ≡ ret r
      → r.status.code ≡ success
      → Registration req s r
  unfolding register
  register_sound req s r h ok =
      let (code, stored, h1) =
        >>=-eq-ret (code_repository.get_code user_register req.phone_number) _ s h in
      elim (Bool-cases (code_matches code req.code)) [
        | inr wrong ↦ ground (arith, wrong)
        | inl right ↦
            let (found, looked, h2) =
              >>=-eq-ret (user_repository.get_user_by_phone_number req.phone_number)
                (register_checked basic req) _ (rw right at h1) in
            register_checked_sound req s r found
              (stored ∙ ap ret (code_matches-eq code req.code right)) looked h2 ok
      ]

  -- A registration answers success exactly when the stored code for USER_REGISTER and the phone
  -- number is the given one, no user with that number is found, the id of the answer and a salt
  -- are generated, and the user built from them and from the hash of the password is inserted.
  pub register-success_iff :
      (req : RegisterRequest) (s : S) (r : RegisterResponse)
      → ((register basic req s).0 ≡ ret r) × (r.status.code ≡ success) ↔ Registration req s r
  unfolding register
  register-success_iff req s r = (
    (λ (h, ok). register_sound req s r h ok),
    (λ g. ground (
      arith,
      eq_iff req.code req.code,
      g.code_stored,
      g.phone_free,
      g.fresh_id,
      g.salted,
      g.inserted,
      g.status,
    )),
  )
