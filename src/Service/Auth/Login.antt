-- ===== src/Service/Auth/Login.antt =====
-- When a login succeeds, and what it gives away.
use photon_commerce.Base.{
  String, Option, none, some, true, ◌≡◌, refl, ◌≢◌, ◌↔◌, ◌⊎◌, inl, inr, arith, value, unexpected,
  ret, >>=-eq-ret, Expected, Bool-cases, ap, ◌∙◌,
}
use photon_commerce.Domain.User.{User}
use photon_commerce.Service.Model.{
  success, succeeded, user_login, LoginByPasswordRequest, LoginByCodeRequest, LoginResult,
}
use photon_commerce.Domain.Repositories.{DbError}
use photon_commerce.Service.Auth.{
  AuthService, login_by_code, login_by_password, issue_token, login_found_by_code,
  login_found_by_id, code_matches,
}
use text.Mathlib.TextEquality.{eq_iff}

pub code_matches-eq :
    (c : Option String) (code : String) → code_matches c code ≡ true → c ≡ some code
code_matches-eq none code h = cc
code_matches-eq (some c) code h = ap some ((eq_iff c code).0 h)

module _ {S : Type 0} (auth : AuthService S) where
  open auth use {verification_code_repository, user_repository, jwt_util, security_util}

  -- The evidence behind a login by code from the state `s`.
  pub record CodeLogin (req : LoginByCodeRequest) (s : S) (r : LoginResult) : Type 0 where
    pub user : User
    pub code_stored :
        (verification_code_repository.get_code user_login req.phone_number s).0
        ≡ ret (some req.code)
    pub found :
        (user_repository.get_user_by_phone_number req.phone_number
          (verification_code_repository.get_code user_login req.phone_number s).1).0
        ≡ ret (value (some user))
    pub signed :
        (jwt_util.generate_token user.id
          (user_repository.get_user_by_phone_number req.phone_number
            (verification_code_repository.get_code user_login req.phone_number s).1).1).0
        ≡ ret r.token
    pub for_user : r.user_id ≡ user.id
    pub status : r.status ≡ succeeded

  -- The evidence behind a login by password.
  pub record PasswordLogin (req : LoginByPasswordRequest) (s : S) (r : LoginResult) : Type 0 where
    pub user : User
    pub found : (user_repository.get_user_by_id req.user_id s).0 ≡ ret (value (some user))
    pub verified : security_util.verify_password req.password user.salt user.password_hash ≡ true
    pub signed :
        (jwt_util.generate_token user.id (user_repository.get_user_by_id req.user_id s).1).0
        ≡ ret r.token
    pub for_user : r.user_id ≡ user.id
    pub status : r.status ≡ succeeded

  -- What a token answer holds.
  abbrev Issued : User → S → LoginResult → Type 0
  Issued user s r =
      ((jwt_util.generate_token user.id s).0 ≡ ret r.token)
      × (r.user_id ≡ user.id)
      × (r.status ≡ succeeded)

  issue_token-Issued :
      (user : User) (s : S) (r : LoginResult)
      → (issue_token auth user s).0 ≡ ret r
      → Issued user s r
  unfolding issue_token
  issue_token-Issued user s r h =
      let (token, signed, made) = >>=-eq-ret (jwt_util.generate_token user.id) _ s h in
      ground (arith, signed, made)

  login_found_by_code-Issued :
      (found : Expected (Option User) DbError) (s : S) (r : LoginResult)
      → (login_found_by_code auth found s).0 ≡ ret r
      → r.status.code ≡ success
      → (user : User) × (found ≡ value (some user)) × Issued user s r
  unfolding login_found_by_code
  login_found_by_code-Issued (unexpected e) s r h ok = ground arith
  login_found_by_code-Issued (value none) s r h ok = ground arith
  login_found_by_code-Issued (value (some user)) s r h ok =
      (user, refl, issue_token-Issued user s r h)

  login_found_by_id-Issued :
      (req : LoginByPasswordRequest) (found : Expected (Option User) DbError) (s : S)
      (r : LoginResult)
      → (login_found_by_id auth req found s).0 ≡ ret r
      → r.status.code ≡ success
      → (user : User) × (found ≡ value (some user))
        × (security_util.verify_password req.password user.salt user.password_hash ≡ true)
        × Issued user s r
  unfolding login_found_by_id
  login_found_by_id-Issued req (unexpected e) s r h ok = ground arith
  login_found_by_id-Issued req (value none) s r h ok = ground arith
  login_found_by_id-Issued req (value (some user)) s r h ok =
      elim (Bool-cases (security_util.verify_password req.password user.salt user.password_hash)) [
        | inl good ↦ (user, refl, good, issue_token-Issued user s r (rw good at h))
        | inr bad ↦ ground (arith, bad)
      ]

  login_by_code_sound :
      (req : LoginByCodeRequest) (s : S) (r : LoginResult)
      → (login_by_code auth req s).0 ≡ ret r
      → r.status.code ≡ success
      → CodeLogin req s r
  unfolding login_by_code
  login_by_code_sound req s r h ok =
      let (code, stored, h1) =
        >>=-eq-ret (verification_code_repository.get_code user_login req.phone_number) _ s h in
      elim (Bool-cases (code_matches code req.code)) [
        | inr wrong ↦ ground (arith, wrong)
        | inl right ↦
            let (o, found, h2) =
              >>=-eq-ret (user_repository.get_user_by_phone_number req.phone_number)
                (login_found_by_code auth) _ (rw right at h1) in
            let (user, is_user, issued) = login_found_by_code-Issued o _ r h2 ok in
            record {
              user = user;
              code_stored = stored ∙ ap ret (code_matches-eq code req.code right);
              found = found ∙ ap ret is_user;
              signed = issued.0;
              for_user = issued.1;
              status = issued.2;
            }
      ]

  -- A login by code answers success exactly when the stored code for USER_LOGIN and the phone
  -- number is the given one, a user with that number is found, and the answer carries the token
  -- signed for that user's id, with that id.
  pub login_by_code-success_iff :
      (req : LoginByCodeRequest) (s : S) (r : LoginResult)
      → ((login_by_code auth req s).0 ≡ ret r) × (r.status.code ≡ success) ↔ CodeLogin req s r
  unfolding login_by_code
  login_by_code-success_iff req s r = (
    (λ (h, ok). login_by_code_sound req s r h ok),
    (λ l.
        ground (
          arith,
          eq_iff req.code req.code,
          l.code_stored,
          l.found,
          l.signed,
          l.for_user,
          l.status,
        )),
  )

  login_by_password_sound :
      (req : LoginByPasswordRequest) (s : S) (r : LoginResult)
      → (login_by_password auth req s).0 ≡ ret r
      → r.status.code ≡ success
      → PasswordLogin req s r
  unfolding login_by_password
  login_by_password_sound req s r h ok =
      let (o, found, h1) =
        >>=-eq-ret (user_repository.get_user_by_id req.user_id) (login_found_by_id auth req) s h in
      let (user, is_user, verified, issued) = login_found_by_id-Issued req o _ r h1 ok in
      record {
        user = user;
        found = found ∙ ap ret is_user;
        verified = verified;
        signed = issued.0;
        for_user = issued.1;
        status = issued.2;
      }

  -- A login by password answers success exactly when a user with the given id is found, the
  -- password verifies against the salt and hash of that user, and the answer carries the token
  -- signed for that user's id, with that id.
  pub login_by_password-success_iff :
      (req : LoginByPasswordRequest) (s : S) (r : LoginResult)
      → ((login_by_password auth req s).0 ≡ ret r) × (r.status.code ≡ success)
        ↔ PasswordLogin req s r
  unfolding login_by_password
  login_by_password-success_iff req s r = (
    (λ (h, ok). login_by_password_sound req s r h ok),
    (λ l. ground (arith, l.found, l.verified, l.signed, l.for_user, l.status)),
  )

  -- An answer that is not a success gives away nothing: no token and no user id.
  abbrev pub KeepsSecret : LoginResult → Type 0
  KeepsSecret r = r.status.code ≢ success → (r.token ≡ "") × (r.user_id ≡ "")

  issue_token-KeepsSecret :
      (user : User) (s : S) (r : LoginResult) → (issue_token auth user s).0 ≡ ret r → KeepsSecret r
  issue_token-KeepsSecret user s r h bad = ground (arith, issue_token-Issued user s r h)

  login_found_by_code-KeepsSecret :
      (found : Expected (Option User) DbError) (s : S) (r : LoginResult)
      → (login_found_by_code auth found s).0 ≡ ret r
      → KeepsSecret r
  unfolding login_found_by_code
  login_found_by_code-KeepsSecret (unexpected e) s r h bad = ground arith
  login_found_by_code-KeepsSecret (value none) s r h bad = ground arith
  login_found_by_code-KeepsSecret (value (some user)) s r h bad =
      issue_token-KeepsSecret user s r h bad

  login_found_by_id-KeepsSecret :
      (req : LoginByPasswordRequest) (found : Expected (Option User) DbError) (s : S)
      (r : LoginResult)
      → (login_found_by_id auth req found s).0 ≡ ret r
      → KeepsSecret r
  unfolding login_found_by_id
  login_found_by_id-KeepsSecret req (unexpected e) s r h bad = ground arith
  login_found_by_id-KeepsSecret req (value none) s r h bad = ground arith
  login_found_by_id-KeepsSecret req (value (some user)) s r h bad =
      ground (arith, issue_token-KeepsSecret user s r)

  -- Every answer of the two logins that is not a success has an empty token and an empty user id.
  pub login-KeepsSecret :
      (by_code : LoginByCodeRequest) (by_password : LoginByPasswordRequest) (s : S)
      (r : LoginResult)
      → ((login_by_code auth by_code s).0 ≡ ret r)
        ⊎ ((login_by_password auth by_password s).0 ≡ ret r)
      → r.status.code ≢ success
      → (r.token ≡ "") × (r.user_id ≡ "")
  unfolding login_by_code login_by_password
  login-KeepsSecret by_code by_password s r (inl h) bad =
      let (code, stored, h1) =
        >>=-eq-ret (verification_code_repository.get_code user_login _) _ s h in
      elim (Bool-cases (code_matches code by_code.code)) [
        | inr wrong ↦ ground (arith, wrong)
        | inl right ↦
            let (o, found, h2) =
              >>=-eq-ret (user_repository.get_user_by_phone_number by_code.phone_number)
                (login_found_by_code auth) _ (rw right at h1) in
            login_found_by_code-KeepsSecret o _ r h2 bad
      ]
  login-KeepsSecret by_code by_password s r (inr h) bad =
      let (o, found, h1) =
        >>=-eq-ret (user_repository.get_user_by_id by_password.user_id)
          (login_found_by_id auth by_password) s h in
      login_found_by_id-KeepsSecret by_password o _ r h1 bad
