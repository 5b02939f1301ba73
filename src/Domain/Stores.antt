-- ===== src/Domain/Stores.antt =====
-- What the two repositories promise their clients, on an abstract view of the state behind them.
use photon_commerce.Base.{
  ℕ, String, Option, some, Bool, true, false, ◌&&◌, ◌≡◌, if◌then◌else◌, value, ret, Await,
}
use photon_commerce.Domain.User.{User}
use photon_commerce.Domain.User.RoundTrip.{IsInt16}
use photon_commerce.Domain.Repositories.{UserRepository, VerificationCodeRepository}
use photon_commerce.Service.Model.{
  CodeUsage, unknown, user_register, user_login, reset_password, out_of_range,
}
use text.Mathlib.Text.{◌==◌ as str_eq}

-- The usages that a code can be stored for.
abbrev pub IsStorable : CodeUsage → Type 0
IsStorable unknown = ⊥
IsStorable (out_of_range n) = ⊥
IsStorable user_register = Unit
IsStorable user_login = Unit
IsStorable reset_password = Unit

abbrev pub same_usage : CodeUsage → CodeUsage → Bool
same_usage user_register user_register = true
same_usage user_login user_login = true
same_usage reset_password reset_password = true
same_usage _ _ = false

-- A working code store: a code is kept under its usage and phone number. `IsUp` holds of the
-- states in which the store answers.
pub record CodeStore {S : Type 0} (repo : VerificationCodeRepository S) : Type 1 where
  pub IsUp : S → Type 0
  pub stored : S → CodeUsage → String → Option String
  pub save :
      (s : S) (u : CodeUsage) (p c : String) (expiry : ℕ)
      → IsUp s
      → IsStorable u
      → ((repo.save_code u p c expiry s).0 ≡ ret tt)
        × IsUp (repo.save_code u p c expiry s).1
        × ((v : CodeUsage) (q : String)
            → IsStorable v
            → stored (repo.save_code u p c expiry s).1 v q
              ≡ (if same_usage u v && str_eq p q then some c else stored s v q))
  pub get :
      (s : S) (u : CodeUsage) (p : String)
      → IsUp s
      → IsStorable u
      → ((repo.get_code u p s).0 ≡ ret (stored s u p))
        × IsUp (repo.get_code u p s).1
        × ((v : CodeUsage) (q : String)
            → IsStorable v
            → stored (repo.get_code u p s).1 v q ≡ stored s v q)

-- An operation of another component leaves the code store alone.
pub record Quiet {S : Type 0} {repo : VerificationCodeRepository S} (store : CodeStore repo)
    {A : Type 0} (m : Await S A) : Type 0 where
  pub up : (s : S) → store.IsUp s → store.IsUp (m s).1
  pub kept :
      (s : S) (v : CodeUsage) (q : String)
      → IsStorable v
      → store.stored (m s).1 v q ≡ store.stored s v q

-- What a stored user shares with the one that was created.
pub record SameIdentity (u v : User) : Type 0 where
  pub id : v.id ≡ u.id
  pub phone_number : v.phone_number ≡ u.phone_number
  pub password_hash : v.password_hash ≡ u.password_hash
  pub salt : v.salt ≡ u.salt

-- A user store: in a state in which it answers, `IsUp`, a user that was created, with a status that
-- fits its column, is found by its id.
pub record UserStore {S : Type 0} (repo : UserRepository S) : Type 1 where
  pub IsUp : S → Type 0
  pub create-get :
      (s : S) (u : User)
      → IsUp s
      → IsInt16 u.status.underlying
      → (repo.create_user u s).0 ≡ ret (value tt)
      → (v : User) × ((repo.get_user_by_id u.id (repo.create_user u s).1).0 ≡ ret (value (some v)))
        × SameIdentity u v
