-- ===== src/Service/Utilities.antt =====
-- UserService/utils/interface: the utilities behind the services. Those that read a clock or a
-- random source act on the state `S`.
use photon_commerce.Base.{ℕ, String, Bool, true, ◌≡◌, ◌↔◌, Await}

pub data JwtError : Type 0 where
  token_expired signature_invalid format_invalid internal_error : JwtError

pub record JwtGenerator (S : Type 0) : Type 0 where
  pub generate_token : String → Await S String

pub record SecurityUtil (S : Type 0) : Type 0 where
  pub generate_salt : Await S String
  pub hash_password : String → String → String
  pub verify_password : String → String → String → Bool

-- A password is accepted against the hash of another exactly when the two hash alike.
pub record IsSecurityUtil {S : Type 0} (util : SecurityUtil S) : Type 0 where
  pub verify-hash :
      (given password salt : String)
      → (util.verify_password given salt (util.hash_password password salt) ≡ true)
        ↔ (util.hash_password given salt ≡ util.hash_password password salt)

pub record IdGenerator (S : Type 0) : Type 0 where
  pub generate_uuid : Await S String

pub record VerificationCodeGenerator (S : Type 0) : Type 0 where
  pub generate : ℕ → Await S String
