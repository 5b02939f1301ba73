-- ===== src/Utils/Jwt.antt =====
-- UserService/utils/src/jwt_util.cc, over jwt-cpp. Times are nanoseconds from the epoch.
use photon_commerce.Base.{
  ℕ, String, Option, none, some, Bool, false, ◌≡◌, ◌≤◌, ◌<◌, ◌+◌, ◌*◌, ◌/◌, ltb, arith,
  if◌then◌else◌, Expected, value, unexpected, std_exception, unknown_exception, Outcome, ret,
  thrown,
}
use photon_commerce.Service.Utilities.{JwtError, token_expired, signature_invalid, format_invalid}

pub record JwtConfig : Type 0 where
  pub secret_key : String
  pub issuer : String
  pub expiration_seconds : ℕ

-- What the builder of jwt-cpp is given.
pub record Claims : Type 0 where
  pub issuer : String
  pub type : String
  pub user_id : String
  pub issued_at : ℕ
  pub expires_at : ℕ

-- `sign` is the end of the builder, with hs256 under a key; `decode` may throw; `expires_at` is
-- none where the token has no such claim; `verify` is the verifier for hs256 under a key with an
-- issuer, at a time, and throws where a check fails; `user_id` is the claim of that name, none
-- where it is missing, and throws where it is no string.
pub record JwtLib : Type 1 where
  pub Decoded : Type 0
  pub sign : Claims → String → String
  pub decode : String → Outcome Decoded
  pub expires_at : Decoded → Option ℕ
  pub verify : String → String → ℕ → Decoded → Outcome (Unit {0})
  pub user_id : Decoded → Outcome (Option String)

abbrev pub ticks : ℕ
ticks = 1000000000

module _ (lib : JwtLib) (config : JwtConfig) where
  abbrev claims : ℕ → String → Claims
  claims now user_id = record {
    issuer = config.issuer;
    type = "JWS";
    user_id = user_id;
    issued_at = now;
    expires_at = now + config.expiration_seconds * ticks;
  }

  unfoldable pub generate_token : ℕ → String → String
  generate_token now user_id = lib.sign (claims now user_id) config.secret_key

  -- `now > get_expires_at()`, where there is such a time.
  abbrev is_past : ℕ → Option ℕ → Bool
  is_past now none = false
  is_past now (some t) = ltb t now

  claim : Outcome (Option String) → Outcome (Expected String JwtError)
  claim (ret none) = ret (unexpected format_invalid)
  claim (ret (some user_id)) = ret (value user_id)
  claim (thrown e) = thrown e

  verified : lib.Decoded → Outcome (Unit {0}) → Outcome (Expected String JwtError)
  unfolding claim
  verified decoded (ret _) = claim (lib.user_id decoded)
  verified decoded (thrown e) = thrown e

  checked : ℕ → Outcome lib.Decoded → Outcome (Expected String JwtError)
  unfolding verified
  checked now (thrown e) = thrown e
  checked now (ret decoded) =
      if is_past now (lib.expires_at decoded)
      then ret (unexpected token_expired)
      else verified decoded (lib.verify config.secret_key config.issuer now decoded)

  -- The `catch` of std::exception.
  caught : Outcome (Expected String JwtError) → Outcome (Expected String JwtError)
  caught (ret r) = ret r
  caught (thrown (std_exception what)) = ret (unexpected signature_invalid)
  caught (thrown unknown_exception) = thrown unknown_exception

  unfoldable pub verify_token : ℕ → String → Outcome (Expected String JwtError)
  unfolding caught checked
  verify_token now token = caught (checked now (lib.decode token))

-- What jwt-cpp documents: a signed token decodes to its claims, with the times of issue and of
-- expiry cut to whole seconds; it passes the verifier, under the key and the issuer that it was
-- made with, from the one time to the other.
pub record IsJwtLib (lib : JwtLib) : Type 0 where
  pub decoded : Claims → String → lib.Decoded
  pub decode-sign : (c : Claims) (key : String) → lib.decode (lib.sign c key) ≡ ret (decoded c key)
  pub expires_at-decoded :
      (c : Claims) (key : String)
      → lib.expires_at (decoded c key) ≡ some (c.expires_at / ticks * ticks)
  pub user_id-decoded :
      (c : Claims) (key : String) → lib.user_id (decoded c key) ≡ ret (some c.user_id)
  pub verify-decoded :
      (c : Claims) (key : String) (now : ℕ)
      → c.issued_at / ticks * ticks ≤ now
      → now ≤ c.expires_at / ticks * ticks
      → lib.verify key c.issuer now (decoded c key) ≡ ret tt

module _ (lib : JwtLib) (config : JwtConfig) (laws : IsJwtLib lib) where
  -- The time until which a token of `made` is good.
  abbrev pub good_until : ℕ → ℕ
  good_until made = (made + config.expiration_seconds * ticks) / ticks * ticks

  -- With a library that does what jwt-cpp documents, a token verifies to its user id from
  -- the time at which it was made until the second in which it expires.
  pub verify_token-generate_token :
      (made now : ℕ) (user_id : String)
      → made ≤ now
      → now ≤ good_until made
      → verify_token lib config now (generate_token lib config made user_id) ≡ ret (value user_id)
  unfolding verify_token generate_token verified claim
  verify_token-generate_token made now user_id issued h =
      let c = claims lib config made user_id in
      ground (
        arith,
        laws.decode-sign c config.secret_key,
        laws.expires_at-decoded c config.secret_key,
        laws.verify-decoded c config.secret_key now (omega arith) h,
        laws.user_id-decoded c config.secret_key,
      )

  -- With such a library a token is refused as expired after the second in which it expires.
  pub verify_token-expired :
      (made now : ℕ) (user_id : String)
      → good_until made < now
      → verify_token lib config now (generate_token lib config made user_id)
        ≡ ret (unexpected token_expired)
  unfolding verify_token generate_token
  verify_token-expired made now user_id h =
      let c = claims lib config made user_id in
      ground
        (arith, laws.decode-sign c config.secret_key, laws.expires_at-decoded c config.secret_key)
