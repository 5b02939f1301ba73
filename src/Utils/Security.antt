-- ===== src/Utils/Security.antt =====
-- UserService/utils/src/security_util.cc, over the functions of Crypto++ that it calls.
use Prim.Native.String.{◌++◌, len}
use photon_commerce.Base.{
  ℕ, String, Bool, true, false, not, List, ◌≡◌, ◌↔◌, ◌==◌, ap, arith, if◌then◌else◌, Await, pure,
  ◌>>=◌,
}
use photon_commerce.Service.Utilities.{SecurityUtil, IsSecurityUtil}

-- `generate_block n` is AutoSeededRandomPool::GenerateBlock, `hex` HexEncoder, `sha256_hex` SHA256
-- through HexEncoder, and `verify_bufs_equal` VerifyBufsEqual over a number of bytes.
pub record CryptoLib (S : Type 0) : Type 0 where
  pub generate_block : ℕ → Await S (List ℕ)
  pub hex : List ℕ → String
  pub sha256_hex : String → String
  pub verify_bufs_equal : String → String → ℕ → Bool

-- VerifyBufsEqual compares the buffers over the bytes given, here all of both.
pub record IsCryptoLib {S : Type 0} (lib : CryptoLib S) : Type 0 where
  pub verify_bufs_equal_iff :
      (a b : String) → len a ≡ len b → (lib.verify_bufs_equal a b (len b) ≡ true) ↔ (a ≡ b)

module _ {S : Type 0} (lib : CryptoLib S) where
  unfoldable pub generate_salt : Await S String
  generate_salt = do pure (lib.hex (← lib.generate_block 16))

  unfoldable pub hash_password : String → String → String
  hash_password raw_password salt = lib.sha256_hex (raw_password ++ salt)

  unfoldable pub verify_password : String → String → String → Bool
  verify_password raw_password salt stored_hash =
      let calculated = hash_password raw_password salt in
      if not (len calculated == len stored_hash)
      then false
      else lib.verify_bufs_equal calculated stored_hash (len stored_hash)

  abbrev pub security_util : SecurityUtil S
  security_util = record {
    generate_salt = generate_salt;
    hash_password = hash_password;
    verify_password = verify_password;
  }

  -- If VerifyBufsEqual compares all the bytes that it is given, a password is accepted exactly
  -- when its salted hash is the stored one.
  pub verify_password_iff :
      (raw_password salt stored_hash : String)
      → IsCryptoLib lib
      → (verify_password raw_password salt stored_hash ≡ true)
        ↔ (hash_password raw_password salt ≡ stored_hash)
  unfolding verify_password
  verify_password_iff raw_password salt stored_hash laws =
      ground
        (arith, laws.verify_bufs_equal_iff (hash_password raw_password salt) stored_hash, ap len)

  pub security_util-IsSecurityUtil : IsCryptoLib lib → IsSecurityUtil security_util
  security_util-IsSecurityUtil laws = record {
    verify-hash =
        λ given password salt. verify_password_iff given salt (hash_password password salt) laws;
  }
