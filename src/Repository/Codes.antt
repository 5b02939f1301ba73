-- ===== src/Repository/Codes.antt =====
-- UserService/infrastructure/domain_implement/src/verification_code_repository.cc.
pub mod Keys
pub mod Store
use Prim.Native.String.{◌++◌}
use photon_commerce.Base.{
  ℕ, String, Option, none, some, Expected, value, unexpected, std_exception, Outcome, ret, thrown,
  Await, pure, throw, ◌>>=◌, ◌>>◌, handle,
}
use photon_commerce.Base.Int.{pos}
use photon_commerce.Domain.Repositories.{VerificationCodeRepository}
use photon_commerce.Redis.{RedisError}
use photon_commerce.Repository.Cache.{Cache}
use photon_commerce.Service.Model.{
  CodeUsage, unknown, user_register, user_login, reset_password, out_of_range,
}

unfoldable pub key_prefix : CodeUsage → Outcome String
key_prefix user_register = ret "verify_code:register:"
key_prefix user_login = ret "verify_code:login:"
key_prefix reset_password = ret "verify_code:reset_pwd:"
key_prefix unknown = thrown (std_exception "Unknown CodeUsage")
key_prefix (out_of_range n) = thrown (std_exception "Unknown CodeUsage")

module _ {S : Type 0} (cache : Cache S) where
  -- The part of `SaveCode` behind `try`: std::invalid_argument ends it quietly. The error of the
  -- cache is only logged.
  save_under : Outcome String → String → String → ℕ → Await S (Unit {0})
  save_under (ret prefix) target code expiry = do
    result ← cache.set_expiring (prefix ++ target) code (pos expiry)
    pure tt
  save_under (thrown e) target code expiry = pure tt

  unfoldable pub save_code : CodeUsage → String → String → ℕ → Await S (Unit {0})
  unfolding save_under key_prefix
  save_code usage target code expiry = save_under (key_prefix usage) target code expiry

  abbrev found : Expected (Option String) RedisError → Option String
  found (unexpected e) = none
  found (value o) = o

  get_under : Outcome String → String → Await S (Option String)
  get_under (ret prefix) target = do pure (found (← cache.get (prefix ++ target)))
  get_under (thrown e) target = pure none

  unfoldable pub get_code : CodeUsage → String → Await S (Option String)
  unfolding get_under key_prefix
  get_code usage target = get_under (key_prefix usage) target

  abbrev pub code_repository : VerificationCodeRepository S
  code_repository = record { save_code = save_code; get_code = get_code }
