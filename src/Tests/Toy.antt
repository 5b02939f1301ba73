-- ===== src/Tests/Toy.antt =====
-- A program in memory: a cache, a user database, and small stand-ins for the other libraries.
use Prim.Native.String.{◌++◌}
use photon_commerce.Base.{
  String, Option, none, some, [], ◌∷◌, refl, if◌then◌else◌, value, ret, pure,
}
use photon_commerce.Base.Int.{pos}
use photon_commerce.Domain.User.{User}
use photon_commerce.Domain.Repositories.{UserRepository, VerificationCodeRepository}
use photon_commerce.Domain.Stores.{CodeStore, UserStore}
use photon_commerce.Repository.Cache.{Cache, IsCache}
use photon_commerce.Repository.Codes.{code_repository}
use photon_commerce.Repository.Codes.Store.{code_repository-store}
use photon_commerce.Service.Utilities.{JwtGenerator, SecurityUtil, IsSecurityUtil}
use photon_commerce.Service.Auth.{AuthService}
use photon_commerce.Service.BasicUser.{BasicUserService}
use photon_commerce.Utils.Security.{
  CryptoLib, IsCryptoLib, security_util, security_util-IsSecurityUtil,
}
use text.Mathlib.Text.{◌==◌ as str_eq}
use text.Mathlib.TextEquality.{eq_iff}
use text.Mathlib.TextPositions.{eq_refl}

pub record World : Type 0 where
  pub entries : String → Option String
  pub by_id : String → Option User
  pub by_phone : String → Option User

abbrev pub toy_cache : Cache World
toy_cache = record {
  set_expiring = λ k v expiry s.
      (ret (value tt), record s { entries = λ j. if str_eq k j then some v else s.entries j });
  get = λ k s. (ret (value (s.entries k)), s);
}

abbrev pub toy_cache_works : IsCache toy_cache
toy_cache_works = record {
  IsUp = λ s. Unit;
  entries = λ s. s.entries;
  set-entries = λ s k v expiry up. (refl, tt, λ j. refl);
  get-entries = λ s k up. (refl, tt, λ j. refl);
}

abbrev pub toy_codes : VerificationCodeRepository World
toy_codes = code_repository toy_cache

abbrev pub toy_store : CodeStore toy_codes
toy_store = code_repository-store toy_cache toy_cache_works

abbrev pub toy_users : UserRepository World
toy_users = record {
  create_user = λ u s. (
    ret (value tt),
    record s {
      by_id = λ j. if str_eq u.id j then some u else s.by_id j;
      by_phone = λ j. if str_eq u.phone_number j then some u else s.by_phone j;
    },
  );
  get_user_by_id = λ id s. (ret (value (s.by_id id)), s);
  get_user_by_phone_number = λ phone s. (ret (value (s.by_phone phone)), s);
}

abbrev pub toy_users-store : UserStore toy_users
toy_users-store = record {
  IsUp = λ s. Unit;
  create-get = λ s u up fits e. (
    u,
    rw (eq_refl u.id) refl,
    record { id = refl; phone_number = refl; password_hash = refl; salt = refl },
  );
}

abbrev pub toy_crypto : CryptoLib World
toy_crypto = record {
  generate_block = λ n. pure (n ∷ []);
  hex = λ bytes. "salt";
  sha256_hex = λ text. "#" ++ text;
  verify_bufs_equal = λ a b n. str_eq a b;
}

pub toy_crypto-laws : IsCryptoLib toy_crypto
toy_crypto-laws = record { verify_bufs_equal_iff = λ a b same. eq_iff a b }

abbrev pub toy_security : SecurityUtil World
toy_security = security_util toy_crypto

pub toy_security-laws : IsSecurityUtil toy_security
toy_security-laws = security_util-IsSecurityUtil toy_crypto toy_crypto-laws

abbrev pub toy_jwt : JwtGenerator World
toy_jwt = record { generate_token = λ id. pure ("token:" ++ id) }

abbrev pub toy_auth : AuthService World
toy_auth = record {
  verification_code_generator = record { generate = λ n. pure "123456" };
  verification_code_repository = toy_codes;
  user_repository = toy_users;
  jwt_util = toy_jwt;
  security_util = toy_security;
}

abbrev pub toy_basic : BasicUserService World
toy_basic = record {
  user_repository = toy_users;
  code_repository = toy_codes;
  id_generator = record { generate_uuid = pure "u1" };
  security_util = toy_security;
}

-- One user, whose password is "pw".
abbrev pub alice : User
alice = record {
  id = "a";
  phone_number = "555";
  password_hash = "#pwsalt";
  salt = "salt";
  username = some "alice";
  email = none;
  avatar_url = none;
  status = record { underlying = pos 0 };
  created_at = pos 0;
  deleted_at = none;
}

-- A code for a login of 555, and one for a registration of 777.
abbrev pub toy_world : World
toy_world = record {
  entries = λ k.
      if str_eq k "verify_code:login:555"
      then some "111111"
      else if str_eq k "verify_code:register:777"
      then some "222222"
      else none;
  by_id = λ id. if str_eq id "a" then some alice else none;
  by_phone = λ phone. if str_eq phone "555" then some alice else none;
}
