-- ===== src/Config/Settings.antt =====
-- The settings that UserService/config/app_config.cc fills, and the part of yaml-cpp it reads.
use photon_commerce.Base.{String, Option, List, Expected, value, unexpected}
use photon_commerce.Base.Int.{ℤ}
use photon_commerce.Redis.{RedisConfig}
use photon_commerce.Postgres.Pool.{DbPoolConfig}

pub record RegisterConfig : Type 0 where
  pub service_name : String
  pub ip : String
  pub port : ℤ
  pub tags : List String
  pub check_interval_seconds : ℤ
  pub check_timeout_seconds : ℤ

pub record ServerConfig : Type 0 where
  pub bind_ip : String
  pub port : ℤ
  pub listen_threads : ℤ
  pub worker_threads : ℤ
  pub register_info : RegisterConfig

pub record RpcLimitsConfig : Type 0 where
  pub register_num : ℤ
  pub send_code_num : ℤ
  pub login_pw_num : ℤ
  pub login_code_num : ℤ
  pub get_user_info_num : ℤ

pub record ConsulConfig : Type 0 where
  pub ip : String
  pub port : ℤ

pub record JwtSettings : Type 0 where
  pub secret_key : String
  pub issuer : String
  pub expiration_seconds : ℤ

pub record AppConfig : Type 0 where
  pub server_config : ServerConfig
  pub rpc_limits_config : RpcLimitsConfig
  pub consul_config : ConsulConfig
  pub redis_config : RedisConfig
  pub db_pool_config : DbPoolConfig
  pub jwt_config : JwtSettings

-- What a parser throws: an exception of yaml-cpp, or a std::runtime_error of its own.
pub data Failure : Type 0 where
  yaml_exception runtime_error : String → Failure

-- `subscript` is `node[key]`, none where it is no defined node; the text of a failure is the
-- `what()` of the YAML::Exception that is thrown.
pub record YamlLib : Type 1 where
  pub Node : Type 0
  pub load_file : String → Expected Node String
  pub subscript : Node → String → Expected (Option Node) String
  pub as_string : Node → Expected String String
  pub as_int : Node → Expected ℤ String

unfoldable pub bind {ℓ κ} :
    {A : Type ℓ} {B : Type κ} → Expected A Failure → (A → Expected B Failure) → Expected B Failure
bind (value a) f = f a
bind (unexpected e) f = unexpected e

infixl 5 ◌>>=◌ ◌>>◌
abbrev pub ◌>>=◌ {ℓ κ} :
    {A : Type ℓ} {B : Type κ} → Expected A Failure → (A → Expected B Failure) → Expected B Failure
m >>= f = bind m f

abbrev pub ◌>>◌ {ℓ} :
    {B : Type ℓ} → Expected (Unit {0}) Failure → Expected B Failure → Expected B Failure
m >> k = bind m (λ _. k)
