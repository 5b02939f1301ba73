-- ===== src/Config/Valid.antt =====
-- What a configuration that was loaded is good for.
use photon_commerce.Base.{ℕ, String, ◌≡◌, refl, ◌≢◌, inl, inr, subst, ◌<◌, ◌^◌, arith, ret}
use photon_commerce.Base.Int.{ℤ}
use photon_commerce.Base.Decimal.{to_string}
use photon_commerce.Redis.{RedisConfig}
use photon_commerce.Config.Settings.{
  RegisterConfig, ServerConfig, RpcLimitsConfig, ConsulConfig, JwtSettings, AppConfig, YamlLib,
}
use photon_commerce.Config.{
  parse_server_config, parse_consul_config, parse_rpc_limits_config, parse_redis_config,
  parse_db_config, parse_jwt_config, parse_all, load_config,
}
use photon_commerce.Config.Checks.{
  IsUpTo, IsPositive, IsPort, Gives, Gives-bind, Gives-skip, Gives-value, throw_if-passed,
  validate_port-passed, validate_not_empty-passed, IsPositive-of, IsUpTo-of, all_false,
  auto_cpu_cores-IsPositive, threads_or-IsPositive, Expected-cases, Failure-cases,
}

pub record IsServer (c : ServerConfig) : Type 0 where
  pub bind_ip : c.bind_ip ≢ ""
  pub port : IsPort c.port
  pub listen_threads : IsPositive c.listen_threads
  pub worker_threads : IsPositive c.worker_threads
  pub service_name : c.register_info.service_name ≢ ""
  pub service_ip : c.register_info.ip ≢ ""
  pub service_port : c.register_info.port ≡ c.port

pub record IsConsul (r : RegisterConfig) (c : ConsulConfig) : Type 0 where
  pub ip : c.ip ≢ ""
  pub port : IsPort c.port
  pub check_interval : IsPositive r.check_interval_seconds
  pub check_timeout : IsPositive r.check_timeout_seconds

pub record IsRpcLimits (c : RpcLimitsConfig) : Type 0 where
  pub register_num : IsPositive c.register_num
  pub send_code_num : IsPositive c.send_code_num
  pub login_pw_num : IsPositive c.login_pw_num
  pub login_code_num : IsPositive c.login_code_num
  pub get_user_info_num : IsPositive c.get_user_info_num

pub record IsRedis (c : RedisConfig) : Type 0 where
  pub host : c.host ≢ ""
  pub port : (p : ℤ) × IsPort p × (c.port ≡ to_string p)
  pub pool_size : IsUpTo 1000 c.pool_size

pub record IsJwt (c : JwtSettings) : Type 0 where
  pub secret_key : c.secret_key ≢ ""
  pub issuer : c.issuer ≢ ""
  pub expiration_seconds : IsPositive c.expiration_seconds

pub record IsValid (c : AppConfig) : Type 0 where
  pub server : IsServer c.server_config
  pub consul : IsConsul c.server_config.register_info c.consul_config
  pub rpc_limits : IsRpcLimits c.rpc_limits_config
  pub redis : IsRedis c.redis_config
  pub db_pool_size : IsUpTo 1000 c.db_pool_config.pool_size
  pub jwt : IsJwt c.jwt_config

module _ (lib : YamlLib) (hw_conc : ℕ) where
  parse_server_config-IsServer :
      (root : lib.Node) (c : AppConfig)
      → hw_conc < 2 ^ 31
      → Gives (λ d. IsServer d.server_config) (parse_server_config lib hw_conc root c)
  unfolding parse_server_config
  parse_server_config-IsServer root c fits =
      let cores = auto_cpu_cores-IsPositive hw_conc fits in
      Gives-skip _ λ node. Gives-skip _ λ _. Gives-skip _ λ _. Gives-skip _ λ _. Gives-skip _ λ _.
        Gives-skip _ λ _. Gives-skip _ λ _. Gives-skip _ λ name. Gives-skip _ λ bind_ip.
          Gives-skip _ λ port. Gives-skip _ λ registry_ip. Gives-skip _ λ listen_threads.
            Gives-skip _ λ worker_threads. Gives-bind _ λ _ h1. Gives-bind _ λ _ h2.
              Gives-bind _ λ _ h3. Gives-bind _ λ _ h4. Gives-bind _ λ _ h5. Gives-bind _ λ _ h6.
                Gives-value _ (record {
                  bind_ip = validate_not_empty-passed bind_ip _ h2;
                  port = validate_port-passed port _ h4;
                  listen_threads =
                      threads_or-IsPositive _ listen_threads cores (throw_if-passed _ _ h5);
                  worker_threads =
                      threads_or-IsPositive _ worker_threads cores (throw_if-passed _ _ h6);
                  service_name = validate_not_empty-passed name _ h1;
                  service_ip = validate_not_empty-passed registry_ip _ h3;
                  service_port = refl;
                })

  parse_consul_config-IsConsul :
      (root : lib.Node) (c : AppConfig)
      → IsServer c.server_config
      → Gives
          (λ d. IsServer d.server_config × IsConsul d.server_config.register_info d.consul_config)
          (parse_consul_config lib hw_conc root c)
  unfolding parse_consul_config
  parse_consul_config-IsConsul root c h = Gives-skip _ λ node. Gives-skip _ λ _. Gives-skip _ λ _.
      Gives-skip _ λ _. Gives-skip _ λ _. Gives-skip _ λ host. Gives-skip _ λ port.
        Gives-skip _ λ interval. Gives-skip _ λ timeout. Gives-bind _ λ _ h1. Gives-bind _ λ _ h2.
          Gives-bind _ λ _ h3. Gives-bind _ λ _ h4. Gives-value _ (
            record {
              bind_ip = h.bind_ip;
              port = h.port;
              listen_threads = h.listen_threads;
              worker_threads = h.worker_threads;
              service_name = h.service_name;
              service_ip = h.service_ip;
              service_port = h.service_port;
            },
            record {
              ip = validate_not_empty-passed host _ h1;
              port = validate_port-passed port _ h2;
              check_interval = IsPositive-of interval (throw_if-passed _ _ h3);
              check_timeout = IsPositive-of timeout (throw_if-passed _ _ h4);
            },
          )

  parse_rpc_limits_config-IsRpcLimits :
      (root : lib.Node) (c : AppConfig)
      → Gives
          (λ d.
            IsRpcLimits d.rpc_limits_config
            × (d ≡ record c { rpc_limits_config = d.rpc_limits_config }))
          (parse_rpc_limits_config lib hw_conc root c)
  unfolding parse_rpc_limits_config
  parse_rpc_limits_config-IsRpcLimits root c = Gives-skip _ λ node. Gives-skip _ λ _.
      Gives-skip _ λ _. Gives-skip _ λ _. Gives-skip _ λ _. Gives-skip _ λ _. Gives-skip _ λ reg.
        Gives-skip _ λ send_code. Gives-skip _ λ login_pw. Gives-skip _ λ login_code.
          Gives-skip _ λ get_info. Gives-bind _ λ _ h1.
            let (a, b, c', d, e) = all_false _ _ _ _ _ (throw_if-passed _ _ h1) in
            Gives-value _ (
              record {
                register_num = IsPositive-of reg a;
                send_code_num = IsPositive-of send_code b;
                login_pw_num = IsPositive-of login_pw c';
                login_code_num = IsPositive-of login_code d;
                get_user_info_num = IsPositive-of get_info e;
              },
              refl,
            )

  parse_redis_config-IsRedis :
      (root : lib.Node) (c : AppConfig)
      → Gives
          (λ d. IsRedis d.redis_config × (d ≡ record c { redis_config = d.redis_config }))
          (parse_redis_config lib hw_conc root c)
  unfolding parse_redis_config
  parse_redis_config-IsRedis root c = Gives-skip _ λ node. Gives-skip _ λ _. Gives-skip _ λ _.
      Gives-skip _ λ _. Gives-skip _ λ host. Gives-skip _ λ port. Gives-skip _ λ pool_size.
        Gives-bind _ λ _ h1. Gives-bind _ λ _ h2. Gives-bind _ λ _ h3. Gives-value _ (
          record {
            host = validate_not_empty-passed host _ h1;
            port = (port, validate_port-passed port _ h2, refl);
            pool_size = IsUpTo-of pool_size (throw_if-passed _ _ h3);
          },
          refl,
        )

  parse_db_config-IsUpTo :
      (root : lib.Node) (c : AppConfig)
      → Gives
          (λ d.
            IsUpTo 1000 d.db_pool_config.pool_size
            × (d ≡ record c { db_pool_config = d.db_pool_config }))
          (parse_db_config lib hw_conc root c)
  unfolding parse_db_config
  parse_db_config-IsUpTo root c = Gives-skip _ λ node. Gives-skip _ λ _. Gives-skip _ λ _.
      Gives-skip _ λ _. Gives-skip _ λ _. Gives-skip _ λ _. Gives-skip _ λ _. Gives-skip _ λ host.
        Gives-skip _ λ port. Gives-skip _ λ user. Gives-skip _ λ pwd. Gives-skip _ λ dbname.
          Gives-skip _ λ pool_size. Gives-skip _ λ _. Gives-skip _ λ _. Gives-skip _ λ _.
            Gives-skip _ λ _.
              Gives-bind _ λ _ h. Gives-value _ (IsUpTo-of pool_size (throw_if-passed _ _ h), refl)

  parse_jwt_config-IsJwt :
      (root : lib.Node) (c : AppConfig)
      → Gives
          (λ d. IsJwt d.jwt_config × (d ≡ record c { jwt_config = d.jwt_config }))
          (parse_jwt_config lib hw_conc root c)
  unfolding parse_jwt_config
  parse_jwt_config-IsJwt root c = Gives-skip _ λ node. Gives-skip _ λ _. Gives-skip _ λ _.
      Gives-skip _ λ _. Gives-skip _ λ secret. Gives-skip _ λ issuer. Gives-skip _ λ expire.
        Gives-bind _ λ _ h1. Gives-bind _ λ _ h2. Gives-bind _ λ _ h3. Gives-value _ (
          record {
            secret_key = validate_not_empty-passed secret _ h1;
            issuer = validate_not_empty-passed issuer _ h2;
            expiration_seconds = IsPositive-of expire (throw_if-passed _ _ h3);
          },
          refl,
        )

  parse_all-IsValid :
      (members : AppConfig) (path : String)
      → hw_conc < 2 ^ 31
      → Gives IsValid (parse_all lib hw_conc members path)
  unfolding parse_all
  parse_all-IsValid members path fits = Gives-skip _ λ root. Gives-bind _ λ c1 e1.
      Gives-bind _ λ c2 e2. Gives-bind _ λ c3 e3. Gives-bind _ λ c4 e4. Gives-bind _ λ c5 e5.
        record {
          given = λ c6 e6.
              let server = (parse_server_config-IsServer root members fits).given c1 e1 in
              let (served, consul) = (parse_consul_config-IsConsul root c1 server).given c2 e2 in
              let (rpc, r3) = (parse_rpc_limits_config-IsRpcLimits root c2).given c3 e3 in
              let (redis, r4) = (parse_redis_config-IsRedis root c3).given c4 e4 in
              let (db, r5) = (parse_db_config-IsUpTo root c4).given c5 e5 in
              let (jwt, r6) = (parse_jwt_config-IsJwt root c5).given c6 e6 in
              record {
                server = rw (r6, r5, r4, r3) served;
                consul = rw (r6, r5, r4, r3) consul;
                rpc_limits = rw (r6, r5, r4) rpc;
                redis = rw (r6, r5) redis;
                db_pool_size = rw r6 db;
                jwt = jwt;
              };
        }

  pub load_config-IsValid :
      (members : AppConfig) (path : String) (c : AppConfig)
      → hw_conc < 2 ^ 31
      → load_config lib hw_conc members path ≡ ret c
      → IsValid c
  unfolding load_config
  load_config-IsValid members path c fits h =
      elim (Expected-cases (parse_all lib hw_conc members path)) [
        | inl (d, e) ↦
            let same : d ≡ c = ground (arith, e) in
            subst IsValid same ((parse_all-IsValid members path fits).given d e)
        | inr (f, e) ↦ elim (Failure-cases f) [
          | inl (what, e') ↦ ground (arith, e, e')
          | inr (what, e') ↦ ground (arith, e, e')
        ]
      ]
