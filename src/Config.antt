-- ===== src/Config.antt =====
-- UserService/config/app_config.cc: the parsers and the constructor of AppConfig, over yaml-cpp. A
-- parser takes the settings so far and returns them with its own, or what it throws. `hw_conc` is
-- std::thread::hardware_concurrency().
pub mod Settings
pub mod Reading
pub mod Checks
pub mod Valid
use Prim.Native.String.{◌++◌}
use photon_commerce.Base.{
  ℕ, zero, String, Option, none, some, Bool, true, false, ◌||◌, List, [], ◌∷◌, ◌^◌, ◌-◌, ◌%◌, ltb,
  if◌then◌else◌, Expected, value, unexpected, Outcome, ret, thrown, std_exception,
}
use photon_commerce.Base.Int.{ℤ, pos, negsuc, le_zero, lt_zero, gt_ℕ}
use photon_commerce.Base.Decimal.{to_string}
use photon_commerce.Config.Settings.{
  RegisterConfig, ServerConfig, RpcLimitsConfig, ConsulConfig, JwtSettings, AppConfig, Failure,
  yaml_exception, runtime_error, YamlLib, ◌>>=◌, ◌>>◌, bind,
}
use text.Mathlib.Text.{◌==◌ as str_eq}
use photon_commerce.Config.Reading.{
  Parse, fail, throw_if, validate_port, validate_not_empty, yaml, child, require, string_at, int_at,
}

-- `static_cast<int>` of an unsigned number of 32 bits.
abbrev pub to_int : ℕ → ℤ
to_int n = if ltb n (2 ^ 31) then pos n else negsuc (2 ^ 32 - 1 - n)

-- The number of threads where 0 is configured.
unfoldable pub auto_cpu_cores : ℕ → ℤ
auto_cpu_cores hw_conc = if ltb 0 hw_conc then to_int hw_conc else pos 2

-- `n == 0 ? cores : n`.
unfoldable pub threads_or : ℤ → ℤ → ℤ
threads_or cores (pos zero) = cores
threads_or cores n = n

module _ (lib : YamlLib) (hw_conc : ℕ) where
  unfoldable pub parse_server_config : lib.Node → AppConfig → Parse AppConfig
  parse_server_config root_node config = do
    node ← child lib root_node "server" "Missing 'server' section"
    require lib node "name" "Config Error: Missing 'server.name'"
    require lib node "bind_ip" "Config Error: Missing 'server.bind_ip'"
    require lib node "port" "Config Error: Missing 'server.port'"
    require lib node "registry_ip" "Config Error: Missing 'server.registry_ip'"
    require lib node "listen_threads" "Config Error: Missing 'server.listen_threads'"
    require lib node "worker_threads" "Config Error: Missing 'server.worker_threads'"
    name ← string_at lib node "name"
    bind_ip ← string_at lib node "bind_ip"
    port ← int_at lib node "port"
    registry_ip ← string_at lib node "registry_ip"
    listen_threads ← int_at lib node "listen_threads"
    worker_threads ← int_at lib node "worker_threads"
    validate_not_empty name "Server Name"
    validate_not_empty bind_ip "Server Bind IP"
    validate_not_empty registry_ip "Server Registry IP"
    validate_port port "Server Port"
    throw_if (lt_zero listen_threads)
        ("Config Error: Invalid listen_threads " ++ to_string listen_threads)
    throw_if (lt_zero worker_threads)
        ("Config Error: Invalid worker_threads " ++ to_string worker_threads)
    value (record config {
      server_config = record {
        bind_ip = bind_ip;
        port = port;
        listen_threads = threads_or (auto_cpu_cores hw_conc) listen_threads;
        worker_threads = threads_or (auto_cpu_cores hw_conc) worker_threads;
        register_info = record config.server_config.register_info {
          service_name = name;
          ip = registry_ip;
          port = port;
          tags = "v1" ∷ "stable" ∷ [];
        };
      };
    })

  unfoldable pub parse_consul_config : lib.Node → AppConfig → Parse AppConfig
  parse_consul_config root_node config = do
    node ← child lib root_node "consul" "Missing 'consul' section"
    require lib node "host" "Config Error: Missing 'consul.host'"
    require lib node "port" "Config Error: Missing 'consul.port'"
    require lib node "check_interval" "Config Error: Missing 'consul.check_interval'"
    require lib node "check_timeout" "Config Error: Missing 'consul.check_timeout'"
    host ← string_at lib node "host"
    port ← int_at lib node "port"
    check_interval ← int_at lib node "check_interval"
    check_timeout ← int_at lib node "check_timeout"
    validate_not_empty host "Consul Host"
    validate_port port "Consul Port"
    throw_if (le_zero check_interval) "Config Error: check_interval must be positive"
    throw_if (le_zero check_timeout) "Config Error: check_timeout must be positive"
    value (record config {
      consul_config = record { ip = host; port = port };
      server_config = record config.server_config {
        register_info = record config.server_config.register_info {
          check_interval_seconds = check_interval;
          check_timeout_seconds = check_timeout;
        };
      };
    })

  unfoldable pub parse_rpc_limits_config : lib.Node → AppConfig → Parse AppConfig
  parse_rpc_limits_config root_node config = do
    node ← child lib root_node "rpc_limits" "Missing 'rpc_limits' section"
    require lib node "register" "Config Error: Missing 'rpc_limits.register'"
    require lib node "send_code" "Config Error: Missing 'rpc_limits.send_code'"
    require lib node "login_pw" "Config Error: Missing 'rpc_limits.login_pw'"
    require lib node "login_code" "Config Error: Missing 'rpc_limits.login_code'"
    require lib node "get_user_info" "Config Error: Missing 'rpc_limits.get_user_info'"
    reg ← int_at lib node "register"
    send_code ← int_at lib node "send_code"
    login_pw ← int_at lib node "login_pw"
    login_code ← int_at lib node "login_code"
    get_info ← int_at lib node "get_user_info"
    throw_if
        (le_zero reg
          || le_zero send_code
          || le_zero login_pw
          || le_zero login_code
          || le_zero get_info)
        "Config Error: All RPC limits must be positive integers"
    value (record config {
      rpc_limits_config = record {
        register_num = reg;
        send_code_num = send_code;
        login_pw_num = login_pw;
        login_code_num = login_code;
        get_user_info_num = get_info;
      };
    })

  unfoldable pub parse_redis_config : lib.Node → AppConfig → Parse AppConfig
  parse_redis_config root_node config = do
    redis_node ← child lib root_node "redis" "Missing 'redis' section"
    require lib redis_node "host" "Config Error: Missing 'redis.host'"
    require lib redis_node "port" "Config Error: Missing 'redis.port'"
    require lib redis_node "pool_size"
        "Config Error: Missing 'redis.pool_size'. Please update config.yaml"
    host ← string_at lib redis_node "host"
    port ← int_at lib redis_node "port"
    pool_size ← int_at lib redis_node "pool_size"
    validate_not_empty host "Redis Host"
    validate_port port "Redis Port"
    throw_if (le_zero pool_size || gt_ℕ pool_size 1000)
        ("Config Error: Invalid Redis pool_size " ++ to_string pool_size)
    value (record config {
      redis_config = record { host = host; port = to_string port; pool_size = pool_size };
    })

  unfoldable pub parse_db_config : lib.Node → AppConfig → Parse AppConfig
  parse_db_config root_node config = do
    db_node ← child lib root_node "postgresql" "Missing 'postgresql' section"
    require lib db_node "host" "Config Error: Missing 'postgresql.host'"
    require lib db_node "port" "Config Error: Missing 'postgresql.port'"
    require lib db_node "user" "Config Error: Missing 'postgresql.user'"
    require lib db_node "password" "Config Error: Missing 'postgresql.password'"
    require lib db_node "dbname" "Config Error: Missing 'postgresql.dbname'"
    require lib db_node "pool_size" "Config Error: Missing 'postgresql.pool_size'"
    host ← string_at lib db_node "host"
    port ← int_at lib db_node "port"
    user ← string_at lib db_node "user"
    pwd ← string_at lib db_node "password"
    dbname ← string_at lib db_node "dbname"
    pool_size ← int_at lib db_node "pool_size"
    validate_not_empty host "DB Host"
    validate_not_empty user "DB User"
    validate_not_empty dbname "DB Name"
    validate_port port "DB Port"
    throw_if (le_zero pool_size || gt_ℕ pool_size 1000)
        ("Config Error: Invalid DB pool_size " ++ to_string pool_size)
    value (record config {
      db_pool_config = record {
        conn_str =
            "postgresql://"
            ++ user
            ++ ":"
            ++ pwd
            ++ "@"
            ++ host
            ++ ":"
            ++ to_string port
            ++ "/"
            ++ dbname;
        pool_size = pool_size;
      };
    })

  unfoldable pub parse_jwt_config : lib.Node → AppConfig → Parse AppConfig
  parse_jwt_config root_node config = do
    node ← child lib root_node "jwt" "Missing 'jwt' section"
    require lib node "secret_key" "Config Error: Missing 'jwt.secret_key'"
    require lib node "issuer" "Config Error: Missing 'jwt.issuer'"
    require lib node "expiration_seconds" "Config Error: Missing 'jwt.expiration_seconds'"
    secret ← string_at lib node "secret_key"
    issuer ← string_at lib node "issuer"
    expire ← int_at lib node "expiration_seconds"
    validate_not_empty secret "JWT Secret Key"
    validate_not_empty issuer "JWT Issuer"
    throw_if (le_zero expire) "Config Error: JWT expiration_seconds must be positive"
    value (record config {
      jwt_config = record { secret_key = secret; issuer = issuer; expiration_seconds = expire };
    })

  -- The `try` block of the constructor, from the members as they are at its start.
  unfoldable pub parse_all : AppConfig → String → Parse AppConfig
  parse_all members config_path = do
    root_node ← yaml lib (lib.load_file config_path)
    c1 ← parse_server_config root_node members
    c2 ← parse_consul_config root_node c1
    c3 ← parse_rpc_limits_config root_node c2
    c4 ← parse_redis_config root_node c3
    c5 ← parse_db_config root_node c4
    parse_jwt_config root_node c5

  abbrev caught : Parse AppConfig → Outcome AppConfig
  caught (value config) = ret config
  caught (unexpected (yaml_exception what)) = thrown (std_exception "Configuration load failed")
  caught (unexpected (runtime_error what)) = thrown (std_exception what)

  unfoldable pub load_config : AppConfig → String → Outcome AppConfig
  load_config members config_path = caught (parse_all members config_path)
