-- ===== src/Tests/Settings.antt =====
-- A configuration file that loads.
use photon_commerce.Base.{
  ℕ, String, Option, none, some, [], ◌∷◌, ◌≡◌, refl, if◌then◌else◌, Expected, value, unexpected,
  ret,
}
use photon_commerce.Base.Int.{ℤ, pos}
use photon_commerce.Base.Decimal.{to_string}
use photon_commerce.Config.{
  load_config, parse_all, parse_server_config, parse_consul_config, parse_rpc_limits_config,
  parse_redis_config, parse_db_config, parse_jwt_config, auto_cpu_cores, threads_or,
}
use photon_commerce.Config.Reading.{
  read, child, read, string_at, int_at, yaml, validate_port, validate_not_empty, throw_if,
}
use photon_commerce.Config.Settings.{AppConfig, YamlLib, bind}
use package.text.Mathlib.Text.{◌==◌ as str_eq}

pub data Node : Type 0 where
  scalar : String → Node
  number : ℕ → Node
  entry : String → Node → Node → Node
  end : Node

abbrev node_at : Node → String → Option Node
node_at (scalar _) k = none
node_at (number _) k = none
node_at end k = none
node_at (entry j v rest) k = if str_eq j k then some v else node_at rest k

abbrev node_string : Node → Expected String String
node_string (scalar t) = value t
node_string (number n) = value (to_string (pos n))
node_string end = unexpected "bad conversion"
node_string (entry _ _ _) = unexpected "bad conversion"

abbrev node_int : Node → Expected ℤ String
node_int (number n) = value (pos n)
node_int (scalar t) = unexpected "bad conversion"
node_int end = unexpected "bad conversion"
node_int (entry _ _ _) = unexpected "bad conversion"

abbrev file : Node
file =
    entry "server"
      (entry "name" (scalar "user-service") (
        entry "bind_ip" (scalar "0.0.0.0") (
          entry "port" (number 50051) (
            entry "registry_ip" (scalar "10.0.0.2")
              (entry "listen_threads" (number 0) (entry "worker_threads" (number 4) end))))))
      (entry "consul"
        (entry "host" (scalar "10.0.0.1") (
          entry "port" (number 8500)
            (entry "check_interval" (number 10) (entry "check_timeout" (number 2) end))))
        (entry "rpc_limits"
          (entry "register" (number 10) (
            entry "send_code" (number 10) (
              entry "login_pw" (number 10)
                (entry "login_code" (number 10) (entry "get_user_info" (number 10) end)))))
          (entry "redis"
            (entry "host" (scalar "localhost")
              (entry "port" (number 6379) (entry "pool_size" (number 4) end)))
            (entry "postgresql"
              (entry "host" (scalar "localhost") (
                entry "port" (number 5432) (
                  entry "user" (scalar "photon") (
                    entry "password" (scalar "")
                      (entry "dbname" (scalar "users") (entry "pool_size" (number 8) end))))))
              (entry "jwt"
                (entry "secret_key" (scalar "secret")
                  (entry "issuer" (scalar "photon") (entry "expiration_seconds" (number 3600) end)))
                end)))))

abbrev pub toy_yaml : YamlLib
toy_yaml = record {
  Node = Node;
  load_file = λ path. value file;
  subscript = λ node key. value (node_at node key);
  as_string = node_string;
  as_int = node_int;
}

abbrev pub members : AppConfig
members = record {
  server_config = record {
    bind_ip = "";
    port = pos 0;
    listen_threads = pos 0;
    worker_threads = pos 0;
    register_info = record {
      service_name = "";
      ip = "";
      port = pos 0;
      tags = [];
      check_interval_seconds = pos 10;
      check_timeout_seconds = pos 2;
    };
  };
  rpc_limits_config = record {
    register_num = pos 0;
    send_code_num = pos 0;
    login_pw_num = pos 0;
    login_code_num = pos 0;
    get_user_info_num = pos 0;
  };
  consul_config = record { ip = ""; port = pos 0 };
  redis_config = record { host = ""; port = ""; pool_size = pos 0 };
  db_pool_config = record { conn_str = ""; pool_size = pos 0 };
  jwt_config = record { secret_key = ""; issuer = ""; expiration_seconds = pos 0 };
}

abbrev pub loaded : AppConfig
loaded = record {
  server_config = record {
    bind_ip = "0.0.0.0";
    port = pos 50051;
    listen_threads = pos 8;
    worker_threads = pos 4;
    register_info = record {
      service_name = "user-service";
      ip = "10.0.0.2";
      port = pos 50051;
      tags = "v1" ∷ "stable" ∷ [];
      check_interval_seconds = pos 10;
      check_timeout_seconds = pos 2;
    };
  };
  rpc_limits_config = record {
    register_num = pos 10;
    send_code_num = pos 10;
    login_pw_num = pos 10;
    login_code_num = pos 10;
    get_user_info_num = pos 10;
  };
  consul_config = record { ip = "10.0.0.1"; port = pos 8500 };
  redis_config = record { host = "localhost"; port = "6379"; pool_size = pos 4 };
  db_pool_config = record {
    conn_str = "postgresql://photon:@localhost:5432/users";
    pool_size = pos 8;
  };
  jwt_config = record { secret_key = "secret"; issuer = "photon"; expiration_seconds = pos 3600 };
}

pub load_run : load_config toy_yaml 8 members "config.yaml" ≡ ret loaded
unfolding load_config parse_all parse_server_config parse_consul_config parse_rpc_limits_config
    parse_redis_config parse_db_config parse_jwt_config child read string_at int_at yaml
    auto_cpu_cores threads_or validate_port validate_not_empty throw_if bind to_string
load_run = refl
