-- ===== src/Tests/StartUp.antt =====
-- The whole program in a world where every server answers.
use mathlib.Core.List.{◌++◌}
use photon_commerce.Base.{
  Option, none, some, true, false, [], ◌∷◌, ◌≡◌, ◌≢◌, refl, length, value, Exception, std_exception,
  Outcome, ret, thrown, pure,
}
use photon_commerce.Adapter.Manager.{make_manager, start, start_rounds}
use photon_commerce.Base.Int.{pos, negsuc}
use photon_commerce.Config.{load_config}
use photon_commerce.Config.Settings.{AppConfig}
use photon_commerce.Postgres.Pool.{make_pool}
use photon_commerce.Postgres.Pool as Pool
use photon_commerce.Redis.{
  RedisLib, simple_string, make_client, connections_below, start_all, ping_all, ping, pong,
  ping_checked, extract_result, extract_node,
}
use photon_commerce.Redis as Redis
use photon_commerce.Server.Application.{
  Application, make_application, init, serve, run, exited, main,
}
use photon_commerce.Server.Application.StartUp.{make, closing, run-initialised, main-thrown}
use photon_commerce.Server.Lifecycle.{
  Effect, listened, seeded, worker_started, waits, InWait, in_wait, server_shut_down, cq_shut_down,
  worker_joined, UserServiceServer, make_server, server_address, shutdown, start_server,
  run_started, seed, note_seeded, start_listening_thread, start_workers, wait,
}
use photon_commerce.Server.Lifecycle as Lifecycle
use photon_commerce.Server.Seeding.{keep, start_made, seed_call_data}
use photon_commerce.Server.Seeding.Limits.{new_queue}
use photon_commerce.Tests.Settings.{toy_yaml, members, loaded, load_run}
use photon_commerce.Server.ThreadPool.{IoContext, AsioThreadPool, make_thread_pool, emplace_threads}
use photon_commerce.Server.ThreadPool as ThreadPool
use photon_commerce.Tests.Program.{toy_context}

-- Servers that answer every PING, and every attempt to connect.
abbrev toy_redis : RedisLib (Unit {0})
toy_redis = record {
  run = λ conn w. w;
  exec = λ conn request. pure (value (record { data_type = simple_string; text = "PONG" }));
  exec_ignore = λ conn request. pure tt;
}

abbrev App : Type 0
App = Application toy_context 8 toy_yaml toy_redis (pure 9)

abbrev app : App
app = record {
  redis_client = 0 ∷ 1 ∷ 2 ∷ 3 ∷ [];
  pool_size = 8;
  idle = [];
  thread_pool = make_thread_pool toy_context 8 false;
  server =
      make_server loaded.server_config loaded.rpc_limits_config (some 2) (some 3) (some 4)
        (new_queue 100);
  world = tt;
}

app_made :
    make toy_context 8 toy_yaml toy_redis
      (pure 9)
      members
      "config.yaml"
      false
      (some 2)
      (some 3)
      (some 4)
      (new_queue 100)
      tt
    ≡ ret app
unfolding make_application make_client connections_below make_pool
app_made = rw load_run refl

abbrev at_end : Option (Outcome InWait × App) → App
at_end none = app
at_end (some out) = out.1

abbrev ran : App
ran = at_end (run toy_context 8 toy_yaml toy_redis (pure 9) 5 (some 6) app)

app_runs : run toy_context 8 toy_yaml toy_redis (pure 9) 5 (some 6) app ≡ some (ret in_wait, ran)
unfolding run init serve ThreadPool.run emplace_threads Redis.init start_all ping_all ping pong
    ping_checked extract_result extract_node Pool.init Lifecycle.run start_server run_started seed
    seed_call_data make_manager start_made keep start start_rounds note_seeded
    start_listening_thread start_workers wait
app_runs = refl

acted : ran.server.effects ≢ []
unfolding run init serve ThreadPool.run emplace_threads Redis.init start_all ping_all ping pong
    ping_checked extract_result extract_node Pool.init Lifecycle.run start_server run_started seed
    seed_call_data make_manager start_made keep start start_rounds note_seeded
    start_listening_thread start_workers wait
acted e = cc

run-initialised_example :
    (c : AppConfig) × (load_config toy_yaml 8 members "config.yaml" ≡ ret c)
    × ((Redis.init toy_redis app.redis_client tt).0 ≡ ret tt)
    × (pos (length ran.idle) ≡ c.db_pool_config.pool_size)
    × (ran.thread_pool.work_guard ≡ true)
run-initialised_example =
    run-initialised toy_context 8 toy_yaml toy_redis (pure 9) members "config.yaml" false (some 2)
      (some 3) (some 4) (new_queue 100) tt 5 (some 6) app_made app_runs acted

-- Without the utility for tokens, the first manager cannot be made, and the run throws.
abbrev no_jwt : App
no_jwt = record app {
  server =
      make_server loaded.server_config loaded.rpc_limits_config (some 2) (some 3) none
        (new_queue 100);
}

no_jwt_made :
    make toy_context 8 toy_yaml toy_redis
      (pure 9)
      members
      "config.yaml"
      false
      (some 2)
      (some 3)
      none
      (new_queue 100)
      tt
    ≡ ret no_jwt
unfolding make_application make_client connections_below make_pool
no_jwt_made = rw load_run refl

abbrev failed : App
failed = at_end (run toy_context 8 toy_yaml toy_redis (pure 9) 5 (some 6) no_jwt)

abbrev what : Option (Outcome InWait × App) → Exception
what none = std_exception ""
what (some (ret u, a)) = std_exception ""
what (some (thrown e, a)) = e

abbrev null_pointer : Exception
null_pointer = what (run toy_context 8 toy_yaml toy_redis (pure 9) 5 (some 6) no_jwt)

no_jwt_throws :
    run toy_context 8 toy_yaml toy_redis (pure 9) 5 (some 6) no_jwt
    ≡ some (thrown null_pointer, failed)
unfolding run init serve ThreadPool.run emplace_threads Redis.init start_all ping_all ping pong
    ping_checked extract_result extract_node Pool.init Lifecycle.run start_server run_started seed
    seed_call_data make_manager start_made keep start start_rounds note_seeded
    start_listening_thread start_workers wait
no_jwt_throws = refl

main-thrown_example :
    (after : App) × (main toy_context 8 toy_yaml toy_redis (pure 9) 5 (some 6) true 2 (ret no_jwt)
      ≡ some (exited (negsuc 0) (some after)))
    × (after.server.worker_threads ≡ [])
    × (after.thread_pool.asio_threads ≡ [])
    × (after.thread_pool.work_guard ≡ false)
    × (after.server.effects ≡ failed.server.effects ++ closing 2 failed.server.effects)
main-thrown_example =
    main-thrown toy_context 8 toy_yaml toy_redis (pure 9) members "config.yaml" false (some 2)
      (some 3) none (new_queue 100) tt true 5 6 2 null_pointer no_jwt_made no_jwt_throws
