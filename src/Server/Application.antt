-- ===== src/Server/Application.antt =====
-- UserService/server/application.cc and UserService/main.cc: how the parts are put together,
-- started and stopped. `none` is a run that is undefined or stays in a loop.
pub mod StartUp
use photon_commerce.Base.{
  ℕ, String, Option, none, some, Bool, List, [], Outcome, ret, thrown, Await, pure, ◌>>=◌, ◌>>◌,
  and_then, on_ret, try_catch, throw, std_exception,
}
use photon_commerce.Adapter.Manager.{Pointer, Queue}
use photon_commerce.Base.Int.{ℤ, pos, negsuc}
use photon_commerce.Config.{load_config}
use photon_commerce.Config.Settings.{AppConfig, YamlLib}
use photon_commerce.Postgres.Pool.{make_pool}
use photon_commerce.Postgres.Pool as Pool
use photon_commerce.Redis.{RedisLib, make_client}
use photon_commerce.Redis as Redis
use photon_commerce.Server.Lifecycle.{UserServiceServer, make_server, InWait, in_wait, shutdown}
use photon_commerce.Server.Lifecycle as Lifecycle
use photon_commerce.Server.Seeding.Limits.{new_queue}
use photon_commerce.Server.ThreadPool.{IoContext, AsioThreadPool, make_thread_pool}
use photon_commerce.Server.ThreadPool as ThreadPool

module _ {W : Type 0} (ioc : IoContext) (hw_conc : ℕ) (yaml : YamlLib) (redis : RedisLib W)
    (connect : Await W ℕ) where
  -- `redis_client` and `pool_size` are what the constructors of RedisClient and
  -- AsyncConnectionPool make, and `idle` the connections of the pool.
  pub record Application : Type 0 where
    pub redis_client : List ℕ
    pub pool_size : ℕ
    pub idle : List ℕ
    pub thread_pool : AsioThreadPool ioc hw_conc
    pub server : UserServiceServer
    pub world : W

  -- The constructor, with the services that the injector makes.
  unfoldable pub make_application :
      AppConfig
      → String
      → ioc.Context
      → (auth_service basic_service jwt_util : Pointer) → Queue
      → W
      → Outcome Application
  make_application members config_path context auth_service basic_service jwt_util queue w =
      on_ret (load_config yaml hw_conc members config_path) (λ c.
        on_ret (make_client c.redis_config) (λ client. on_ret (make_pool c.db_pool_config) (λ size.
          ret (record {
            redis_client = client;
            pool_size = size;
            idle = [];
            thread_pool = make_thread_pool ioc hw_conc context;
            server =
                make_server c.server_config c.rpc_limits_config auth_service basic_service jwt_util
                  queue;
            world = w;
          }))))

  -- The coroutine that `Run` waits for.
  unfoldable pub init : List ℕ → ℕ → Await W (List ℕ)
  init redis_client pool_size = Redis.init redis redis_client >> Pool.init connect pool_size []

  unfoldable pub serve :
      (cq : ℕ) (built : Pointer)
      → Outcome (List ℕ)
      → Application
      → Option (Outcome InWait × Application)
  serve cq built (thrown e) a = some (thrown e, a)
  serve cq built (ret idle) a =
      and_then (Lifecycle.run cq built a.server)
        (λ out. some (out.0, record a { idle = idle; server = out.1 }))

  -- `Run`, whose handlers only log before they rethrow.
  unfoldable pub run :
      (cq : ℕ) (built : Pointer) → Application → Option (Outcome InWait × Application)
  unfolding init serve
  run cq built a =
      let out = init a.redis_client a.pool_size a.world in
      serve cq built out.0
        (record a { thread_pool = ThreadPool.run ioc hw_conc a.thread_pool; world = out.1 })

  -- The destructor: the server is shut down, then the thread pool stopped.
  unfoldable pub destroy : (emptied : Bool) (left : ℕ) → Application → Option Application
  destroy emptied left a = and_then (shutdown emptied left a.server) (λ down.
      and_then (ThreadPool.stop ioc hw_conc a.thread_pool)
        (λ stopped. some (record a { server = down; thread_pool = stopped })))

  -- What `main` has come to: it stays in `Wait`, or it has returned this exit code, and the
  -- destructor of the Application, if there was one, has left this. As `Run` never returns but by
  -- an exception, `return 0` is not reached.
  pub data Progress : Type 0 where
    stays : Application → Progress
    exited : ℤ → Option Application → Progress

  unfoldable pub caught :
      (emptied : Bool) (left : ℕ) → Outcome InWait → Application → Option Progress
  unfolding destroy
  caught emptied left (ret in_wait) a = some (stays a)
  caught emptied left (thrown e) a =
      and_then (destroy emptied left a) (λ after. some (exited (negsuc 0) (some after)))

  -- `main` from the constructor of Application on.
  unfoldable pub main :
      (cq : ℕ) (built : Pointer) (emptied : Bool) (left : ℕ) → Outcome Application → Option Progress
  unfolding run caught
  main cq built emptied left (thrown e) = some (exited (negsuc 0) none)
  main cq built emptied left (ret a) =
      and_then (run cq built a) (λ out. caught emptied left out.0 out.1)
