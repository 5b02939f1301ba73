-- ===== src/Server/Application/StartUp.antt =====
-- What has been set up when the server listens, and what is left when the program ends.
use mathlib.Core.List.{◌++◌}
use photon_commerce.Base.{
  ℕ, zero, suc, String, some, Bool, Exception, true, false, List, [], ◌∷◌, ◌≡◌, ◌≢◌, refl, sym, ap,
  ◌∙◌, ◌+◌, arith, length, length-append, Outcome, ret, thrown, std_exception, Await, >>=-eq-ret,
  on_ret-eq-ret, Outcome-cases, Option-cases, inl, inr, some_inj, subst, if◌then◌else◌, Bool-cases,
}
use photon_commerce.Adapter.Manager.{Pointer, Queue}
use photon_commerce.Base.Int.{ℤ, pos, negsuc, to_ℕ, le_zero}
use photon_commerce.Config.{load_config}
use photon_commerce.Config.Settings.{AppConfig, ServerConfig, RpcLimitsConfig, YamlLib}
use photon_commerce.Postgres.Pool.{DbPoolConfig, make_pool}
use photon_commerce.Postgres.Pool as Pool
use photon_commerce.Redis.{RedisLib, make_client}
use photon_commerce.Redis as Redis
use photon_commerce.Server.Application.{
  Application, make_application, init, serve, run, destroy, caught, exited, main,
}
use photon_commerce.Server.Lifecycle.{
  Effect, server_shut_down, cq_shut_down, taken, drained, InWait, UserServiceServer, make_server,
  shutdown, recover, drain_if,
}
use photon_commerce.Server.Lifecycle as Lifecycle
use photon_commerce.Server.Lifecycle.Loops.{times}
use photon_commerce.Server.Lifecycle.ShutDown.{shutdown-thrown, thrown_down}
use photon_commerce.Server.ThreadPool.{IoContext, AsioThreadPool, make_thread_pool}
use photon_commerce.Server.ThreadPool as ThreadPool
use photon_commerce.Server.ThreadPool.Phases.{IsIn, fresh, run-IsIn, stop-IsIn}

ret_inj : {A : Type 0} {a b : A} → ret a ≡ ret b → a ≡ b
ret_inj e = cc

Pool_init-length :
    {W : Type 0} (connect : Await W ℕ) (n : ℕ) (idle : List ℕ) (w : W) {conns : List ℕ}
    → (Pool.init connect n idle w).0 ≡ ret conns
    → length conns ≡ length idle + n
unfolding Pool.init
Pool_init-length connect zero idle w e = omega (arith, ap length (ret_inj e))
Pool_init-length connect (suc n) idle w e =
    let (conn, connected, rest) =
      >>=-eq-ret connect (λ conn. Pool.init connect n (idle ++ conn ∷ [])) w e in
    omega (
      arith,
      Pool_init-length connect n (idle ++ conn ∷ []) (connect w).1 rest,
      length-append idle (conn ∷ []),
    )

length-nil : {A : Type 0} (xs : List A) → length xs ≡ 0 → xs ≡ []
length-nil [] e = refl
length-nil (x ∷ xs) e = absurd (omega arith)

make_pool-size : (c : DbPoolConfig) (n : ℕ) → make_pool c ≡ ret n → pos n ≡ c.pool_size
unfolding make_pool
make_pool-size c n e = of_size c.pool_size e
  where
    of_size :
        (size : ℤ)
        → (if le_zero size
            then thrown (std_exception "Pool size must be positive.")
            else ret (to_ℕ size))
          ≡ ret n
        → pos n ≡ size
    of_size (pos k) h = elim (Bool-cases (le_zero (pos k))) [
      | inl none_asked ↦ cc (h, none_asked)
      | inr some_asked ↦ ap pos (sym (ret_inj (rw some_asked at h)))
    ]
    of_size (negsuc k) h = cc

-- What a shut-down without workers does, after what has been done: nothing where the server never
-- listened, and else it shuts the server down, then the queue, and takes the events that are left.
abbrev pub closing : (left : ℕ) → List Effect → List Effect
closing left [] = []
closing left (e ∷ es) = server_shut_down ∷ cq_shut_down ∷ (times left taken ++ drained ∷ [])

module _ {W : Type 0} (ioc : IoContext) (hw_conc : ℕ) (yaml : YamlLib) (redis : RedisLib W)
    (connect : Await W ℕ) where
  abbrev App : Type 0
  App = Application ioc hw_conc yaml redis connect

  -- How a run ended: its initialisation threw, and the server was left alone, or the server ran.
  abbrev Ended : (cq : ℕ) (built : Pointer) → Outcome (List ℕ) → App → Outcome InWait → App → Type 0
  Ended cq built (thrown e) a o t = (o ≡ thrown e) × (t ≡ a)
  Ended cq built (ret idle) a o t =
      (out : Outcome InWait × UserServiceServer) × (Lifecycle.run cq built a.server ≡ some out)
      × (o ≡ out.0)
      × (t ≡ record a { idle = idle; server = out.1 })

  serve-Ended :
      (cq : ℕ) (built : Pointer) (r : Outcome (List ℕ)) (a t : App) (o : Outcome InWait)
      → serve ioc hw_conc yaml redis connect cq built r a ≡ some (o, t)
      → Ended cq built r a o t
  unfolding serve
  serve-Ended cq built (thrown e) a t o h =
      (ap (λ p. p.0) (sym (some_inj h)), ap (λ p. p.1) (sym (some_inj h)))
  serve-Ended cq built (ret idle) a t o h = elim (Option-cases (Lifecycle.run cq built a.server)) [
    | inl stuck ↦ cc (rw stuck at h)
    | inr (out, ran) ↦
        let same = some_inj (rw ran at h) in
        (out, ran, ap (λ p. p.0) (sym same), ap (λ p. p.1) (sym same))
  ]

  -- The application when its initialisation has ended.
  abbrev initialised : App → App
  initialised a = record a {
    thread_pool = ThreadPool.run ioc hw_conc a.thread_pool;
    world = (init ioc hw_conc yaml redis connect a.redis_client a.pool_size a.world).1;
  }

  abbrev pub make :
      AppConfig
      → String
      → ioc.Context
      → (auth_service basic_service jwt_util : Pointer) → Queue
      → W
      → Outcome App
  make = make_application ioc hw_conc yaml redis connect

  -- What the constructor guarantees.
  made :
      (members : AppConfig) (path : String) (context : ioc.Context)
      (auth_service basic_service jwt_util : Pointer) (queue : Queue) (w : W) {a : App}
      → make members path context auth_service basic_service jwt_util queue w ≡ ret a
      → (c : AppConfig) × (load_config yaml hw_conc members path ≡ ret c)
        × (pos a.pool_size ≡ c.db_pool_config.pool_size)
        × (a.server
            ≡ make_server c.server_config c.rpc_limits_config auth_service basic_service jwt_util
                queue)
        × (a.thread_pool ≡ make_thread_pool ioc hw_conc context)
  unfolding make_application
  made members path context auth basic jwt queue w {a} h =
      let (c, loaded, h1) = on_ret-eq-ret (load_config yaml hw_conc members path) _ h in
      let (client, has_client, h2) = on_ret-eq-ret (make_client c.redis_config) _ h1 in
      let (size, has_pool, h3) = on_ret-eq-ret (make_pool c.db_pool_config) _ h2 in
      let same = ret_inj h3 in
      (
        c,
        loaded,
        ap (λ x. pos x.pool_size) (sym same) ∙ make_pool-size c.db_pool_config size has_pool,
        ap (λ x. x.server) (sym same),
        ap (λ x. x.thread_pool) (sym same),
      )

  thread_pool_runs :
      (a : App) (context : ioc.Context)
      → a.thread_pool ≡ make_thread_pool ioc hw_conc context
      → IsIn ioc hw_conc
          (record { running = true; was_stopped = false })
          (initialised a).thread_pool
  thread_pool_runs a context e = run-IsIn ioc hw_conc fresh a.thread_pool (
      subst (IsIn ioc hw_conc fresh) (sym e)
        (record { guarded = refl; threads = refl; joinable = tt; stopped = λ h. cc }))

  -- The server listens only once everything behind it is up: if a run of an application that was
  -- constructed has done anything on its server, then the configuration was loaded, the
  -- initialisation of Redis has returned, the pool holds as many connections as the configuration
  -- says, and the thread pool runs.
  pub run-initialised :
      (members : AppConfig) (path : String) (context : ioc.Context)
      (auth_service basic_service jwt_util : Pointer) (queue : Queue) (w : W) (cq : ℕ)
      (built : Pointer) {a t : App} {o : Outcome InWait}
      → make members path context auth_service basic_service jwt_util queue w ≡ ret a
      → run ioc hw_conc yaml redis connect cq built a ≡ some (o, t)
      → t.server.effects ≢ []
      → (c : AppConfig) × (load_config yaml hw_conc members path ≡ ret c)
        × ((Redis.init redis a.redis_client a.world).0 ≡ ret tt)
        × (pos (length t.idle) ≡ c.db_pool_config.pool_size)
        × (t.thread_pool.work_guard ≡ true)
  unfolding run init
  run-initialised members path context auth basic jwt queue w cq built {a} {t} {o} h r acted =
      let (c, loaded, size, server, pool) = made members path context auth basic jwt queue w h in
      let runs = thread_pool_runs a context pool in
      let start = init ioc hw_conc yaml redis connect a.redis_client a.pool_size a.world in
      elim (Outcome-cases start.0) [
        | inl (idle, up) ↦
            let (out, ran, same_o, same) =
              subst (λ i. Ended cq built i (initialised a) o t) up
                (serve-Ended cq built start.0 (initialised a) t o r) in
            let (u, redis_up, pool_up) =
              >>=-eq-ret (Redis.init redis a.redis_client) (λ _. Pool.init connect a.pool_size [])
                a.world up in
            (
              c,
              loaded,
              redis_up,
              ap (λ x. pos (length x.idle)) same
                  ∙ ap pos (
                      Pool_init-length connect a.pool_size []
                        (Redis.init redis a.redis_client a.world).1 pool_up
                      ∙ omega arith)
                  ∙ size,
              ap (λ x. x.thread_pool.work_guard) same ∙ runs.guarded,
            )
        | inr (e, failed) ↦
            let (same_o, same) =
              subst (λ i. Ended cq built i (initialised a) o t) failed
                (serve-Ended cq built start.0 (initialised a) t o r) in
            absurd (acted (ap (λ x. x.server.effects) same ∙ ap (λ x. x.effects) server))
      ]

  run-thread_pool :
      (cq : ℕ) (built : Pointer) (a t : App) (o : Outcome InWait)
      → run ioc hw_conc yaml redis connect cq built a ≡ some (o, t)
      → t.thread_pool ≡ (initialised a).thread_pool
  unfolding run
  run-thread_pool cq built a t o r =
      of_end (init ioc hw_conc yaml redis connect a.redis_client a.pool_size a.world).0
        (serve-Ended cq built _ (initialised a) t o r)
    where
      of_end :
          (i : Outcome (List ℕ))
          → Ended cq built i (initialised a) o t
          → t.thread_pool ≡ (initialised a).thread_pool
      of_end (thrown e) v = ap (λ x. x.thread_pool) v.1
      of_end (ret idle) (out, ran, same_o, same) = ap (λ x. x.thread_pool) same

  abbrev IsDown : (emptied : Bool) (left : ℕ) → UserServiceServer → Type 0
  IsDown emptied left s =
      (down : UserServiceServer) × (shutdown emptied left s ≡ some down)
      × (down.worker_threads ≡ [])
      × (down.effects ≡ s.effects ++ closing left s.effects)

  run-IsDown :
      (server_config : ServerConfig) (limits : RpcLimitsConfig)
      (auth_service basic_service jwt_util : Pointer) (queue : Queue) (emptied : Bool)
      (cq server left : ℕ) (e : Exception) (s : UserServiceServer)
      → Lifecycle.run cq
          (some server)
          (make_server server_config limits auth_service basic_service jwt_util queue)
        ≡ some (thrown e, s)
      → IsDown emptied left s
  run-IsDown server_config limits auth basic jwt queue emptied cq server left e s ran =
      let (downs, idle, listening) =
        shutdown-thrown server_config limits auth basic jwt queue emptied cq server left e s ran in
      (thrown_down left s, downs, idle, rw listening refl)

  made-IsDown :
      (server_config : ServerConfig) (limits : RpcLimitsConfig)
      (auth_service basic_service jwt_util : Pointer) (queue : Queue) (emptied : Bool) (left : ℕ)
      → IsDown emptied left
          (make_server server_config limits auth_service basic_service jwt_util queue)
  unfolding shutdown recover drain_if
  made-IsDown server_config limits auth basic jwt queue emptied left =
      (make_server server_config limits auth basic jwt queue, refl, refl, refl)

  -- After a run that threw, the server can be shut down.
  thrown-IsDown :
      (c : AppConfig) (auth_service basic_service jwt_util : Pointer) (queue : Queue)
      (emptied : Bool) (cq server left : ℕ) (e : Exception) (a t : App)
      → a.server
        ≡ make_server c.server_config c.rpc_limits_config auth_service basic_service jwt_util queue
      → run ioc hw_conc yaml redis connect cq (some server) a ≡ some (thrown e, t)
      → IsDown emptied left t.server
  unfolding run
  thrown-IsDown c auth basic jwt queue emptied cq server left e a t made_as r =
      of_end (init ioc hw_conc yaml redis connect a.redis_client a.pool_size a.world).0
        (serve-Ended cq (some server) _ (initialised a) t (thrown e) r)
    where
      of_end :
          (i : Outcome (List ℕ))
          → Ended cq (some server) i (initialised a) (thrown e) t
          → IsDown emptied left t.server
      of_end (thrown e') v =
          subst (IsDown emptied left) (sym (ap (λ x. x.server) v.1 ∙ made_as))
            (made-IsDown c.server_config c.rpc_limits_config auth basic jwt queue emptied left)
      of_end (ret idle) ((o, s), ran, same_o, same) =
          subst (IsDown emptied left) (sym (ap (λ x. x.server) same)) (
            run-IsDown c.server_config c.rpc_limits_config auth basic jwt queue emptied cq server
              left e s
              (ap (Lifecycle.run cq (some server)) (sym made_as)
                ∙ ran
                ∙ ap (λ o'. some (o', s)) (sym same_o)))

  -- Where gRPC starts the server and the run of an application that was constructed ends with an
  -- exception, main comes back with exit code -1, and the destructor has left no thread: the server
  -- has no workers and the pool no threads, and the pool holds no work guard. If the server has
  -- listened, it was shut down before the queue, and the queue before the events left in it were
  -- taken; otherwise nothing was done on it.
  pub main-thrown :
      (members : AppConfig) (path : String) (context : ioc.Context)
      (auth_service basic_service jwt_util : Pointer) (queue : Queue) (w : W) (emptied : Bool)
      (cq server left : ℕ) (e : Exception) {a t : App}
      → make members path context auth_service basic_service jwt_util queue w ≡ ret a
      → run ioc hw_conc yaml redis connect cq (some server) a ≡ some (thrown e, t)
      → (after : App) × (main ioc hw_conc yaml redis connect cq (some server) emptied left (ret a)
          ≡ some (exited (negsuc 0) (some after)))
        × (after.server.worker_threads ≡ [])
        × (after.thread_pool.asio_threads ≡ [])
        × (after.thread_pool.work_guard ≡ false)
        × (after.server.effects ≡ t.server.effects ++ closing left t.server.effects)
  unfolding main caught destroy
  main-thrown members path context auth basic jwt queue w emptied cq server left e {a} {t} h r =
      let (c, loaded, size, as_made, pool) = made members path context auth basic jwt queue w h in
      let runs = thread_pool_runs a context pool in
      let (stopped, stops, v) =
        stop-IsIn ioc hw_conc (record { running = true; was_stopped = false }) t.thread_pool
          (subst (IsIn ioc hw_conc _) (sym (run-thread_pool cq (some server) a t (thrown e) r))
            runs) in
      let (down, downs, idle, closed) =
        thrown-IsDown c auth basic jwt queue emptied cq server left e a t as_made r in
      (
        record t { server = down; thread_pool = stopped },
        rw (r, downs, stops) refl,
        idle,
        length-nil stopped.asio_threads v.threads,
        v.guarded,
        closed,
      )
