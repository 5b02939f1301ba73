-- ===== src/Server/Lifecycle/ShutDown.antt =====
-- What a run of the server leaves, and what a shut-down does after it.
use mathlib.Core.List.{◌++◌}
use photon_commerce.Base.{
  ℕ, some, Bool, List, [], ◌∷◌, ◌≡◌, refl, sym, ap, ◌∙◌, ret, thrown, Exception, some_inj,
  Outcome-cases, inl, inr,
}
use photon_commerce.Adapter.Manager.{Queue, CallDataManager, Pointer}
use photon_commerce.Base.Int.{to_ℕ}
use photon_commerce.Config.Settings.{ServerConfig, RpcLimitsConfig}
use photon_commerce.Server.Lifecycle.{
  listened, seeded, worker_started, waits, taken, drained, in_wait, UserServiceServer, make_server,
  server_address, did, start_server, dependencies, note_seeded, seed, start_listening_thread, wait,
  run_started, run, drain_if, recover, shutdown,
}
use photon_commerce.Server.Seeding.{seed_call_data}
use photon_commerce.Server.Lifecycle.Loops.{
  times, thread, grown, did_all, start_workers-grown, drain-did_all, both_shut_down,
  shutdown-recover,
}

-- What a run leaves that has seeded its managers.
abbrev served : UserServiceServer → List CallDataManager → Queue → ℕ → UserServiceServer
served s managers queue n = did waits (
    grown (did seeded (record s { managers = managers; queue = queue })) (times n thread)
      (times n worker_started))

run_started-served :
    (s : UserServiceServer) (managers : List CallDataManager) (after : Queue)
    → seed_call_data s.rpc_limits (dependencies s) ([], s.queue) ≡ (ret tt, (managers, after))
    → run_started s ≡ (ret in_wait, served s managers after (to_ℕ s.server_config.worker_threads))
unfolding run_started seed note_seeded start_listening_thread wait
run_started-served s managers after e =
    rw
      (
        e,
        start_workers-grown (to_ℕ s.server_config.worker_threads)
            (did seeded (record s { managers = managers; queue = after })),
      )
      refl

run_started-thrown :
    (s : UserServiceServer) (e : Exception) (managers : List CallDataManager) (after : Queue)
    → seed_call_data s.rpc_limits (dependencies s) ([], s.queue) ≡ (thrown e, (managers, after))
    → run_started s ≡ (thrown e, record s { managers = managers; queue = after })
unfolding run_started seed note_seeded start_listening_thread wait
run_started-thrown s e managers after h = rw h refl

-- A run that throws has not seeded all its managers.
thrown-run_started :
    (s t : UserServiceServer) (e : Exception)
    → run_started s ≡ (thrown e, t)
    → (managers : List CallDataManager) × (after : Queue) × (t
        ≡ record s { managers = managers; queue = after })
thrown-run_started s t e h =
    let out = seed_call_data s.rpc_limits (dependencies s) ([], s.queue) in
    elim (Outcome-cases out.0) [
      | inl (u, made) ↦
          let ended =
            ap (λ o. o.0)
              (sym h ∙ run_started-served s out.1.0 out.1.1 (ap (λ o. (o, out.1)) made)) in
          cc ended
      | inr (e', failed) ↦ (
        out.1.0,
        out.1.1,
        ap (λ o. o.1)
            (sym h ∙ run_started-thrown s e' out.1.0 out.1.1 (ap (λ o. (o, out.1)) failed)),
      )
    ]

-- What a server is shut down to whose run has thrown.
abbrev pub thrown_down : (left : ℕ) → UserServiceServer → UserServiceServer
thrown_down left s = did_all (both_shut_down s) (times left taken ++ drained ∷ [])

-- Where a run ends with an exception, no worker was started, and the shut-down comes back: it takes
-- the events that are left out of the queue itself, after it has shut down the server and then the
-- queue.
pub shutdown-thrown :
    (server_config : ServerConfig) (limits : RpcLimitsConfig)
    (auth_service basic_service jwt_util : Pointer) (queue : Queue) (emptied : Bool)
    (cq server left : ℕ) (e : Exception) (t : UserServiceServer)
    → run cq
        (some server)
        (make_server server_config limits auth_service basic_service jwt_util queue)
      ≡ some (thrown e, t)
    → (shutdown emptied left t ≡ some (thrown_down left t))
      × (t.worker_threads ≡ [])
      × (t.effects ≡ listened (server_address server_config) ∷ [])
unfolding run start_server recover drain_if
shutdown-thrown server_config limits a b j queue emptied cq server left e t h =
    let s = start_server cq (some server) (make_server server_config limits a b j queue) in
    let (managers, after, same) = thrown-run_started s t e (some_inj h) in
    let u = record s { managers = managers; queue = after } in
    (
      ap (shutdown emptied left) same
          ∙ shutdown-recover emptied left cq server [] u refl refl refl
          ∙ drain-did_all left (both_shut_down u) refl
          ∙ ap (λ v. some (thrown_down left v)) (sym same),
      ap (λ v. v.worker_threads) same,
      ap (λ v. v.effects) same,
    )
