-- ===== src/Tests/Program.antt =====
-- The program over an io_context that only knows whether it was stopped.
use photon_commerce.Base.{
  length, none, some, Bool, true, false, List, [], ◌∷◌, ◌<◌, ◌≡◌, refl, arith, if◌then◌else◌, ret,
}
use photon_commerce.Adapter.Manager.{send_code_rpc, Queue, CallDataManager}
use photon_commerce.Server.Seeding.{Dependencies, seed_call_data}
use photon_commerce.Server.Seeding.Blocks.{addresses, IsWired, requested, tags, pools}
use photon_commerce.Server.Seeding.Limits.{new_queue, seed_call_data-limits}
use photon_commerce.Tests.Settings.{toy_yaml, members, loaded, load_run}
use photon_commerce.Server.ThreadPool.{IoContext, AsioThreadPool, make_thread_pool}
use photon_commerce.Server.ThreadPool.Phases.{
  Call, runs, stops, run_calls, run_calls-make_thread_pool,
}

abbrev pub toy_context : IoContext
toy_context = record {
  Context = Bool;
  stopped = λ c. c;
  make_work_guard = λ c. c;
  reset_work_guard = λ c. c;
  stop = λ c. true;
  start_run = λ c. c;
  join = λ c. if c then some true else none;
  stopped-make_work_guard = λ c. refl;
  stopped-reset_work_guard = λ c h. h;
  stopped-stop = λ c. refl;
  stopped-start_run = λ c h. h;
  join-stopped = λ c h. (true, rw h refl, refl);
}

abbrev twice : List Call
twice = runs ∷ runs ∷ stops ∷ stops ∷ runs ∷ []

run_calls-make_thread_pool_example :
    (after : AsioThreadPool toy_context 4) × (run_calls toy_context 4 twice
        (make_thread_pool toy_context 4 false)
      ≡ some after)
    × (after.work_guard ≡ true)
    × (length after.asio_threads ≡ 4)
    × (after.ioc ≡ true)
run_calls-make_thread_pool_example = run_calls-make_thread_pool toy_context 4 twice false

abbrev pub all_set : Dependencies
all_set = record {
  auth_grpc_service = some 0;
  basic_user_grpc_service = some 1;
  auth_business_service = some 2;
  basic_user_business_service = some 3;
  jwt_util = some 4;
  cq = some 5;
}

pub all_set-IsWired : IsWired all_set
all_set-IsWired = record {
  auth_grpc_service = refl;
  basic_user_grpc_service = refl;
  auth_business_service = refl;
  basic_user_business_service = refl;
  jwt_util = refl;
  cq = refl;
}

seed_call_data-limits_example :
    (managers : List CallDataManager) × (after : Queue) × (seed_call_data loaded.rpc_limits_config
        all_set
        ([], new_queue 100)
      ≡ (ret tt, (managers, after)))
    × (requested send_code_rpc after.requests ≡ 10)
    × (0 < 10)
    × (tags after.requests ≡ addresses 100 50)
    × (pools managers ≡ addresses 100 50)
seed_call_data-limits_example =
    seed_call_data-limits toy_yaml 8 members loaded "config.yaml" all_set 100 send_code_rpc
      (omega arith) load_run all_set-IsWired
