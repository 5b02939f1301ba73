-- ===== src/Server/Lifecycle.antt =====
-- UserServiceServer of UserService/server/user_service_server.cc: how it starts and shuts down.
-- What it asks of gRPC and of the threads is recorded in the order in which it does so.
pub mod Loops
pub mod ShutDown
use Prim.Native.String.{◌++◌}
use mathlib.Core.List.{◌++◌ as list_append}
use photon_commerce.Base.{
  ℕ, zero, suc, String, Option, none, some, Bool, true, false, List, [], ◌∷◌, if◌then◌else◌,
  Outcome, ret, thrown, Await, pure, ◌>>=◌, ◌>>◌, and_then,
}
use photon_commerce.Adapter.Manager.{Queue, CallDataManager, Pointer}
use photon_commerce.Base.Decimal.{to_string}
use photon_commerce.Base.Int.{ℤ, to_ℕ}
use photon_commerce.Config.Settings.{ServerConfig, RpcLimitsConfig}
use photon_commerce.Server.Seeding.{Dependencies, seed_call_data}
use photon_commerce.Server.ThreadPool.{Thread}

-- `listened` holds the address; `waits` is the call of `server_->Wait()`, and `taken` a call of
-- `Next` that takes an event out of the queue.
pub data Effect : Type 0 where
  listened : String → Effect
  seeded worker_started waits server_shut_down cq_shut_down worker_joined taken drained : Effect

-- The business services and `jwt_util_` are the pointers that the constructor was given.
-- `cq_closed` says whether `Shutdown` has been called on the queue.
pub record UserServiceServer : Type 0 where
  pub server_config : ServerConfig
  pub rpc_limits : RpcLimitsConfig
  pub auth_business_service : Pointer
  pub basic_user_business_service : Pointer
  pub jwt_util : Pointer
  pub cq : Pointer
  pub server : Pointer
  pub managers : List CallDataManager
  pub worker_threads : List Thread
  pub queue : Queue
  pub cq_closed : Bool
  pub effects : List Effect

-- The constructor.
abbrev pub make_server :
    ServerConfig
    → RpcLimitsConfig
    → (auth_service basic_service jwt_util : Pointer) → Queue
    → UserServiceServer
make_server server_config rpc_limits auth_service basic_service jwt_util queue = record {
  server_config = server_config;
  rpc_limits = rpc_limits;
  auth_business_service = auth_service;
  basic_user_business_service = basic_service;
  jwt_util = jwt_util;
  cq = none;
  server = none;
  managers = [];
  worker_threads = [];
  queue = queue;
  cq_closed = false;
  effects = [];
}

abbrev pub server_address : ServerConfig → String
server_address config = config.bind_ip ++ ":" ++ to_string config.port

abbrev pub did : Effect → UserServiceServer → UserServiceServer
did e s = record s { effects = list_append s.effects (e ∷ []) }

-- `StartServer`, where `AddCompletionQueue` returns `cq` and `BuildAndStart` returns `built`, null
-- where the server could not be started.
unfoldable pub start_server : (cq : ℕ) (built : Pointer) → UserServiceServer → UserServiceServer
start_server cq built s = record (did (listened (server_address s.server_config)) s) {
  cq = some cq;
  server = built;
}

-- The two generated services are members, so their addresses are never null.
abbrev pub dependencies : UserServiceServer → Dependencies
dependencies s = record {
  auth_grpc_service = some 0;
  basic_user_grpc_service = some 1;
  auth_business_service = s.auth_business_service;
  basic_user_business_service = s.basic_user_business_service;
  jwt_util = s.jwt_util;
  cq = s.cq;
}

unfoldable pub note_seeded : Outcome (Unit {0}) → UserServiceServer → UserServiceServer
note_seeded (ret u) s = did seeded s
note_seeded (thrown e) s = s

-- `SeedCallData`, which keeps the managers that it has made where one cannot be made.
unfoldable pub seed : Await UserServiceServer (Unit {0})
unfolding seed_call_data note_seeded
seed s =
    let out = seed_call_data s.rpc_limits (dependencies s) ([], s.queue) in
    (out.0, note_seeded out.0 (record s { managers = out.1.0; queue = out.1.1 }))

-- The loop of `StartListeningThread`.
unfoldable pub start_workers : ℕ → UserServiceServer → UserServiceServer
start_workers zero s = s
start_workers (suc n) s = start_workers n (
    did worker_started (record s {
      worker_threads = list_append s.worker_threads (record { joinable = true } ∷ []);
    }))

unfoldable pub start_listening_thread : Await UserServiceServer (Unit {0})
unfolding start_workers
start_listening_thread s = (ret tt, start_workers (to_ℕ s.server_config.worker_threads) s)

-- `server_->Wait()` comes back when somebody has called `Shutdown`. Nothing does before `Run` has
-- returned, so the thread that comes to it stays there: no value of this type is a return.
pub data InWait : Type 0 where
  in_wait : InWait

unfoldable pub wait : Await UserServiceServer InWait
wait s = (ret in_wait, did waits s)

-- What `Run` does once `server_` is set.
unfoldable pub run_started : Await UserServiceServer InWait
unfolding seed start_listening_thread wait
run_started = seed >> (start_listening_thread >> wait)

-- `Run`, to its end by an exception or to where it stays; none is the use of a null `server_`,
-- which is undefined.
unfoldable pub run :
    (cq : ℕ) (built : Pointer) → UserServiceServer → Option (Outcome InWait × UserServiceServer)
unfolding start_server run_started
run cq none s = none
run cq (some server) s = some (run_started (start_server cq (some server) s))

-- `join`, which waits for the end of the loop of `HandleRpc`. That ends where the queue has been
-- shut down and the workers have taken what was in it (`emptied`); else none: it stays there.
abbrev pub join : (emptied : Bool) → Thread → UserServiceServer → Option UserServiceServer
join emptied t s =
    if t.joinable
    then (if s.cq_closed then (if emptied then some (did worker_joined s) else none) else none)
    else some s

-- The loop that waits for the workers.
unfoldable pub join_workers :
    (emptied : Bool) → List Thread → UserServiceServer → Option UserServiceServer
join_workers emptied [] s = some s
join_workers emptied (t ∷ ts) s = and_then (join emptied t s) (join_workers emptied ts)

-- The loop that drains the queue of the events that are left in it. `Next` says that there is no
-- more only of a queue that has been shut down, and else waits for an event.
unfoldable pub drain : ℕ → UserServiceServer → Option UserServiceServer
drain zero s = if s.cq_closed then some (did drained s) else none
drain (suc left) s = drain left (did taken s)

abbrev pub shut_down_server : Pointer → UserServiceServer → UserServiceServer
shut_down_server none s = s
shut_down_server (some server) s = did server_shut_down s

abbrev pub shut_down_cq : Pointer → UserServiceServer → UserServiceServer
shut_down_cq none s = s
shut_down_cq (some cq) s = record (did cq_shut_down s) { cq_closed = true }

unfoldable pub drain_if : Pointer → ℕ → UserServiceServer → Option UserServiceServer
unfolding drain
drain_if none left s = some s
drain_if (some cq) left s = drain left s

abbrev pub cleared : UserServiceServer → UserServiceServer
cleared s = record s { worker_threads = [] }

unfoldable pub recover :
    (emptied : Bool) → List Thread → ℕ → UserServiceServer → Option UserServiceServer
unfolding join_workers drain_if
recover emptied [] left s = drain_if s.cq left s
recover emptied (t ∷ ts) left s =
    and_then (join_workers emptied (t ∷ ts) s) (λ joined. some (cleared joined))

-- `Shutdown`, with so many events left in the queue where no worker takes them; none is a shut-down
-- that does not come back.
unfoldable pub shutdown : (emptied : Bool) (left : ℕ) → UserServiceServer → Option UserServiceServer
unfolding recover
shutdown emptied left s =
    recover emptied s.worker_threads left (shut_down_cq s.cq (shut_down_server s.server s))
