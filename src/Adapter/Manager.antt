-- ===== src/Adapter/Manager.antt =====
-- CallDataManager of UserService/adapter/v2/call_data_manager, and what the five specific managers
-- register. An object of the pool is its address.
use mathlib.Core.List.{◌++◌}
use photon_commerce.Base.{
  ℕ, zero, suc, Option, none, some, Bool, true, false, ◌||◌, List, [], ◌∷◌, ◌+◌, ◌-◌, ◌^◌,
  if◌then◌else◌, Outcome, ret, thrown, std_exception,
}
use photon_commerce.Base.Int.{ℤ, pos, negsuc}

-- The RPCs that have a manager, and with it a `Request` method of the generated service.
pub data Rpc : Type 0 where
  register_rpc send_code_rpc login_pw_rpc login_code_rpc get_user_info_rpc : Rpc

-- The next address of `make_unique`, and the requests that were registered with the queue.
pub record Queue : Type 0 where
  pub fresh : ℕ
  pub requests : List (Rpc × ℕ)

pub record CallDataManager : Type 0 where
  pub rpc : Rpc
  pub initial_size : ℕ
  pub pool : List ℕ

abbrev pub Pointer : Type 0
Pointer = Option ℕ

abbrev pub is_null : Pointer → Bool
is_null none = true
is_null (some address) = false

-- The conversion of an int to size_t.
abbrev pub to_size : ℤ → ℕ
to_size (pos n) = n
to_size (negsuc n) = 2 ^ 64 - 1 - n

-- The constructor, after that of ICallDataManager.
unfoldable pub make_manager :
    Rpc → ℕ → (grpc_service business_service jwt_util cq : Pointer) → Outcome CallDataManager
make_manager rpc initial_size grpc_service business_service jwt_util cq =
    if is_null cq
    then thrown (std_exception "CQ cannot be null.")
    else if is_null grpc_service || is_null jwt_util || is_null business_service
    then thrown (std_exception "Service, JwtUtil, Business Service cannot be null.")
    else ret (record { rpc = rpc; initial_size = initial_size; pool = [] })

-- The five specific managers: the `Request` method of its RPC is the one that each registers its
-- objects with.
abbrev pub register_call_data_manager :
    ℕ → (grpc_service business_service jwt_util cq : Pointer) → Outcome CallDataManager
register_call_data_manager = make_manager register_rpc

abbrev pub send_code_call_data_manager :
    ℕ → (grpc_service business_service jwt_util cq : Pointer) → Outcome CallDataManager
send_code_call_data_manager = make_manager send_code_rpc

abbrev pub login_by_password_call_data_manager :
    ℕ → (grpc_service business_service jwt_util cq : Pointer) → Outcome CallDataManager
login_by_password_call_data_manager = make_manager login_pw_rpc

abbrev pub login_by_code_call_data_manager :
    ℕ → (grpc_service business_service jwt_util cq : Pointer) → Outcome CallDataManager
login_by_code_call_data_manager = make_manager login_code_rpc

abbrev pub get_user_info_call_data_manager :
    ℕ → (grpc_service business_service jwt_util cq : Pointer) → Outcome CallDataManager
get_user_info_call_data_manager = make_manager get_user_info_rpc

-- `SpecificRegisterCallDataToCQ`.
abbrev pub register_call_data : CallDataManager → ℕ → Queue → Queue
register_call_data m tag q = record q { requests = q.requests ++ (m.rpc, tag) ∷ [] }

-- The loop of `Start`.
unfoldable pub start_rounds : ℕ → CallDataManager → Queue → CallDataManager × Queue
start_rounds zero m q = (m, q)
start_rounds (suc n) m q =
    start_rounds n (record m { pool = m.pool ++ q.fresh ∷ [] })
      (register_call_data m q.fresh (record q { fresh = q.fresh + 1 }))

-- `Start`.
unfoldable pub start : CallDataManager → Queue → CallDataManager × Queue
unfolding start_rounds
start m q = start_rounds m.initial_size m q
