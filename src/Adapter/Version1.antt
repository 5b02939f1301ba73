-- ===== src/Adapter/Version1.antt =====
-- RegisterCallData of UserService/adapter/v1: an object for each request, which creates the next
-- one when its request comes in and deletes itself when its reply was sent. Addresses are
-- numbers; an access to an object that is not there is none.
pub mod Lifetimes
pub mod Kept
pub mod Ended
pub mod Serving
use Prim.Native.String.{◌++◌}
use photon_commerce.Base.{
  ℕ, zero, suc, String, Option, none, some, List, [], ◌∷◌, ◌+◌, ◌==◌, if◌then◌else◌, and_then,
  Exception,
}
use photon_commerce.Adapter.Authentication.{GrpcStatus}
use photon_commerce.Adapter.CallData.{status_of}
use photon_commerce.Service.Model.{RegisterRequest}

pub data State : Type 0 where
  create process finish : State

-- `reply` is the user_id of the RegisterResponse.
pub record RegisterCallData : Type 0 where
  pub status : State
  pub request : RegisterRequest
  pub reply : String

abbrev pub Heap : Type 0
Heap = ℕ → Option RegisterCallData

abbrev pub update : ℕ → Option RegisterCallData → Heap → Heap
update this o heap k = if k == this then o else heap k

-- The objects, the next address of `new`, and the tags that wait for a request, whose logic runs,
-- and whose reply is being sent.
pub record Server : Type 0 where
  pub heap : Heap
  pub fresh : ℕ
  pub requested : List ℕ
  pub spawned : List ℕ
  pub finishing : List (ℕ × GrpcStatus × String)

module _ (no_request : RegisterRequest) where
  -- `RequestRegister` with this object.
  unfoldable pub handle_create : ℕ → RegisterCallData → Server → Server
  handle_create this c s = record s {
    heap = update this (some (record c { status = process })) s.heap;
    requested = this ∷ s.requested;
  }

  -- The constructor, at a new address.
  unfoldable pub construct : Server → Server
  construct s = record s {
    heap =
        update s.fresh (some (record { status = create; request = no_request; reply = "" })) s.heap;
    fresh = s.fresh + 1;
  }

  -- `proceed` is what `Init` of the new object calls.
  unfoldable pub handle_process : (ℕ → Server → Option Server) → ℕ → Server → Option Server
  unfolding construct
  handle_process proceed this s = and_then (proceed s.fresh (construct s)) (λ t.
      and_then (t.heap this) (λ c. some (record t {
        heap = update this (some (record c { status = finish })) t.heap;
        spawned = this ∷ t.spawned;
      })))

  -- `delete this`.
  unfoldable pub handle_finish : ℕ → Server → Server
  handle_finish this s = record s { heap = update this none s.heap }

  unfoldable pub handle_status :
      (ℕ → Server → Option Server) → State → ℕ → RegisterCallData → Server → Option Server
  unfolding handle_create handle_process handle_finish
  handle_status proceed create this c s = some (handle_create this c s)
  handle_status proceed process this c s = handle_process proceed this s
  handle_status proceed finish this c s = some (handle_finish this s)

  -- `Proceed`, with fuel for the calls of `Proceed` within it.
  unfoldable pub proceed : ℕ → ℕ → Server → Option Server
  unfolding handle_status
  proceed zero this s = none
  proceed (suc n) this s =
      let inner = proceed n in and_then (s.heap this) (λ c. handle_status inner c.status this c s)

  -- `Init` of the first object.
  unfoldable pub init : ℕ → Server → Option Server
  unfolding proceed construct
  init n s = proceed n s.fresh (construct s)

-- `RunLogic`.
unfoldable pub run_logic : RegisterCallData → RegisterCallData
run_logic c = record c { reply = "Hello, " ++ c.request.username }

-- What the coroutine leaves, where an exception ends it before it has set the reply.
logic_left : Option Exception → RegisterCallData → RegisterCallData
unfolding run_logic
logic_left none c = run_logic c
logic_left (some e) c = c

-- The coroutine of this object ends, and `OnLogicFinished` hands the reply to gRPC.
unfoldable pub on_logic_finished : Option Exception → ℕ → Server → Option Server
unfolding status_of logic_left
on_logic_finished e this s = and_then (s.heap this) (λ c. some (record s {
  heap = update this (some (logic_left e c)) s.heap;
  finishing = (this, status_of e, (logic_left e c).reply) ∷ s.finishing;
}))
