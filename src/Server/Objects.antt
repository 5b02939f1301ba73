-- ===== src/Server/Objects.antt =====
-- All call-data objects of the server among their environment: those that SeedCallData registers,
-- each of the RPC of its manager, whose events the worker threads of `HandleRpc` take in any order
-- (UserService/server/user_service_server.cc), while gRPC and the coroutines act in between.
pub mod InFlight
pub mod Callers
use photon_commerce.Base.{ℕ, String, List, [], ◌∷◌, Expected}
use photon_commerce.Adapter.CallData.Protocol as Protocol
use photon_commerce.Adapter.CallData.Protocol.{Slot}
use photon_commerce.Adapter.Manager.{Rpc}
use photon_commerce.Adapter.Rpcs.{SpecificCallData, call_data_of}
use photon_commerce.Service.Auth.{AuthService}
use photon_commerce.Service.BasicUser.{BasicUserService}
use photon_commerce.Service.Utilities.{JwtError}

module _ {S : Type 0} (auth : AuthService S) (basic : BasicUserService S)
    (verify_token : String → Expected String JwtError) where
  abbrev pub kind : Rpc → SpecificCallData S
  kind = call_data_of auth basic

  abbrev pub SlotFor : Rpc → Type 0
  SlotFor rpc = Slot (kind rpc).no_request (kind rpc).no_reply (kind rpc).requires_auth verify_token

  abbrev pub SlotStep : (rpc : Rpc) → SlotFor rpc → SlotFor rpc → Type 0
  SlotStep rpc =
      Protocol.Step (kind rpc).no_request (kind rpc).no_reply (kind rpc).requires_auth verify_token

  abbrev pub new_slot : (rpc : Rpc) → SlotFor rpc
  new_slot rpc =
      Protocol.start (kind rpc).no_request (kind rpc).no_reply (kind rpc).requires_auth verify_token

  abbrev pub SlotReached : (rpc : Rpc) → SlotFor rpc → Type 0
  SlotReached rpc =
      Protocol.Reach (kind rpc).no_request (kind rpc).no_reply (kind rpc).requires_auth verify_token
        (new_slot rpc)

  -- An object, at its address.
  pub record Object : Type 0 where
    pub rpc : Rpc
    pub tag : ℕ
    pub slot : SlotFor rpc

  -- The objects whose first requests are registered.
  abbrev pub waiting : List (Rpc × ℕ) → List Object
  waiting [] = []
  waiting (x ∷ xs) = record { rpc = x.0; tag = x.1; slot = new_slot x.0 } ∷ waiting xs

  abbrev pub at_slot : (rpc : Rpc) → ℕ → SlotFor rpc → Object
  at_slot rpc tag slot = record { rpc = rpc; tag = tag; slot = slot }

  -- One object takes a step.
  pub data Step : List Object → List Object → Type 0 where
    this :
        {rpc : Rpc} {s t : SlotFor rpc} {objects : List Object} (tag : ℕ)
        → SlotStep rpc s t
        → Step (at_slot rpc tag s ∷ objects) (at_slot rpc tag t ∷ objects)
    later :
        {objects after : List Object} (o : Object)
        → Step objects after
        → Step (o ∷ objects) (o ∷ after)

  pub data Reach (objects : List Object) : List Object → Type 0 where
    at_once : Reach objects objects
    and_then : {t u : List Object} → Reach objects t → Step t u → Reach objects u
