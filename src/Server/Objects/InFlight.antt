-- ===== src/Server/Objects/InFlight.antt =====
-- How many calls are under way.
use photon_commerce.Base.{
  ℕ, String, Bool, List, [], ◌∷◌, ◌≡◌, refl, sym, ap, ◌∙◌, ◌+◌, ◌≤◌, ◌<◌, ◌^◌, arith, if◌then◌else◌,
  Expected, All, ret,
}
use photon_commerce.Adapter.CallData.{Action, register, finish, spawn}
use photon_commerce.Adapter.CallData.Protocol as Protocol
use photon_commerce.Adapter.CallData.Protocol.{Slot, Reach-start-Inv, at_pending}
use photon_commerce.Adapter.Manager.{Rpc, CallDataManager, Queue}
use photon_commerce.Config.{load_config}
use photon_commerce.Config.Settings.{AppConfig, YamlLib}
use photon_commerce.Server.Objects.{
  kind, SlotReached, Object, waiting, Step, this, later, Reach, at_once, and_then,
}
use photon_commerce.Server.Seeding.{Dependencies, seed_call_data}
use photon_commerce.Server.Seeding.Blocks.{IsWired, limit, same_rpc, requested}
use photon_commerce.Server.Seeding.Limits.{new_queue, seed_call_data-limits}
use photon_commerce.Service.Auth.{AuthService}
use photon_commerce.Service.BasicUser.{BasicUserService}
use photon_commerce.Service.Utilities.{JwtError}

module _ {S : Type 0} (auth : AuthService S) (basic : BasicUserService S)
    (verify_token : String → Expected String JwtError) where
  abbrev pub ServerObject : Type 0
  ServerObject = Object auth basic verify_token

  abbrev pub IsReached : ServerObject → Type 0
  IsReached o = SlotReached auth basic verify_token o.rpc o.slot

  -- The same addresses and RPCs.
  abbrev pub labels : List ServerObject → List (Rpc × ℕ)
  labels [] = []
  labels (o ∷ os) = (o.rpc, o.tag) ∷ labels os

  waiting-IsReached : (xs : List (Rpc × ℕ)) → All IsReached (waiting auth basic verify_token xs)
  waiting-IsReached [] = tt
  waiting-IsReached (x ∷ xs) = (Protocol.here, waiting-IsReached xs)

  labels-waiting : (xs : List (Rpc × ℕ)) → labels (waiting auth basic verify_token xs) ≡ xs
  labels-waiting [] = refl
  labels-waiting (x ∷ xs) = ap (λ l. x ∷ l) (labels-waiting xs)

  Step-IsReached :
      {os ps : List ServerObject}
      → Step auth basic verify_token os ps
      → All IsReached os
      → All IsReached ps × (labels ps ≡ labels os)
  Step-IsReached (this tag st) (r, rs) = ((Protocol.next r st, rs), refl)
  Step-IsReached (later o st) (r, rs) =
      let (kept, same) = Step-IsReached st rs in ((r, kept), ap (λ l. (o.rpc, o.tag) ∷ l) same)

  -- Every object has come to where it is by its own steps, and keeps its address and its RPC.
  pub Reach-IsReached :
      {xs : List (Rpc × ℕ)} {os : List ServerObject}
      → Reach auth basic verify_token (waiting auth basic verify_token xs) os
      → All IsReached os × (labels os ≡ xs)
  Reach-IsReached {xs} at_once = (waiting-IsReached xs, labels-waiting xs)
  Reach-IsReached (and_then r st) =
      let (kept, same) = Reach-IsReached r in
      let (kept', same') = Step-IsReached st kept in (kept', same' ∙ same)

  -- Of the objects for an RPC: the requests delivered, the replies handed to gRPC, and the calls
  -- whose logic runs.
  abbrev of_rpc : (ServerObject → ℕ) → Rpc → List ServerObject → ℕ
  of_rpc f rpc [] = 0
  of_rpc f rpc (o ∷ os) = (if same_rpc rpc o.rpc then f o else 0) + of_rpc f rpc os

  abbrev is_spawned : {A : Type 0} → Action A → ℕ
  is_spawned register = 0
  is_spawned (finish _ _) = 0
  is_spawned (spawn _) = 1

  abbrev pub delivered : Rpc → List ServerObject → ℕ
  delivered = of_rpc (λ o. o.slot.delivered)

  abbrev pub replied : Rpc → List ServerObject → ℕ
  replied = of_rpc (λ o. o.slot.replied)

  abbrev pub running : Rpc → List ServerObject → ℕ
  running = of_rpc (λ o. is_spawned o.slot.pending)

  balance :
      {A B : Type 0} (no_request : A) (no_reply : B) (requires_auth : Bool) (a : Action B)
      (s : Slot no_request no_reply requires_auth verify_token)
      → s.pending ≡ a
      → Protocol.Reach no_request no_reply requires_auth verify_token
          (Protocol.start no_request no_reply requires_auth verify_token)
          s
      → s.delivered ≡ s.replied + is_spawned a
  balance q p auth_needed register s e r = omega (
    arith,
    (at_pending q p auth_needed verify_token s register e
        (Reach-start-Inv q p auth_needed verify_token r)).1,
  )
  balance q p auth_needed (spawn id) s e r = omega (
    arith,
    (at_pending q p auth_needed verify_token s (spawn id) e
        (Reach-start-Inv q p auth_needed verify_token r)).2,
  )
  balance q p auth_needed (finish status reply) s e r = omega (
    arith,
    (at_pending q p auth_needed verify_token s (finish status reply) e
        (Reach-start-Inv q p auth_needed verify_token r)).2,
  )

  object_balance :
      (o : ServerObject)
      → IsReached o
      → o.slot.delivered ≡ o.slot.replied + is_spawned o.slot.pending
  object_balance o r =
      let k = kind auth basic verify_token o.rpc in
      balance k.no_request k.no_reply k.requires_auth o.slot.pending o.slot refl r

  server_balance :
      (rpc : Rpc) (os : List ServerObject)
      → All IsReached os
      → delivered rpc os ≡ replied rpc os + running rpc os
  server_balance rpc [] v = refl
  server_balance rpc (o ∷ os) (r, rs) = ground (arith, object_balance o r, server_balance rpc os rs)

  is_spawned-le : {A : Type 0} (a : Action A) → is_spawned a ≤ 1
  is_spawned-le register = omega arith
  is_spawned-le (finish status reply) = omega arith
  is_spawned-le (spawn id) = omega arith

  running-requested :
      (rpc : Rpc) (os : List ServerObject) → running rpc os ≤ requested rpc (labels os)
  running-requested rpc [] = omega arith
  running-requested rpc (o ∷ os) =
      ground (arith, is_spawned-le o.slot.pending, running-requested rpc os)

  -- However the calls interleave: from the objects that SeedCallData registers, with the limits of
  -- any configuration that loads and all dependencies set, in every state that the server reaches
  -- by steps of gRPC, of the coroutines and of the workers, and for each RPC, every delivered
  -- request has been replied to or its logic runs, and the logic runs for at most as many calls at
  -- a time as the configuration says; and no object is lost: they are those that were registered.
  pub Reach-running :
      (lib : YamlLib) (hw_conc : ℕ) (members c : AppConfig) (path : String) (d : Dependencies)
      (fresh : ℕ) (managers : List CallDataManager) (after : Queue) (os : List ServerObject)
      (rpc : Rpc)
      → hw_conc < 2 ^ 31
      → load_config lib hw_conc members path ≡ ret c
      → IsWired d
      → seed_call_data c.rpc_limits_config d ([], new_queue fresh) ≡ (ret tt, (managers, after))
      → Reach auth basic verify_token (waiting auth basic verify_token after.requests) os
      → (delivered rpc os ≡ replied rpc os + running rpc os)
        × (running rpc os ≤ limit rpc c.rpc_limits_config)
        × (labels os ≡ after.requests)
  Reach-running lib hw_conc members c path d fresh managers after os rpc fits loaded wired seeded
        r =
      let (kept, same) = Reach-IsReached r in
      let l = seed_call_data-limits lib hw_conc members c path d fresh rpc fits loaded wired in
      let requests : l.1.requests ≡ after.requests = ap (λ o. o.1.1.requests) (sym l.2 ∙ seeded) in
      (
        server_balance rpc os kept,
        omega (
          arith,
          running-requested rpc os,
          ap (requested rpc) same,
          ap (requested rpc) requests,
          l.3,
        ),
        same,
      )
