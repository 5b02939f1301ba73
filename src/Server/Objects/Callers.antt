-- ===== src/Server/Objects/Callers.antt =====
-- For whom the logic of the server's calls runs.
use photon_commerce.Base.{
  ℕ, String, some, true, List, ◌≡◌, Expected, value, All-get_elem?, get_elem?,
}
use photon_commerce.Adapter.Authentication.{perform_authentication}
use photon_commerce.Adapter.CallData.{spawn}
use photon_commerce.Adapter.CallData.Callers.{spawn-authenticated}
use photon_commerce.Adapter.Manager.{Rpc}
use photon_commerce.Server.Objects.{kind, waiting, Reach}
use photon_commerce.Server.Objects.InFlight.{ServerObject, IsReached, Reach-IsReached}
use photon_commerce.Service.Auth.{AuthService}
use photon_commerce.Service.BasicUser.{BasicUserService}
use photon_commerce.Service.Utilities.{JwtError}

module _ {S : Type 0} (auth : AuthService S) (basic : BasicUserService S)
    (verify_token : String → Expected String JwtError) where
  -- However the calls of the server interleave: whenever the logic of an RPC that requires
  -- authentication runs for a user id, the metadata of the very request that its object serves
  -- authenticates to that id.
  pub Reach-authenticated :
      (xs : List (Rpc × ℕ)) (os : List (ServerObject auth basic verify_token)) (i : ℕ)
      (o : ServerObject auth basic verify_token) (user_id : String)
      → Reach auth basic verify_token (waiting auth basic verify_token xs) os
      → get_elem? os i ≡ some o
      → (kind auth basic verify_token o.rpc).requires_auth ≡ true
      → o.slot.pending ≡ spawn user_id
      → perform_authentication verify_token o.slot.call.metadata ≡ value user_id
  Reach-authenticated xs os i o user_id r e needs h =
      let k = kind auth basic verify_token o.rpc in
      spawn-authenticated k.no_request k.no_reply k.requires_auth verify_token user_id needs
        (All-get_elem? (IsReached auth basic verify_token) os i o
          (Reach-IsReached auth basic verify_token r).0 e)
        h
