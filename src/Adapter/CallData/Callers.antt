-- ===== src/Adapter/CallData/Callers.antt =====
-- For whom the logic of a slot runs.
use photon_commerce.Base.{
  String, Bool, true, false, List, ◌≡◌, ◌≢◌, refl, ap, ◌∙◌, Expected, value, unexpected,
}
use photon_commerce.Adapter.Authentication.{GrpcStatus, perform_authentication}
use photon_commerce.Adapter.CallData.{
  State, CallData, Action, register, finish, spawn, handle_finish, handle_process, handle_status,
  on_logic_finished, authenticated, proceed,
}
use photon_commerce.Adapter.CallData.Protocol.{
  Slot, Reach, here, next, Step, deliver, shut_down, logic_ends, sent, start, filled, proceed_slot,
  at_pending, Reach-start-Inv, deliver-spawn,
}
use photon_commerce.Service.Utilities.{JwtError}

module _ {Request Response : Type 0} (no_request : Request) (no_reply : Response)
    (requires_auth : Bool) (verify_token : String → Expected String JwtError) where
  abbrev ThisSlot : Type 0
  ThisSlot = Slot no_request no_reply requires_auth verify_token

  abbrev Reached : ThisSlot → Type 0
  Reached =
      Reach no_request no_reply requires_auth verify_token
        (start no_request no_reply requires_auth verify_token)

  handled : State → CallData Request Response → CallData Request Response × Action Response
  handled = handle_status no_request no_reply requires_auth verify_token

  authenticated-metadata :
      (r : Expected String GrpcStatus) (c : CallData Request Response)
      → (authenticated no_request no_reply requires_auth verify_token r c).0.metadata ≡ c.metadata
  unfolding authenticated
  authenticated-metadata (unexpected e) c = refl
  authenticated-metadata (value user_id) c = refl

  deliver-metadata :
      (s : ThisSlot) (request : Request) (metadata : List (String × String))
      → Reached s
      → s.pending ≡ register
      → (proceed_slot no_request no_reply requires_auth verify_token true
          (filled no_request no_reply requires_auth verify_token s request metadata)).0.metadata
        ≡ metadata
  unfolding proceed handle_process handle_status handled
  deliver-metadata s request metadata r e =
      let c = filled no_request no_reply requires_auth verify_token s request metadata in
      let (clean, same) =
        at_pending no_request no_reply requires_auth verify_token s register e
          (Reach-start-Inv no_request no_reply requires_auth verify_token r) in
      ap (λ st. (handled st c).0.metadata) clean.0 ∙ authenticated-metadata _ c

  finished-proceed :
      (s : ThisSlot) (status : GrpcStatus) (reply : Response) (ok : Bool)
      → Reached s
      → s.pending ≡ finish status reply
      → (proceed_slot no_request no_reply requires_auth verify_token ok s.call).1 ≡ register
  unfolding proceed handle_status handle_finish handled
  finished-proceed s status reply false r e = refl
  finished-proceed s status reply true r e =
      ap (λ st. (handled st s.call).1)
        (at_pending no_request no_reply requires_auth verify_token s (finish status reply) e
          (Reach-start-Inv no_request no_reply requires_auth verify_token r)).0

  register_no_spawn :
      {A : Type 0} {a : Action A} {user_id : String} → a ≡ register → a ≢ spawn user_id
  register_no_spawn e h = cc

  Step-authenticated :
      {s t : ThisSlot} (user_id : String)
      → requires_auth ≡ true
      → Reached s
      → Step no_request no_reply requires_auth verify_token s t
      → t.pending ≡ spawn user_id
      → perform_authentication verify_token t.call.metadata ≡ value user_id
  unfolding proceed handle_finish on_logic_finished
  Step-authenticated {s} user_id auth r (deliver request metadata e) h =
      ap (perform_authentication verify_token) (deliver-metadata s request metadata r e)
      ∙ deliver-spawn no_request no_reply requires_auth verify_token s request metadata user_id auth
          r e h
  Step-authenticated user_id auth r (shut_down e) h = cc
  Step-authenticated user_id auth r (logic_ends id reply ex e) h = cc
  Step-authenticated {s} user_id auth r (sent ok status reply e) h =
      absurd (register_no_spawn (finished-proceed s status reply ok r e) h)

  -- While the logic of a slot runs for a user id, the request's metadata is still in the slot, and
  -- it authenticates to that id.
  pub spawn-authenticated :
      {s : ThisSlot} (user_id : String)
      → requires_auth ≡ true
      → Reached s
      → s.pending ≡ spawn user_id
      → perform_authentication verify_token s.call.metadata ≡ value user_id
  spawn-authenticated user_id auth here h = cc
  spawn-authenticated user_id auth (next r st) h = Step-authenticated user_id auth r st h
