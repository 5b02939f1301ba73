-- ===== src/Adapter/CallData/Protocol.antt =====
-- One slot among its environment: gRPC delivers a request or reports a shut-down, the logic ends,
-- and gRPC reports that a reply was sent.
use photon_commerce.Base.{
  ℕ, String, Option, Bool, true, false, List, [], ◌≡◌, refl, sym, ◌+◌, arith, Expected, value,
  unexpected, Exception, subst,
}
use photon_commerce.Adapter.Authentication.{GrpcStatus, perform_authentication}
use photon_commerce.Adapter.CallData.{
  State, wait_processing, finished, CallData, Action, register, finish, spawn, handle_finish,
  handle_process, on_logic_finished, authenticated, proceed, handle_status,
}
use photon_commerce.Service.Utilities.{JwtError}

module _ {Request Response : Type 0} (no_request : Request) (no_reply : Response)
    (requires_auth : Bool) (verify_token : String → Expected String JwtError) where
  -- The slot, its operation that is under way, and two counts for the specification: the requests
  -- that were delivered and the replies that were handed to gRPC.
  pub record Slot : Type 0 where
    pub call : CallData Request Response
    pub pending : Action Response
    pub delivered : ℕ
    pub replied : ℕ

  abbrev replies : Action Response → ℕ
  replies register = 0
  replies (finish _ _) = 1
  replies (spawn _) = 0

  -- The slot after `out`, what `proceed` or `on_logic_finished` returned.
  abbrev pub after : Slot → ℕ → CallData Request Response × Action Response → Slot
  after s new out = record {
    call = out.0;
    pending = out.1;
    delivered = s.delivered + new;
    replied = s.replied + replies out.1;
  }

  -- gRPC writes the request and the metadata into the slot before it delivers the event.
  abbrev pub filled : Slot → Request → List (String × String) → CallData Request Response
  filled s request metadata = record s.call { request = request; metadata = metadata }

  abbrev pub proceed_slot :
      Bool → CallData Request Response → CallData Request Response × Action Response
  proceed_slot = proceed no_request no_reply requires_auth verify_token

  pub data Step (s : Slot) : Slot → Type 0 where
    deliver :
        (request : Request) (metadata : List (String × String))
        → s.pending ≡ register
        → Step s (after s 1 (proceed_slot true (filled s request metadata)))
    shut_down : s.pending ≡ register → Step s (after s 0 (proceed_slot false s.call))
    logic_ends :
        (user_id : String) (reply : Response) (e : Option Exception)
        → s.pending ≡ spawn user_id
        → Step s (
            after s 0 (
              record s.call { reply = reply },
              on_logic_finished no_request no_reply e (record s.call { reply = reply }),
            ))
    sent :
        (ok : Bool) (status : GrpcStatus) (reply : Response)
        → s.pending ≡ finish status reply
        → Step s (after s 0 (proceed_slot ok s.call))

  pub data Reach (s : Slot) : Slot → Type 0 where
    here : Reach s s
    next : {t u : Slot} → Reach s t → Step t u → Reach s u

  -- As the constructor leaves it, and `Start` registers it.
  abbrev pub start : Slot
  start = record {
    call = record {
      status = wait_processing;
      request = no_request;
      reply = no_reply;
      metadata = [];
    };
    pending = register;
    delivered = 0;
    replied = 0;
  }

  abbrev IsClean : CallData Request Response → Type 0
  IsClean c =
      (c.status ≡ wait_processing)
      × (c.request ≡ no_request)
      × (c.reply ≡ no_reply)
      × (c.metadata ≡ [])

  -- What the operation under way says about the slot.
  abbrev pub IsConsistent : Action Response → CallData Request Response → ℕ → ℕ → Type 0
  IsConsistent register c delivered replied = IsClean c × (delivered ≡ replied)
  IsConsistent (spawn _) c delivered replied =
      (c.status ≡ finished) × (c.reply ≡ no_reply) × (delivered ≡ replied + 1)
  IsConsistent (finish _ reply) c delivered replied =
      (c.status ≡ finished) × (c.reply ≡ reply) × (delivered ≡ replied)

  abbrev pub Inv : Slot → Type 0
  Inv s = IsConsistent s.pending s.call s.delivered s.replied

  authenticated-Inv :
      (r : Expected String GrpcStatus) (s : Slot) (c : CallData Request Response)
      → c.reply ≡ no_reply
      → s.delivered ≡ s.replied
      → Inv (after s 1 (authenticated no_request no_reply requires_auth verify_token r c))
  unfolding authenticated
  authenticated-Inv (unexpected e) s c clean same = (refl, refl, omega arith)
  authenticated-Inv (value user_id) s c clean same = (refl, clean, omega arith)

  spawned :
      (r : Expected String GrpcStatus) (c : CallData Request Response) (user_id : String)
      → (authenticated no_request no_reply requires_auth verify_token r c).1 ≡ spawn user_id
      → r ≡ value user_id
  unfolding authenticated
  spawned (unexpected e) c user_id h = cc
  spawned (value id) c user_id h = cc

  finish-Inv :
      (s : Slot)
      → s.delivered ≡ s.replied
      → Inv (after s 0 (handle_finish no_request no_reply s.call))
  unfolding handle_finish
  finish-Inv s same = ((refl, refl, refl, refl), omega arith)

  -- The invariant at the operation that is under way.
  pub at_pending :
      (s : Slot) (a : Action Response)
      → s.pending ≡ a
      → Inv s
      → IsConsistent a s.call s.delivered s.replied
  at_pending s a e v = subst (λ x. IsConsistent x s.call s.delivered s.replied) e v

  handled : State → CallData Request Response → CallData Request Response × Action Response
  handled = handle_status no_request no_reply requires_auth verify_token

  Step-Inv : {s t : Slot} → Step s t → Inv s → Inv t
  unfolding proceed handle_process handle_status handled on_logic_finished
  Step-Inv {s} (deliver request metadata e) v =
      let (clean, same) = at_pending s register e v in
      subst (λ st. Inv (after s 1 (handled st (filled s request metadata)))) (sym clean.0)
        (authenticated-Inv _ s (filled s request metadata) clean.2 same)
  Step-Inv {s} (shut_down e) v = finish-Inv s (at_pending s register e v).1
  Step-Inv {s} (logic_ends user_id reply ex e) v =
      let (status, clean, same) = at_pending s (spawn user_id) e v in (status, refl, omega arith)
  Step-Inv {s} (sent true status reply e) v =
      let (done, same_reply, same) = at_pending s (finish status reply) e v in
      subst (λ st. Inv (after s 0 (handled st s.call))) (sym done) (finish-Inv s same)
  Step-Inv {s} (sent false status reply e) v =
      finish-Inv s (at_pending s (finish status reply) e v).2

  Reach-Inv : {s t : Slot} → Reach s t → Inv s → Inv t
  Reach-Inv here v = v
  Reach-Inv (next r st) v = Step-Inv st (Reach-Inv r v)

  -- In every state that a slot reaches: while it is registered it is clean, with an empty request,
  -- reply and metadata, and every delivered request has been replied to; while its logic runs it
  -- is FINISHED with an empty reply, and exactly one delivered request is open; while a reply is
  -- being sent it is FINISHED, holds that reply, and no delivered request is open.
  pub Reach-start-Inv : {s : Slot} → Reach start s → Inv s
  Reach-start-Inv r = Reach-Inv r ((refl, refl, refl, refl), refl)

  -- Business logic starts only for a request that authentication let through: if a delivered
  -- request starts the logic of an RPC that requires authentication, the logic runs for the user
  -- id to which the request's own metadata authenticates.
  pub deliver-spawn :
      (s : Slot) (request : Request) (metadata : List (String × String)) (user_id : String)
      → requires_auth ≡ true
      → Reach start s
      → s.pending ≡ register
      → (proceed_slot true (filled s request metadata)).1 ≡ spawn user_id
      → perform_authentication verify_token metadata ≡ value user_id
  unfolding proceed handle_process handle_status handled
  deliver-spawn s request metadata user_id auth r e h =
      let (clean, same) = at_pending s register e (Reach-start-Inv r) in
      spawned (perform_authentication verify_token metadata) (filled s request metadata) user_id (
        rw (auth, handle_status, handle_process) at
          (subst (λ st. (handled st (filled s request metadata)).1 ≡ spawn user_id) clean.0 h))
