-- ===== src/Adapter/CallData/Calls.antt =====
-- A whole call, from the request that gRPC delivers to the reply that it is handed: HandleProcess,
-- the coroutine of `RunLogic` that it spawns, and OnLogicFinished, of
-- UserService/adapter/v2/call_data/interface/call_data.hpp.
use photon_commerce.Base.{
  ℕ, String, Option, none, some, Bool, true, false, List, ◌≡◌, refl, sym, ap, ◌+◌, arith,
  if◌then◌else◌, Expected, value, unexpected, Exception, Outcome, ret, thrown, Await, subst,
}
use photon_commerce.Adapter.Authentication.{GrpcStatus, perform_authentication}
use photon_commerce.Adapter.CallData.{
  State, wait_processing, CallData, Action, register, finish, spawn, on_logic_finished, status_of,
  proceed, handle_process, handle_finish, handle_status, authenticated,
}
use photon_commerce.Adapter.CallData.Protocol.{
  Slot, Reach, next, deliver, logic_ends, start, after, filled, proceed_slot, Reach-start-Inv,
  at_pending, IsConsistent,
}
use photon_commerce.Service.Utilities.{JwtError}

-- The `std::exception_ptr` with which a coroutine ends.
abbrev pub exception_of : Outcome (Unit {0}) → Option Exception
exception_of (ret _) = none
exception_of (thrown e) = some e

module _ {Request Response S : Type 0} (no_request : Request) (no_reply : Response)
    (requires_auth : Bool) (verify_token : String → Expected String JwtError)
    (logic : Request → String → Await (Response × S) (Unit {0})) where
  abbrev pub CallSlot : Type 0
  CallSlot = Slot no_request no_reply requires_auth verify_token

  abbrev pub first : CallSlot
  first = start no_request no_reply requires_auth verify_token

  abbrev pub Reached : CallSlot → Type 0
  Reached = Reach no_request no_reply requires_auth verify_token first

  abbrev pub next_slot : CallSlot → ℕ → CallData Request Response × Action Response → CallSlot
  next_slot = after no_request no_reply requires_auth verify_token

  -- `RunLogic`, which leaves its reply in the slot.
  unfoldable pub run_logic :
      String → CallData Request Response → S → (CallData Request Response × Option Exception) × S
  run_logic user_id c w =
      let out = logic c.request user_id (c.reply, w) in
      ((record c { reply = out.1.0 }, exception_of out.0), out.1.1)

  abbrev ended : CallSlot → CallData Request Response × Option Exception → CallSlot
  ended s out = next_slot s 0 (out.0, on_logic_finished no_request no_reply out.1 out.0)

  -- What becomes of the action of HandleProcess.
  complete : Action Response → CallSlot → S → CallSlot × S
  unfolding run_logic
  complete register s w = (s, w)
  complete (finish status reply) s w = (s, w)
  complete (spawn user_id) s w = let out = run_logic user_id s.call w in (ended s out.0, out.1)

  abbrev delivered : CallSlot → Request → List (String × String) → CallSlot
  delivered s request metadata = next_slot s 1 (
      proceed_slot no_request no_reply requires_auth verify_token true
        (filled no_request no_reply requires_auth verify_token s request metadata))

  -- A request is delivered to the slot, and its call runs until a reply is handed to gRPC.
  unfoldable pub serve : CallSlot → Request → List (String × String) → S → CallSlot × S
  unfolding complete
  serve s request metadata w =
      complete (delivered s request metadata).pending (delivered s request metadata) w

  -- For whom a call runs: anyone, with no user id, where the RPC requires no authentication.
  abbrev pub caller : List (String × String) → Expected String GrpcStatus
  caller metadata = if requires_auth then perform_authentication verify_token metadata else value ""

  -- The reply that a call should get, with its status, and the state it leaves behind.
  abbrev pub Answer : Type 0
  Answer = (GrpcStatus × Response) × S

  abbrev pub answer_for : Expected String GrpcStatus → Request → S → Answer
  answer_for (unexpected e) request w = ((e, no_reply), w)
  answer_for (value user_id) request w =
      let out = logic request user_id (no_reply, w) in
      ((status_of (exception_of out.0), out.1.0), out.1.1)

  abbrev pub answer : Request → List (String × String) → S → Answer
  answer request metadata = answer_for (caller metadata) request

  -- A slot that is sending this reply, and is as new once that is sent or has failed.
  abbrev pub Replies : CallSlot → GrpcStatus → Response → Type 0
  Replies t status reply = (t.pending ≡ finish status reply) × (t.call.reply ≡ reply)

  handed : State → CallData Request Response → CallData Request Response × Action Response
  handed = handle_status no_request no_reply requires_auth verify_token

  Served : CallSlot → CallSlot × S → Answer → Type 0
  Served s out a =
      Reached out.0
      × Replies out.0 a.0.0 a.0.1
      × (out.0.delivered ≡ s.delivered + 1)
      × (out.0.replied ≡ s.replied + 1)
      × (out.1 ≡ a.1)

  abbrev sent_for : Outcome (Unit {0}) × (Response × S) → Action Response
  sent_for out = finish (status_of (exception_of out.0)) out.1.0

  authenticated_slot :
      CallSlot → Request → List (String × String) → Expected String GrpcStatus → CallSlot
  authenticated_slot s request metadata r = next_slot s 1 (
      authenticated no_request no_reply requires_auth verify_token r
        (filled no_request no_reply requires_auth verify_token s request metadata))

  delivered-authenticated :
      (s : CallSlot) (request : Request) (metadata : List (String × String))
      → s.call.status ≡ wait_processing
      → delivered s request metadata ≡ authenticated_slot s request metadata (caller metadata)
  unfolding proceed handle_process handle_status authenticated_slot handed
  delivered-authenticated s request metadata ready =
      ap
        (λ st.
          next_slot s 1
            (handed st (filled no_request no_reply requires_auth verify_token s request metadata)))
        ready

  complete-Served :
      (s : CallSlot) (request : Request) (metadata : List (String × String)) (w : S)
      (r : Expected String GrpcStatus)
      → s.call.reply ≡ no_reply
      → s.delivered ≡ s.replied
      → let t = authenticated_slot s request metadata r in
        Reached t → Served s (complete t.pending t w) (answer_for r request w)
  unfolding authenticated_slot authenticated complete run_logic Served on_logic_finished
  complete-Served s request metadata w (unexpected e) clean same reached =
      (reached, (ap (finish e) clean, clean), omega arith, omega arith, refl)
  complete-Served s request metadata w (value id) clean same reached =
      let out = logic request id (s.call.reply, w) in
      (
        next reached (logic_ends id out.1.0 (exception_of out.0) refl),
        (
          ap (λ x. (sent_for (logic request id (x, w)))) clean,
          ap (λ x. (logic request id (x, w)).1.0) clean,
        ),
        omega arith,
        omega arith,
        ap (λ x. (logic request id (x, w)).1.1) clean,
      )

  slot_at :
      (s : CallSlot) (a : Action Response)
      → Reached s
      → s.pending ≡ a
      → IsConsistent no_request no_reply requires_auth verify_token a s.call s.delivered s.replied
  slot_at s a r e =
      at_pending no_request no_reply requires_auth verify_token s a e
        (Reach-start-Inv no_request no_reply requires_auth verify_token r)

  proceed_slot-first :
      (t : CallSlot) (status : GrpcStatus) (reply : Response) (ok : Bool)
      → Reached t
      → t.pending ≡ finish status reply
      → proceed_slot no_request no_reply requires_auth verify_token ok t.call
        ≡ (first.call, register)
  unfolding proceed handle_status handle_finish handed
  proceed_slot-first t status reply false r e = refl
  proceed_slot-first t status reply true r e =
      ap (λ st. handed st t.call) (slot_at t (finish status reply) r e).0

  serve-Served :
      (s : CallSlot) (request : Request) (metadata : List (String × String)) (w : S)
      → Reached s
      → s.pending ≡ register
      → Served s (serve s request metadata w) (answer request metadata w)
  unfolding serve
  serve-Served s request metadata w r e =
      let (clean, same) = slot_at s register r e in
      let known = delivered-authenticated s request metadata clean.0 in
      subst (λ t. Served s (complete t.pending t w) (answer request metadata w)) (sym known)
        (complete-Served s request metadata w (caller metadata) clean.2 same
          (subst Reached known (next r (deliver request metadata e))))

  -- Every call is answered as it should be, whatever the slot served before: where gRPC delivers a
  -- request to a slot that has come to be registered, and the logic of the call runs to its end,
  -- one more reply is handed to gRPC for the one request more, that of the call's specification
  -- (the refusal with an empty reply and the state untouched where authentication fails, and
  -- otherwise what the logic makes of an empty reply for the authenticated user id, with OK, or
  -- with INTERNAL where it throws); and once the reply is sent or has failed, the slot is
  -- registered again just as it was constructed.
  pub serve-answer :
      (s : CallSlot) (request : Request) (metadata : List (String × String)) (w : S) (sent : Bool)
      → Reached s
      → s.pending ≡ register
      → let out = serve s request metadata w in
        let a = answer request metadata w in
        Reached out.0
        × (out.0.pending ≡ finish a.0.0 a.0.1)
        × (out.0.delivered ≡ s.delivered + 1)
        × (out.0.replied ≡ s.replied + 1)
        × (out.1 ≡ a.1)
        × (proceed_slot no_request no_reply requires_auth verify_token sent out.0.call
            ≡ (first.call, register))
  unfolding Served
  serve-answer s request metadata w sent r e =
      let a = answer request metadata w in
      let (reached, replies, one, other, kept) = serve-Served s request metadata w r e in
      (
        reached,
        replies.0,
        one,
        other,
        kept,
        proceed_slot-first (serve s request metadata w).0 a.0.0 a.0.1 sent reached replies.0,
      )
