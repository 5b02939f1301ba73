-- ===== src/Adapter/Rpcs/Sessions.antt =====
-- Who gets to see whom: a call of GetUserInfo from its delivery to its reply, after a login or not.
use photon_commerce.Base.{
  String, Option, none, some, true, List, ◌≡◌, refl, sym, ap, ◌∙◌, ◌↔◌, inl, inr, arith, Expected,
  value, unexpected, ret, Outcome-cases,
}
use photon_commerce.Domain.User.{User}
use photon_commerce.Domain.Repositories.{DbError}
use photon_commerce.Service.BasicUser.{BasicUserService, get_user_info}
use photon_commerce.Service.Utilities.{JwtError}
use photon_commerce.Adapter.Authentication.{
  GrpcStatus, find, strip_bearer, perform_authentication, perform_authentication_iff,
}
use photon_commerce.Adapter.CallData.{Action, register, finish}
use photon_commerce.Adapter.CallData.Calls.{
  CallSlot, Reached, serve, answer, answer_for, serve-answer,
}
use photon_commerce.Adapter.Handlers.{GetUserInfoReply, UserMessage, run_get_user_info}
use photon_commerce.Adapter.Handlers.Replies.{shown, shown?, run_get_user_info-shown}
use photon_commerce.Adapter.Rpcs.{SpecificCallData, get_user_info_call_data}

module _ {S : Type 0} (k : SpecificCallData S)
    (verify_token : String → Expected String JwtError) where
  abbrev pub SlotOf : Type 0
  SlotOf = CallSlot k.no_request k.no_reply k.requires_auth verify_token k.run_specific_logic

  -- A slot that has come to be registered with the queue.
  pub record IsWaiting (s : SlotOf) : Type 0 where
    pub reached :
        Reached k.no_request k.no_reply k.requires_auth verify_token k.run_specific_logic s
    pub registered : s.pending ≡ register

  abbrev pub serve_with : SlotOf → k.Request → List (String × String) → S → SlotOf × S
  serve_with = serve k.no_request k.no_reply k.requires_auth verify_token k.run_specific_logic

  abbrev pub answer_with : k.Request → List (String × String) → S → (GrpcStatus × k.Response) × S
  answer_with = answer k.no_request k.no_reply k.requires_auth verify_token k.run_specific_logic

  pub serve_with-answer :
      (s : SlotOf) (request : k.Request) (metadata : List (String × String)) (w : S)
      → IsWaiting s
      → let a = answer_with request metadata w in
        (serve_with s request metadata w).0.pending ≡ finish a.0.0 a.0.1
  serve_with-answer s request metadata w v =
      (serve-answer k.no_request k.no_reply k.requires_auth verify_token k.run_specific_logic s
        request metadata w true v.reached v.registered).1

  pub serve_with-state :
      (s : SlotOf) (request : k.Request) (metadata : List (String × String)) (w : S)
      → IsWaiting s
      → (serve_with s request metadata w).1 ≡ (answer_with request metadata w).1
  serve_with-state s request metadata w v =
      (serve-answer k.no_request k.no_reply k.requires_auth verify_token k.run_specific_logic s
        request metadata w true v.reached v.registered).4

module _ {S : Type 0} (basic : BasicUserService S)
    (verify_token : String → Expected String JwtError) where
  abbrev info : SpecificCallData S
  info = get_user_info_call_data basic

  -- The user of the reply to a caller.
  reply_to : Expected String GrpcStatus → S → Option UserMessage
  reply_to r w =
      (answer_for info.no_request info.no_reply true verify_token info.run_specific_logic r tt
        w).0.1.user

  shown?-some :
      (found : Expected (Option User) DbError) (m : UserMessage)
      → shown? found ≡ some m
      → (user : User) × (found ≡ value (some user)) × (m ≡ shown user)
  shown?-some (unexpected e) m h = cc
  shown?-some (value none) m h = cc
  shown?-some (value (some user)) m h = (user, refl, cc)

  abbrev Found : String → S → UserMessage → Type 0
  Found user_id w m =
      (user : User) × ((basic.user_repository.get_user_by_id user_id w).0 ≡ ret (value (some user)))
      × (m ≡ shown user)

  logic-Found :
      (user_id : String) (w : S) (m : UserMessage)
      → reply_to (value user_id) w ≡ some m
      → Found user_id w m
  unfolding reply_to run_get_user_info get_user_info
  logic-Found user_id w m h =
      elim (Outcome-cases (basic.user_repository.get_user_by_id user_id w).0) [
        | inl (found, e) ↦
            let (user, is_user, same) =
              shown?-some found m (sym (run_get_user_info-shown basic user_id w found e).1 ∙ h) in
            (user, e ∙ ap ret is_user, same)
        | inr (ex, e) ↦ ground (arith, e, h)
      ]

  -- The caller holds a token for a user, and this is how that user is shown.
  pub record IsEntitled (metadata : List (String × String)) (w : S) (m : UserMessage) : Type 0 where
    pub token : String
    pub user_id : String
    pub sent : find "authorization" metadata ≡ some token
    pub verified : verify_token (strip_bearer token) ≡ value user_id
    pub found : Found user_id w m

  reply_to-IsEntitled :
      (metadata : List (String × String)) (w : S) (m : UserMessage) (r : Expected String GrpcStatus)
      → perform_authentication verify_token metadata ≡ r
      → reply_to r w ≡ some m
      → IsEntitled metadata w m
  unfolding reply_to
  reply_to-IsEntitled metadata w m (unexpected e) auth h = cc
  reply_to-IsEntitled metadata w m (value user_id) auth h =
      let (token, sent, verified) =
        (perform_authentication_iff verify_token metadata user_id).0 auth in
      record {
        token = token;
        user_id = user_id;
        sent = sent;
        verified = verified;
        found = logic-Found user_id w m h;
      }

  IsEntitled-reply_to :
      (metadata : List (String × String)) (w : S) (m : UserMessage)
      → IsEntitled metadata w m
      → reply_to (perform_authentication verify_token metadata) w ≡ some m
  unfolding reply_to run_get_user_info
  IsEntitled-reply_to metadata w m v =
      let (user, found, same) = v.found in
      let auth =
        (perform_authentication_iff verify_token metadata v.user_id).1
          (v.token, v.sent, v.verified) in
      ap (λ r. reply_to r w) auth
      ∙ (run_get_user_info-shown basic v.user_id w (value (some user)) found).1
      ∙ ap some (sym same)

  reply_of_finish :
      {status status' : GrpcStatus} {reply reply' : GetUserInfoReply}
      → ◌≡◌ {A = Action GetUserInfoReply} (finish status reply) (finish status' reply')
      → reply ≡ reply'
  reply_of_finish e = cc

  -- A slot is handing over a reply that shows this user.
  pub record Shows (s : SlotOf info verify_token) (m : UserMessage) : Type 0 where
    pub status : GrpcStatus
    pub reply : GetUserInfoReply
    pub handed : s.pending ≡ finish status reply
    pub shows : reply.user ≡ some m

  -- GetUserInfo, from the delivery of a request to a slot that has come to be registered until its
  -- reply is handed to gRPC, shows exactly the users it should: it shows a user if and only if the
  -- call sends a token that verifies to a user id for which the look-up finds a user whose public
  -- part is the one shown.
  pub serve-Shows_iff :
      (s : SlotOf info verify_token) (metadata : List (String × String)) (w : S) (m : UserMessage)
      → IsWaiting info verify_token s
      → Shows (serve_with info verify_token s tt metadata w).0 m ↔ IsEntitled metadata w m
  unfolding reply_to
  serve-Shows_iff s metadata w m v =
      let handed = serve_with-answer info verify_token s tt metadata w v in
      (
        (λ sh.
            reply_to-IsEntitled metadata w m (perform_authentication verify_token metadata) refl
              (ap (λ r. r.user) (reply_of_finish (sym handed ∙ sh.handed)) ∙ sh.shows)),
        (λ en. record {
          status = (answer_with info verify_token tt metadata w).0.0;
          reply = (answer_with info verify_token tt metadata w).0.1;
          handed = handed;
          shows = IsEntitled-reply_to metadata w m en;
        }),
      )
