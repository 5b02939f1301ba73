-- ===== src/Adapter/Authentication.antt =====
-- CallData::PerformAuthentication of UserService/adapter/v2/call_data/interface/call_data.hpp.
use Prim.Native.String.{◌++◌, len, slice}
use photon_commerce.Base.{
  String, Option, none, some, List, [], ◌∷◌, ◌≡◌, refl, ◌↔◌, arith, if◌then◌else◌, Expected, value,
  unexpected,
}
use photon_commerce.Service.Utilities.{JwtError}
use text.Mathlib.Text.{starts_with, ◌==◌ as str_eq}
use text.Mathlib.TextPositions.{starts_with-append, slice-append_right, len-append}

pub data StatusCode : Type 0 where
  ok unauthenticated internal : StatusCode

pub record GrpcStatus : Type 0 where
  pub code : StatusCode
  pub message : String

abbrev pub failed : StatusCode → String → GrpcStatus
failed code message = record { code = code; message = message }

-- The metadata of a call, keys in lower case; `find` takes the first entry of a key.
unfoldable pub find : String → List (String × String) → Option String
find key [] = none
find key ((k, v) ∷ rest) = if str_eq k key then some v else find key rest

-- `remove_prefix(7)` where the text starts with "Bearer ".
unfoldable pub strip_bearer : String → String
strip_bearer text = if starts_with text "Bearer " then slice text 7 (len text) else text

abbrev checked : Expected String JwtError → Expected String GrpcStatus
checked (unexpected e) = unexpected (failed unauthenticated "Invalid Token")
checked (value user_id) = value user_id

module _ (verify_token : String → Expected String JwtError) where
  verify_header : Option String → Expected String GrpcStatus
  verify_header none = unexpected (failed unauthenticated "Missing Authorization Header")
  verify_header (some text) = checked (verify_token (strip_bearer text))

  unfoldable pub perform_authentication : List (String × String) → Expected String GrpcStatus
  unfolding verify_header
  perform_authentication metadata = verify_header (find "authorization" metadata)

  checked-value :
      (r : Expected String JwtError) (user_id : String)
      → checked r ≡ value user_id
      → r ≡ value user_id
  checked-value (unexpected e) user_id h = cc
  checked-value (value id) user_id h = cc

  verify_header-value :
      (header : Option String) (user_id : String)
      → verify_header header ≡ value user_id
      → (text : String) × (header ≡ some text) × (verify_token (strip_bearer text) ≡ value user_id)
  unfolding verify_header
  verify_header-value none user_id h = cc
  verify_header-value (some text) user_id h = (text, refl, checked-value _ user_id h)

  verify_header-status :
      (header : Option String) (e : GrpcStatus)
      → verify_header header ≡ unexpected e
      → e.code ≡ unauthenticated
  unfolding verify_header
  verify_header-status none e h = ground arith
  verify_header-status (some text) e h = ground arith

  -- Authentication yields a user id exactly when the call has an authorization header whose text,
  -- less a leading "Bearer ", is a token that verifies to that id.
  pub perform_authentication_iff :
      (metadata : List (String × String)) (user_id : String)
      → (perform_authentication metadata ≡ value user_id) ↔ (
          (text : String) × (find "authorization" metadata ≡ some text)
          × (verify_token (strip_bearer text) ≡ value user_id))
  unfolding perform_authentication
  perform_authentication_iff metadata user_id = (
    verify_header-value (find "authorization" metadata) user_id,
    (λ (text, found, good). rw (found, verify_header, good)),
  )

  -- Every refusal has the status UNAUTHENTICATED.
  pub perform_authentication-status :
      (metadata : List (String × String)) (e : GrpcStatus)
      → perform_authentication metadata ≡ unexpected e
      → e.code ≡ unauthenticated
  unfolding perform_authentication
  perform_authentication-status metadata = verify_header-status (find "authorization" metadata)

strip_bearer-append : (token : String) → strip_bearer ("Bearer " ++ token) ≡ token
unfolding strip_bearer
strip_bearer-append token =
    rw (starts_with-append "Bearer " token, len-append "Bearer " token)
      (slice-append_right "Bearer " token)

-- A call that sends "Bearer " and a token is authenticated just as that token verifies.
pub perform_authentication-bearer :
    (verify_token : String → Expected String JwtError) (token user_id : String)
    (rest : List (String × String))
    → verify_token token ≡ value user_id
    → perform_authentication verify_token (("authorization", "Bearer " ++ token) ∷ rest)
      ≡ value user_id
unfolding perform_authentication find
perform_authentication-bearer verify_token token user_id rest good =
    rw (strip_bearer-append token, good)
