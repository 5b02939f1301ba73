-- ===== src/Redis/Replies.antt =====
-- How RedisClient reads replies, and which exceptions leave it.
use photon_commerce.Base.{
  ℕ, String, Option, none, some, List, ◌≡◌, refl, ◌↔◌, ◌⊎◌, inl, inr, arith, Expected, value,
  unexpected, ret, thrown, Exception, std_exception, unknown_exception, handle-thrown,
  Outcome-cases, [], ◌∷◌,
}
use photon_commerce.Base.Int.{ℤ}
use photon_commerce.Redis.{
  Node, RespType, blob_string, simple_string, null, simple_error, blob_error, other, RedisLib,
  RedisState, RedisErrorType, system_error, command_error, protocol_error, RedisError,
  extract_result, extract_node, get, set_expiring, send_get, send_set, read_failed, store_failed,
  ping, pong, not_pong,
}
use text.Mathlib.TextEquality.{eq_iff}

abbrev pub reply : RespType → String → Expected Node String
reply type text = value (record { data_type = type; text = text })

-- The type of error that a reply stands for, if it stands for one.
abbrev pub error_of : Expected Node String → Option RedisErrorType
error_of (unexpected diagnostic) = some system_error
error_of (value node) = elim node.data_type [
  | blob_string ↦ none
  | simple_string ↦ none
  | null ↦ none
  | simple_error ↦ some command_error
  | blob_error ↦ some command_error
  | other n ↦ some protocol_error
]

abbrev pub type_of : Expected (Option String) RedisError → Option RedisErrorType
type_of (value _) = none
type_of (unexpected e) = some e.type

extract_node_iff :
    (type : RespType) (t command key text : String)
    → ((extract_node command key type t ≡ value (some text))
        ↔ ((reply type t ≡ reply blob_string text) ⊎ (reply type t ≡ reply simple_string text)))
      × ((extract_node command key type t ≡ value none)
          ↔ ((u : String) × (reply type t ≡ reply null u)))
      × (type_of (extract_node command key type t) ≡ error_of (reply type t))
unfolding extract_node
extract_node_iff blob_string t command key text = ground arith
extract_node_iff simple_string t command key text = ground arith
extract_node_iff null t command key text = ground arith
extract_node_iff simple_error t command key text = ground arith
extract_node_iff blob_error t command key text = ground arith
extract_node_iff (other n) t command key text = ground arith

-- A reply yields a text exactly when it is a blob or simple string with that text, it yields
-- nullopt exactly when it is a null, and any other yields an error of the type that its kind asks
-- for.
pub extract_result_iff :
    (r : Expected Node String) (command key text : String)
    → ((extract_result r command key ≡ value (some text))
        ↔ ((r ≡ reply blob_string text) ⊎ (r ≡ reply simple_string text)))
      × ((extract_result r command key ≡ value none) ↔ ((t : String) × (r ≡ reply null t)))
      × (type_of (extract_result r command key) ≡ error_of r)
unfolding extract_result
extract_result_iff (unexpected d) command key text = ground arith
extract_result_iff (value node) command key text =
    extract_node_iff node.data_type node.text command key text

module _ {W : Type 0} (lib : RedisLib W) (conns : List ℕ) where
  -- A std::exception never leaves `Get` and the `Set` with an expiry: what they throw is no
  -- std::exception.
  pub get_set-thrown :
      (key text : String) (expiry : ℤ) (s : RedisState W) (e : Exception)
      → ((get lib conns key s).0 ≡ thrown e)
        ⊎ ((set_expiring lib conns key text expiry s).0 ≡ thrown e)
      → e ≡ unknown_exception
  unfolding get set_expiring send_get send_set read_failed store_failed
  get_set-thrown key text expiry s e (inl h) =
      handle-thrown (read_failed lib conns key) (λ what u. (_, refl)) (send_get lib conns key s).0 _
        e h
  get_set-thrown key text expiry s e (inr h) =
      handle-thrown (store_failed lib conns _) (λ what u. (_, refl)) (send_set lib conns _ s).0 _ e
        h

  pong_node-success_iff :
      (type : RespType) (text : String)
      → (pong lib conns (extract_node "PING" "Init" type text) ≡ value tt) ↔ (
          (reply type text ≡ reply blob_string "PONG")
          ⊎ (reply type text ≡ reply simple_string "PONG"))
  unfolding pong not_pong extract_node
  pong_node-success_iff blob_string text = ground (arith, eq_iff text "PONG")
  pong_node-success_iff simple_string text = ground (arith, eq_iff text "PONG")
  pong_node-success_iff null text = ground arith
  pong_node-success_iff simple_error text = ground arith
  pong_node-success_iff blob_error text = ground arith
  pong_node-success_iff (other n) text = ground arith

  pong-success_iff :
      (r : Expected Node String)
      → (pong lib conns (extract_result r "PING" "Init") ≡ value tt)
        ↔ ((r ≡ reply blob_string "PONG") ⊎ (r ≡ reply simple_string "PONG"))
  unfolding pong not_pong extract_result
  pong-success_iff (unexpected d) = ground arith
  pong-success_iff (value node) = pong_node-success_iff node.data_type node.text

  -- A ping succeeds exactly when the reply is the string PONG.
  pub ping-success_iff :
      (conn : ℕ) (w : W)
      → ((ping lib conns conn w).0 ≡ ret (value tt))
        ↔ ((lib.exec conn ("PING" ∷ []) w).0 ≡ ret (reply blob_string "PONG"))
          ⊎ ((lib.exec conn ("PING" ∷ []) w).0 ≡ ret (reply simple_string "PONG"))
  unfolding ping
  ping-success_iff conn w = elim (Outcome-cases (lib.exec conn ("PING" ∷ []) w).0) [
    | inl (r, e) ↦ ground (arith, e, pong-success_iff r)
    | inr (std_exception what, e) ↦ ground (arith, e)
    | inr (unknown_exception, e) ↦ ground (arith, e)
  ]
