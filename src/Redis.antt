-- ===== src/Redis.antt =====
-- UserService/infrastructure/state_storage/redis_dao: RedisClient over the boost::redis library.
pub mod Replies
pub mod RoundRobin
pub mod Caching
use Prim.Native.String.{◌++◌}
use photon_commerce.Base.{
  ℕ, zero, suc, String, Option, none, some, Bool, true, false, List, [], ◌∷◌, length, get_elem?,
  value_or, ◌+◌, ◌%◌, ◌^◌, if◌then◌else◌, Expected, value, unexpected, Exception, std_exception,
  Outcome, ret, thrown, Await, pure, throw, ◌>>=◌, ◌>>◌, try_catch,
}
use photon_commerce.Base.Int.{ℤ, pos, negsuc, le_zero, gt_ℕ, to_ℕ}
use photon_commerce.Base.Decimal.{to_string}
use text.Mathlib.Text.{◌==◌ as str_eq}

pub data RedisErrorType : Type 0 where
  system_error command_error protocol_error : RedisErrorType

pub record RedisError : Type 0 where
  pub type : RedisErrorType
  pub message : String

pub record RedisConfig : Type 0 where
  pub host : String
  pub port : String
  pub pool_size : ℤ

-- boost::redis::resp3::type, as the client tells the types apart: `other` holds the number of
-- any further one.
pub data RespType : Type 0 where
  blob_string simple_string null simple_error blob_error : RespType
  other : ℕ → RespType

pub record Node : Type 0 where
  pub data_type : RespType
  pub text : String

-- The library's connections, by number. `W` is the world that they act on. `run` is `async_run`,
-- `exec` is `async_exec` with a response, where an error holds its diagnostic, and `exec_ignore`
-- is `async_exec` with boost::redis::ignore.
pub record RedisLib (W : Type 0) : Type 0 where
  pub run : ℕ → W → W
  pub exec : ℕ → List String → Await W (Expected Node String)
  pub exec_ignore : ℕ → List String → Await W (Unit {0})

-- The state of a client: `request_counter_`, and the world behind its connections.
pub record RedisState (W : Type 0) : Type 0 where
  pub request_counter : ℕ
  pub world : W

abbrev fail : RedisErrorType → String → Expected (Option String) RedisError
fail type message = unexpected (record { type = type; message = message })

unfoldable pub extract_node :
    String → String → RespType → String → Expected (Option String) RedisError
extract_node command key blob_string text = value (some text)
extract_node command key simple_string text = value (some text)
extract_node command key null text = value none
extract_node command key simple_error text =
    fail command_error ("Redis " ++ command ++ " Command Error: " ++ text ++ ". Context: " ++ key)
extract_node command key blob_error text =
    fail command_error ("Redis " ++ command ++ " Command Error: " ++ text ++ ". Context: " ++ key)
extract_node command key (other n) text = fail protocol_error (
    "Redis "
    ++ command
    ++ " Protocol Error: Unexpected type "
    ++ to_string (pos n)
    ++ ". Context: "
    ++ key)

unfoldable pub extract_result :
    Expected Node String → String → String → Expected (Option String) RedisError
unfolding extract_node
extract_result (unexpected diagnostic) command key =
    fail system_error
      ("Redis " ++ command ++ " failed. Error: " ++ diagnostic ++ ". Context: " ++ key)
extract_result (value node) command key = extract_node command key node.data_type node.text

-- Numbers from 0 below `n`.
unfoldable pub connections_below : ℕ → List ℕ → List ℕ
connections_below zero conns = conns
connections_below (suc n) conns = connections_below n (n ∷ conns)

-- The constructor: the connections of the pool, or the exception.
unfoldable pub make_client : RedisConfig → Outcome (List ℕ)
unfolding connections_below
make_client config =
    if le_zero config.pool_size
    then thrown (
        std_exception
          ("Invalid Redis pool size: " ++ to_string config.pool_size ++ ". Must be positive."))
    else ret (connections_below (to_ℕ config.pool_size) [])

-- `size_t` has 64 bits.
abbrev pub size_mod : ℕ
size_mod = 2 ^ 64

-- The request of `Set` with an expiry in seconds.
unfoldable pub set_request : String → String → ℤ → List String
set_request key text expiry =
    if gt_ℕ expiry 0
    then "SET" ∷ key ∷ text ∷ "EX" ∷ to_string expiry ∷ []
    else "SET" ∷ key ∷ text ∷ []

module _ {W : Type 0} (lib : RedisLib W) (conns : List ℕ) where
  -- An action of the library on the client's world.
  abbrev on_world {ℓ} : {A : Type ℓ} → Await W A → Await (RedisState W) A
  on_world m s = ((m s.world).0, record s { world = (m s.world).1 })

  -- `fetch_add`, then the connection at that index. The constructor made at least one.
  unfoldable pub get_next_connection : Await (RedisState W) ℕ
  get_next_connection s = (
    ret (value_or (get_elem? conns (s.request_counter % length conns)) 0),
    record s { request_counter = (s.request_counter + 1) % size_mod },
  )

  store_failed : String → String → Await (RedisState W) (Expected (Unit {0}) RedisError)
  store_failed suffix what =
      pure
        (unexpected (record { type = system_error; message = "SET exception: " ++ what ++ suffix }))

  send_set : List String → Await (RedisState W) (Expected (Unit {0}) RedisError)
  unfolding get_next_connection
  send_set request = do
    conn ← get_next_connection
    on_world (lib.exec_ignore conn request)
    pure (value tt)

  -- `Set(key, value)`.
  unfoldable pub set : String → String → Await (RedisState W) (Expected (Unit {0}) RedisError)
  unfolding send_set store_failed
  set key text = try_catch (send_set ("SET" ∷ key ∷ text ∷ [])) (store_failed "")

  -- `Set(key, value, expiry)`, the expiry in seconds.
  unfoldable pub set_expiring :
      String → String → ℤ → Await (RedisState W) (Expected (Unit {0}) RedisError)
  unfolding send_set store_failed set_request
  set_expiring key text expiry =
      try_catch (send_set (set_request key text expiry)) (store_failed (" (Key: " ++ key ++ ")"))

  send_get : String → Await (RedisState W) (Expected (Option String) RedisError)
  unfolding get_next_connection
  send_get key = do
    conn ← get_next_connection
    reply ← on_world (lib.exec conn ("GET" ∷ key ∷ []))
    pure (extract_result reply "GET" key)

  read_failed : String → String → Await (RedisState W) (Expected (Option String) RedisError)
  read_failed key what =
      pure (fail system_error ("GET exception: " ++ what ++ " (Key: " ++ key ++ ")"))

  unfoldable pub get : String → Await (RedisState W) (Expected (Option String) RedisError)
  unfolding send_get read_failed
  get key = try_catch (send_get key) (read_failed key)

  abbrev broken : RedisErrorType → String → Expected (Unit {0}) RedisError
  broken type message = unexpected (record { type = type; message = message })

  not_pong : String → Expected (Unit {0}) RedisError
  not_pong text =
      broken protocol_error ("Redis PING protocol error. Expected 'PONG', got '" ++ text ++ "'")

  unfoldable pub pong : Expected (Option String) RedisError → Expected (Unit {0}) RedisError
  unfolding not_pong
  pong (unexpected e) = unexpected e
  pong (value none) = not_pong "NULL"
  pong (value (some text)) = if str_eq text "PONG" then value tt else not_pong text

  unfoldable pub ping : ℕ → Await W (Expected (Unit {0}) RedisError)
  unfolding pong
  ping conn =
      try_catch
        (do reply ← lib.exec conn ("PING" ∷ []); pure (pong (extract_result reply "PING" "Init")))
        (λ what. pure (broken system_error ("Redis PING exception: " ++ what)))

  unfoldable pub start_all : List ℕ → W → W
  start_all [] w = w
  start_all (conn ∷ rest) w = start_all rest (lib.run conn w)

  unfoldable pub ping_checked : ℕ → Expected (Unit {0}) RedisError → Await W (Unit {0})
  ping_checked i (value _) = pure tt
  ping_checked i (unexpected e) = throw (
      std_exception
        ("Redis Pool Init failed at connection [" ++ to_string (pos i) ++ "]: " ++ e.message))

  -- The check of the connections from index `i` on.
  unfoldable pub ping_all : ℕ → List ℕ → Await W (Unit {0})
  unfolding ping ping_checked
  ping_all i [] = pure tt
  ping_all i (conn ∷ rest) =
      let later = ping_all (i + 1) rest in (ping conn >>= ping_checked i) >> later

  unfoldable pub init : Await W (Unit {0})
  unfolding start_all ping_all
  init w = ping_all 0 conns (start_all conns w)
