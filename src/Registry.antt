-- ===== src/Registry.antt =====
-- ConsulRegistry of UserService/service_registry/src/consul_registry.cc, over ppconsul and
-- nlohmann::json.
pub mod Agent
pub mod Discovery
pub mod Identity
pub mod Lifecycle
use Prim.Native.String.{◌++◌}
use mathlib.Core.List.{◌++◌ as list_append}
use photon_commerce.Base.{
  String, Option, none, some, Bool, true, false, not, ◌&&◌, List, [], ◌∷◌, map, if◌then◌else◌,
  Outcome, ret, thrown, std_exception, Await, pure, throw, ◌>>=◌, ◌>>◌, try_catch,
}
use photon_commerce.Base.Int.{ℤ}
use photon_commerce.Base.Decimal.{to_string}
use photon_commerce.Config.Settings.{RegisterConfig, ConsulConfig}
use photon_commerce.Domain.Json.{JsonLib}
use photon_commerce.Registry.Agent.{
  JsonArrays, Reading, read, exception, undefined, bind, or_exception, ConsulLib,
}
use text.Mathlib.Text.{◌==◌ as str_eq}

pub record ServiceInstance : Type 0 where
  pub id : String
  pub ip : String
  pub port : ℤ
  pub metadata : List (String × String)
  pub tags : List String

-- `GetAddress` of a ConsulConfig and of a ServiceInstance.
unfoldable pub get_address : String → ℤ → String
get_address ip port = ip ++ ":" ++ to_string port

unfoldable pub service_id : RegisterConfig → String
service_id config = config.service_name ++ "-" ++ config.ip ++ "-" ++ to_string config.port

-- `ConsulRegistry`: the id that is kept for `Deregister`, and what lies behind the agent.
pub record Registry (W : Type 0) : Type 0 where
  pub current_service_id : String
  pub agent : W

module _ {W : Type 0} (J : JsonLib) (A : JsonArrays J) (C : ConsulLib W) where
  abbrev seconds : ℤ → String
  seconds n = to_string n ++ "s"

  unfoldable pub payload : RegisterConfig → J.Json
  unfolding service_id
  payload config = J.object (
      ("ID", J.string (service_id config))
      ∷ ("Name", J.string config.service_name)
      ∷ ("Address", J.string config.ip)
      ∷ ("Port", J.integer config.port)
      ∷ ("Tags", A.array (map J.string config.tags))
      ∷ (
        "Check",
        J.object (
            ("TCP", J.string (config.ip ++ ":" ++ to_string config.port))
            ∷ ("Interval", J.string (seconds config.check_interval_seconds))
            ∷ ("Timeout", J.string (seconds config.check_timeout_seconds))
            ∷ ("DeregisterCriticalServiceAfter", J.string "60s")
            ∷ []),
      )
      ∷ [])

  abbrev put : String → String → Await (Registry W) (Unit {0})
  put path body s = ((C.put path body s.agent).0, record s { agent = (C.put path body s.agent).1 })

  abbrev set_id : String → Await (Registry W) (Unit {0})
  set_id id s = (ret tt, record s { current_service_id = id })

  abbrev of_outcome : {B : Type 0} → Outcome B → Await (Registry W) B
  of_outcome o s = (o, s)

  -- The handler only logs before it rethrows.
  unfoldable pub register : RegisterConfig → Await (Registry W) (Unit {0})
  unfolding payload
  register config = do
    set_id (service_id config)
    body ← of_outcome (A.dump (payload config))
    put "/v1/agent/service/register" body

  unfoldable pub deregister : Await (Registry W) (Unit {0})
  deregister s =
      if str_eq s.current_service_id ""
      then pure tt s
      else try_catch (put ("/v1/agent/service/deregister/" ++ s.current_service_id) "" >> set_id "")
          (λ what. pure tt) s

  -- `s.contains(key) && !s[key].is_null()`, and then the value.
  unfoldable pub optional_field :
      {B : Type 0} → J.Json → String → (J.Json → Option B) → B → Reading B
  unfolding bind
  optional_field s key get missing =
      if J.contains s key
      then bind (A.subscript s key)
          (λ v. if A.is_null v then read missing else or_exception (get v))
      else read missing

  abbrev field : {B : Type 0} → J.Json → String → (J.Json → Option B) → Reading B
  field s key get = bind (A.subscript s key) (λ v. or_exception (get v))

  -- One round of the loop of `Discover`.
  unfoldable pub read_instance : J.Json → Reading ServiceInstance
  unfolding bind optional_field
  read_instance item = bind (A.subscript item "Service") (λ s.
      bind (field s "ID" J.get_string) (λ id. bind (field s "Address" J.get_string) (λ ip.
        bind (field s "Port" J.get_integer) (λ port.
          bind (optional_field s "Tags" A.get_strings []) (λ tags.
            bind (optional_field s "Meta" A.get_string_map []) (λ metadata.
              read
                (record { id = id; ip = ip; port = port; metadata = metadata; tags = tags })))))))

  unfoldable pub add_instance :
      Reading ServiceInstance
      → List ServiceInstance
      → (List ServiceInstance → Option (List ServiceInstance))
      → Option (List ServiceInstance)
  add_instance undefined done rest = none
  add_instance exception done rest = some done
  add_instance (read i) done rest = rest (list_append done (i ∷ []))

  -- The loop, which an exception ends; none is undefined behaviour.
  unfoldable pub collect : List J.Json → List ServiceInstance → Option (List ServiceInstance)
  unfolding add_instance
  collect [] done = some done
  collect (item ∷ rest) done = add_instance (read_instance item) done (λ d. collect rest d)

  unfoldable pub parsed : Option J.Json → Option (List ServiceInstance)
  parsed none = some []
  parsed (some j) = collect (A.items j) []

  unfoldable pub discover : String → Await W (Option (List ServiceInstance))
  unfolding parsed
  discover service_name =
      try_catch
        (C.get ("/v1/health/service/" ++ service_name ++ "?passing=true") >>= λ body.
          pure (if str_eq body "" then some [] else parsed (J.parse body)))
        (λ what. pure (some []))
