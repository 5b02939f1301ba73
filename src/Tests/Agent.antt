-- ===== src/Tests/Agent.antt =====
-- A Consul agent that answers one text, and keeps the requests that it was sent.
use photon_commerce.Base.{
  String, Option, none, some, Bool, true, false, List, [], ◌∷◌, ◌≡◌, ◌≢◌, refl, if◌then◌else◌, ret,
  All,
}
use photon_commerce.Base.Int.{ℤ, pos}
use photon_commerce.Base.Decimal.{to_string}
use photon_commerce.Config.Settings.{RegisterConfig}
use photon_commerce.Domain.Json.{JsonLib}
use photon_commerce.Registry.{ServiceInstance, service_id, discover, read_instance, optional_field}
use photon_commerce.Registry.Agent.{
  JsonArrays, Reading, read, exception, undefined, bind, ConsulLib,
}
use photon_commerce.Registry.Discovery.{IsPrefix, discover-IsPrefix}
use photon_commerce.Registry.Identity.{service_id_inj, dashes}
use package.text.Mathlib.Text.{◌==◌ as str_eq}

-- JSON values: texts, numbers, and objects and arrays as chains that `end` ends.
data Json : Type 0 where
  text : String → Json
  number : ℤ → Json
  end : Json
  field : String → Json → Json → Json
  element : Json → Json → Json

abbrev fields : List (String × Json) → Json
fields [] = end
fields (f ∷ fs) = field f.0 f.1 (fields fs)

abbrev values : List Json → Json
values [] = end
values (v ∷ vs) = element v (values vs)

abbrev value_at : Json → String → Option Json
value_at (field j v rest) k = if str_eq j k then some v else value_at rest k
value_at _ k = none

abbrev is_set : Option Json → Bool
is_set none = false
is_set (some v) = true

abbrev as_text : Json → Option String
as_text (text t) = some t
as_text _ = none

abbrev as_number : Json → Option ℤ
as_number (number n) = some n
as_number _ = none

abbrev as_list : Json → List Json
as_list (element v rest) = v ∷ as_list rest
as_list _ = []

abbrev instance_json : String → Json → Json
instance_json id port = fields (
    ("Service", fields (("ID", text id) ∷ ("Address", text "10.0.0.2") ∷ ("Port", port) ∷ [])) ∷ [])

-- The port of the second instance is no number.
abbrev answer : Json
answer = values (instance_json "a" (number (pos 80)) ∷ instance_json "b" (text "http") ∷ [])

abbrev json_lib : JsonLib
json_lib = record {
  Json = Json;
  object = fields;
  string = text;
  integer = number;
  at = value_at;
  contains = λ j k. is_set (value_at j k);
  empty = λ j. false;
  get_string = as_text;
  get_integer = as_number;
  dump = λ j. some "{}";
  parse = λ t. some answer;
}

abbrev subscripted : Json → Option Json → Reading Json
subscripted (field k v rest) none = undefined
subscripted j none = exception
subscripted j (some v) = read v

abbrev json_arrays : JsonArrays json_lib
json_arrays = record {
  array = values;
  items = as_list;
  is_null = λ j. false;
  subscript = λ j k. subscripted j (value_at j k);
  get_strings = λ j. none;
  get_string_map = λ j. none;
  dump = λ j. ret "{}";
}

abbrev agent : ConsulLib (List String)
agent = record { get = λ path w. (ret "[...]", path ∷ w); put = λ path body w. (ret tt, path ∷ w) }

both_defined :
    All (λ item. read_instance json_lib json_arrays agent item ≢ undefined) (as_list answer)
unfolding read_instance bind optional_field
both_defined = (λ e. cc, (λ e. cc, tt))

discover-IsPrefix_example :
    (found : List ServiceInstance) × ((discover json_lib json_arrays agent "user-service" []).0
      ≡ ret (some found))
    × IsPrefix json_lib json_arrays agent (as_list answer) found
discover-IsPrefix_example =
    discover-IsPrefix json_lib json_arrays agent "user-service" "[...]" answer [] refl (λ e. cc)
      refl both_defined

abbrev config : RegisterConfig
config = record {
  service_name = "user-service";
  ip = "10.0.0.2";
  port = pos 50051;
  tags = [];
  check_interval_seconds = pos 10;
  check_timeout_seconds = pos 2;
}

-- The same service with a tag.
abbrev stable : RegisterConfig
stable = record config { tags = "stable" ∷ [] }

no_dash : dashes "10.0.0.2" ≡ 0
unfolding dashes
no_dash = refl

same_id : service_id config ≡ service_id stable
unfolding service_id
same_id = refl

service_id_inj_test :
    (config.service_name ≡ stable.service_name)
    × (config.ip ≡ stable.ip)
    × (config.port ≡ stable.port)
service_id_inj_test = service_id_inj config stable 50051 50051 no_dash no_dash refl refl same_id

service_id_test : service_id config ≡ "user-service-10.0.0.2-50051"
unfolding service_id to_string
service_id_test = refl
