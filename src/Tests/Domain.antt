-- ===== src/Tests/Domain.antt =====
-- A small JSON library, and a user written and read with it.
use photon_commerce.Base.{
  String, Option, none, some, false, List, [], ◌∷◌, ◌≡◌, refl, ap, arith, if◌then◌else◌,
}
use photon_commerce.Base.Int.{ℤ}
use photon_commerce.Domain.Json.{JsonLib, IsJsonLib, entry, has_value}
use photon_commerce.Domain.User.RoundTrip.{cached, from_json-to_json}
use photon_commerce.Domain.User.Serial.{to_json, from_json}
use photon_commerce.Tests.Toy.{alice}
use text.Mathlib.Text.{◌==◌ as str_eq}

mutual
  pub data Value : Type 0 where
    object : Fields → Value
    string : String → Value
    integer : ℤ → Value

  pub data Fields : Type 0 where
    end : Fields
    field : String → Value → Fields → Fields

abbrev pub fields : List (String × Value) → Fields
fields [] = end
fields ((k, v) ∷ m) = field k v (fields m)

abbrev pub lookup : String → Fields → Option Value
lookup k end = none
lookup k (field j v m) = if str_eq j k then some v else lookup k m

lookup-fields : (k : String) (m : List (String × Value)) → lookup k (fields m) ≡ entry k m
lookup-fields k [] = refl
lookup-fields k ((j, v) ∷ m) = rw (lookup-fields k m)

abbrev pub value_at : Value → String → Option Value
value_at (object fs) k = lookup k fs
value_at (string _) k = none
value_at (integer _) k = none

abbrev pub value_string : Value → Option String
value_string (object _) = none
value_string (string s) = some s
value_string (integer _) = none

abbrev pub value_integer : Value → Option ℤ
value_integer (object _) = none
value_integer (string _) = none
value_integer (integer n) = some n

-- It prints nothing, and parses one text, as the value given.
abbrev pub json_for : Option Value → JsonLib
json_for parsed = record {
  Json = Value;
  object = λ m. object (fields m);
  string = string;
  integer = integer;
  at = value_at;
  contains = λ v k. has_value (value_at v k);
  empty = λ v. false;
  get_string = value_string;
  get_integer = value_integer;
  dump = λ v. none;
  parse = λ t. if str_eq t "alice" then parsed else none;
}

-- The text "alice" is the entry of the user of that name.
abbrev pub toy_json : JsonLib
toy_json = json_for (some (to_json (json_for none) alice))

pub toy_json-laws : IsJsonLib toy_json
toy_json-laws = record {
  at-object = λ fs k. lookup-fields k fs;
  contains-object = λ fs k. ap has_value (lookup-fields k fs);
  empty-string = λ s. refl;
  get_string-string = λ s. refl;
  get_integer-integer = λ n. refl;
  parse-dump = λ j t e. cc;
}

from_json-to_json_example : from_json toy_json (to_json toy_json alice) ≡ some (cached alice)
from_json-to_json_example = from_json-to_json toy_json toy_json-laws alice (ground arith)
