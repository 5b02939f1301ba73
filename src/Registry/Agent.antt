-- ===== src/Registry/Agent.antt =====
-- What the registry uses of ppconsul and, beyond Domain/Json, of nlohmann::json.
use photon_commerce.Base.{
  String, Option, none, some, Bool, List, Outcome, thrown, Exception, std_exception, Await, ◌≡◌,
}
use photon_commerce.Domain.Json.{JsonLib}

-- A read of a JSON value: the value, or a json::exception, or undefined behaviour.
pub data Reading {ℓ} (A : Type ℓ) : Type ℓ where
  read : A → Reading A
  exception undefined : Reading A

unfoldable pub bind {ℓ κ} : {A : Type ℓ} {B : Type κ} → Reading A → (A → Reading B) → Reading B
bind (read a) f = f a
bind exception f = exception
bind undefined f = undefined

infixl 5 ◌>>=◌
abbrev pub ◌>>=◌ {ℓ κ} : {A : Type ℓ} {B : Type κ} → Reading A → (A → Reading B) → Reading B
m >>= f = bind m f

abbrev pub or_exception {ℓ} : {A : Type ℓ} → Option A → Reading A
or_exception none = exception
or_exception (some a) = read a

-- `items` is what a range-for goes through, `subscript` the `operator[]` of a const value, which is
-- undefined where the key is missing, and `dump` throws where a text is no UTF-8.
pub record JsonArrays (J : JsonLib) : Type 0 where
  pub array : List J.Json → J.Json
  pub items : J.Json → List J.Json
  pub is_null : J.Json → Bool
  pub subscript : J.Json → String → Reading J.Json
  pub get_strings : J.Json → Option (List String)
  pub get_string_map : J.Json → Option (List (String × String))
  pub dump : J.Json → Outcome String

pub record ConsulLib (W : Type 0) : Type 0 where
  pub get : String → Await W String
  pub put : String → String → Await W (Unit {0})

-- ppconsul::Error is a std::exception.
pub record IsConsulLib {W : Type 0} (C : ConsulLib W) : Type 0 where
  pub get-thrown :
      (path : String) (w : W) (e : Exception)
      → (C.get path w).0 ≡ thrown e
      → (what : String) × (e ≡ std_exception what)
  pub put-thrown :
      (path body : String) (w : W) (e : Exception)
      → (C.put path body w).0 ≡ thrown e
      → (what : String) × (e ≡ std_exception what)
