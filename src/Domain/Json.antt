-- ===== src/Domain/Json.antt =====
-- The part of nlohmann::json that the program uses, as an interface: values are built from pairs,
-- read by key, printed and parsed. A `none` stands for a thrown json::exception, or for a
-- discarded parse.
use photon_commerce.Base.{
  String, Option, none, some, Bool, true, false, List, [], ◌∷◌, ◌≡◌, if◌then◌else◌,
}
use photon_commerce.Base.Int.{ℤ}
use text.Mathlib.Text.{◌==◌ as str_eq}

pub record JsonLib : Type 1 where
  pub Json : Type 0
  pub object : List (String × Json) → Json
  pub string : String → Json
  pub integer : ℤ → Json
  pub at : Json → String → Option Json
  pub contains : Json → String → Bool
  pub empty : Json → Bool
  pub get_string : Json → Option String
  pub get_integer : Json → Option ℤ
  pub dump : Json → Option String
  pub parse : String → Option Json

-- The pair that `emplace` keeps where a key is given twice: the first.
abbrev pub entry : {A : Type 0} → String → List (String × A) → Option A
entry k [] = none
entry k ((j, v) ∷ m) = if str_eq j k then some v else entry k m

abbrev pub has_value : {A : Type 0} → Option A → Bool
has_value none = false
has_value (some _) = true

-- What the library documents of these operations. `empty` is true of null and of empty arrays
-- and objects alone, so it is false of every string.
pub record IsJsonLib (J : JsonLib) : Type 0 where
  pub at-object : (fs : List (String × J.Json)) (k : String) → J.at (J.object fs) k ≡ entry k fs
  pub contains-object :
      (fs : List (String × J.Json)) (k : String)
      → J.contains (J.object fs) k ≡ has_value (entry k fs)
  pub empty-string : (s : String) → J.empty (J.string s) ≡ false
  pub get_string-string : (s : String) → J.get_string (J.string s) ≡ some s
  pub get_integer-integer : (n : ℤ) → J.get_integer (J.integer n) ≡ some n
  pub parse-dump : (j : J.Json) (t : String) → J.dump j ≡ some t → J.parse t ≡ some j
