-- ===== src/Config/Reading.antt =====
-- The checks and the reads of a node that the parsers of UserService/config/app_config.cc share.
use Prim.Native.String.{◌++◌}
use photon_commerce.Base.{
  String, Option, none, some, Bool, true, false, ◌||◌, Expected, value, unexpected,
}
use photon_commerce.Base.Int.{ℤ, le_zero, gt_ℕ}
use photon_commerce.Base.Decimal.{to_string}
use photon_commerce.Config.Settings.{Failure, yaml_exception, runtime_error, YamlLib, ◌>>=◌}
use text.Mathlib.Text.{◌==◌ as str_eq}

abbrev pub Parse : Type 0 → Type 0
Parse A = Expected A Failure

abbrev pub fail {ℓ} : {A : Type ℓ} → String → Expected A Failure
fail message = unexpected (runtime_error message)

-- `if (bad) throw std::runtime_error(message)`.
unfoldable pub throw_if : Bool → String → Parse (Unit {0})
throw_if true message = fail message
throw_if false message = value tt

unfoldable pub validate_port : ℤ → String → Parse (Unit {0})
unfolding throw_if
validate_port port field_name = throw_if (le_zero port || gt_ℕ port 65535) (
    "Config Error: "
    ++ field_name
    ++ " value '"
    ++ to_string port
    ++ "' is invalid. Must be between 1 and 65535")

unfoldable pub validate_not_empty : String → String → Parse (Unit {0})
unfolding throw_if
validate_not_empty text field_name =
    throw_if (str_eq text "") ("Config Error: '" ++ field_name ++ "' cannot be empty")

module _ (lib : YamlLib) where
  -- What yaml-cpp throws, as a failure of the parser.
  unfoldable pub yaml : {A : Type 0} → Expected A String → Parse A
  yaml (value a) = value a
  yaml (unexpected what) = unexpected (yaml_exception what)

  abbrev defined : String → Option lib.Node → Parse lib.Node
  defined message none = fail message
  defined message (some node) = value node

  -- `if (!node[key]) throw ...`, with the node.
  unfoldable pub child : lib.Node → String → String → Parse lib.Node
  child node key message = do found ← yaml (lib.subscript node key); defined message found

  abbrev pub require : lib.Node → String → String → Parse (Unit {0})
  require node key message = do found ← child node key message; value tt

  -- Reading an undefined node throws YAML::InvalidNode.
  abbrev pub valid : Option lib.Node → Parse lib.Node
  valid none = unexpected (yaml_exception "invalid node")
  valid (some node) = value node

  unfoldable pub read : lib.Node → String → Parse lib.Node
  read node key = do found ← yaml (lib.subscript node key); valid found

  -- `node[key].as<std::string>()` and `node[key].as<int>()`.
  unfoldable pub string_at : lib.Node → String → Parse String
  string_at node key = do found ← child node key "bad conversion"; yaml (lib.as_string found)

  unfoldable pub int_at : lib.Node → String → Parse ℤ
  int_at node key = do found ← child node key "bad conversion"; yaml (lib.as_int found)
