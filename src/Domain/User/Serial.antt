-- ===== src/Domain/User/Serial.antt =====
-- User::ToJson and User::FromJson of UserService/domain/user.cc, over the JSON library.
use photon_commerce.Base.{
  ℕ, zero, String, Option, none, some, not, [], ◌∷◌, ◌*◌, ◌/◌, ◌+◌, ◌-◌, suc, value_or,
  if◌then◌else◌,
}
use photon_commerce.Base.Int.{ℤ, pos, negsuc}
use photon_commerce.Domain.Json.{JsonLib}
use photon_commerce.Domain.User.{User, TimePoint, status_of_int}

-- Ticks of `system_clock` in a second.
abbrev pub ticks : ℕ
ticks = 1000000000

abbrev negated : ℕ → ℤ
negated zero = pos 0
negated (suc n) = negsuc n

-- `duration_cast<seconds>` rounds towards zero.
unfoldable pub to_seconds : TimePoint → ℤ
to_seconds (pos n) = pos (n / ticks)
to_seconds (negsuc n) = negated ((n + 1) / ticks)

unfoldable pub of_seconds : ℤ → TimePoint
of_seconds (pos n) = pos (n * ticks)
of_seconds (negsuc n) = negsuc ((n + 1) * ticks - 1)

infixl 5 ◌>>=◌
abbrev ◌>>=◌ {ℓ κ} : {A : Type ℓ} {B : Type κ} → Option A → (A → Option B) → Option B
none >>= f = none
some a >>= f = f a

module _ (J : JsonLib) where
  open J use {Json, object, string, integer, at, contains, empty, get_string, get_integer}

  unfoldable pub to_json : User → Json
  to_json u = object (
      ("id", string u.id)
      ∷ ("phone", string u.phone_number)
      ∷ ("pwd_hash", string u.password_hash)
      ∷ ("salt", string u.salt)
      ∷ ("username", string (value_or u.username ""))
      ∷ ("email", string (value_or u.email ""))
      ∷ ("avatar", string (value_or u.avatar_url ""))
      ∷ ("status", integer u.status.underlying)
      ∷ ("created_at", integer (to_seconds u.created_at))
      ∷ [])

  abbrev filled : Json → Option (Option String)
  filled v = if not (empty v) then (do s ← get_string v; some (some s)) else some none

  -- `if (j.contains(k) && !j[k].empty()) field = j[k]`, which throws if `j[k]` is no string.
  optional_field : Json → String → Option (Option String)
  optional_field j k = if contains j k then (at j k >>= filled) else some none

  -- `none` is std::nullopt, returned where a json::exception was thrown.
  unfoldable pub from_json : Json → Option User
  unfolding optional_field
  from_json j = do
    id ← at j "id" >>= get_string
    phone ← at j "phone" >>= get_string
    pwd_hash ← at j "pwd_hash" >>= get_string
    salt ← at j "salt" >>= get_string
    status ← at j "status" >>= get_integer
    username ← optional_field j "username"
    email ← optional_field j "email"
    avatar ← optional_field j "avatar"
    ts ← at j "created_at" >>= get_integer
    some (record {
      id = id;
      phone_number = phone;
      password_hash = pwd_hash;
      salt = salt;
      username = username;
      email = email;
      avatar_url = avatar;
      status = status_of_int status;
      created_at = of_seconds ts;
      deleted_at = none;
    })
