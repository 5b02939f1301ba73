-- ===== src/Domain/User/Text.antt =====
-- User::ToString of UserService/domain/user.h. `strftime` is the text of a time in seconds, in UTC.
use Prim.Native.String.{◌++◌}
use photon_commerce.Base.{String, Option, none, some, value_or, if◌then◌else◌, ◌==◌, ◌≡◌, refl}
use photon_commerce.Base.Decimal.{to_string}
use photon_commerce.Base.Int.{ℤ, pos, negsuc}
use photon_commerce.Domain.User.{User, TimePoint}
use photon_commerce.Domain.User.Serial.{to_seconds}

module _ (strftime : ℤ → String) where
  time_text : ℤ → String
  time_text (pos n) = if n == 0 then "null" else strftime (pos n)
  time_text (negsuc n) = strftime (negsuc n)

  unfoldable pub fmt_time : TimePoint → String
  unfolding time_text to_seconds
  fmt_time tp = time_text (to_seconds tp)

  abbrev deleted_text : Option TimePoint → String
  deleted_text none = "null"
  deleted_text (some tp) = fmt_time tp

  unfoldable pub user_text : User → String
  unfolding fmt_time
  user_text u =
      "User { id: "
      ++ u.id
      ++ ", phone: "
      ++ u.phone_number
      ++ ", username: "
      ++ value_or u.username "null"
      ++ ", email: "
      ++ value_or u.email "null"
      ++ ", status: "
      ++ to_string u.status.underlying
      ++ ", created_at: "
      ++ fmt_time u.created_at
      ++ ", deleted_at: "
      ++ deleted_text u.deleted_at
      ++ " }"

  -- The text for the log does not depend on the password hash or the salt.
  user_text-hides_secrets :
      (u : User) (password_hash salt : String)
      → user_text (record u { password_hash = password_hash; salt = salt }) ≡ user_text u
  unfolding user_text
  user_text-hides_secrets u password_hash salt = refl
