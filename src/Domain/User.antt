-- ===== src/Domain/User.antt =====
-- UserService/domain/user.h and user.cc: the user entity and its operations.
pub mod Serial
pub mod RoundTrip
pub mod Text
use photon_commerce.Base.{
  ℕ, String, Option, none, some, Bool, true, false, ◌||◌, ◌==◌, ltb, if◌then◌else◌, ◌+◌, ◌-◌, ◌*◌,
  ◌/◌, ◌%◌, Await, pure, throw, std_exception,
}
use photon_commerce.Base.Int.{ℤ, pos, negsuc}
use text.Mathlib.Text.{◌==◌ as str_eq}

-- `enum class UserStatus : int16_t`: every 16-bit value is a value of the type.
pub record UserStatus : Type 0 where
  pub underlying : ℤ

abbrev pub normal : UserStatus
normal = record { underlying = pos 0 }

abbrev pub frozen : UserStatus
frozen = record { underlying = pos 1 }

abbrev pub inactive : UserStatus
inactive = record { underlying = pos 2 }

abbrev pub deleted : UserStatus
deleted = record { underlying = pos 99 }

-- The low 16 bits of a two's complement number.
low_word : ℤ → ℕ
low_word (pos n) = n % 65536
low_word (negsuc n) = 65535 - n % 65536

signed_word : ℕ → ℤ
signed_word r = if ltb r 32768 then pos r else negsuc (65535 - r)

-- `static_cast<UserStatus>(int)`, which wraps to 16 bits.
unfoldable pub status_of_int : ℤ → UserStatus
unfolding low_word signed_word
status_of_int n = record { underlying = signed_word (low_word n) }

-- `std::chrono::system_clock::time_point`, in nanoseconds from the epoch.
abbrev pub TimePoint : Type 0
TimePoint = ℤ

pub record User : Type 0 where
  pub id : String
  pub phone_number : String
  pub password_hash : String
  pub salt : String
  pub username : Option String
  pub email : Option String
  pub avatar_url : Option String
  pub status : UserStatus
  pub created_at : TimePoint
  pub deleted_at : Option TimePoint

unfoldable pub create : String → String → String → String → User
create id phone pwd_hash salt = record {
  id = id;
  phone_number = phone;
  password_hash = pwd_hash;
  salt = salt;
  username = none;
  email = none;
  avatar_url = none;
  status = normal;
  created_at = pos 0;
  deleted_at = none;
}

-- `if (v.has_value()) field = v`.
abbrev pub or_keep : Option String → Option String → Option String
or_keep none old = old
or_keep (some v) old = some v

unfoldable pub update_profile : Option String → Option String → Option String → User → User
update_profile username email avatar_url u = record u {
  username = or_keep username u.username;
  email = or_keep email u.email;
  avatar_url = or_keep avatar_url u.avatar_url;
}

-- A method on the user object: it may throw, and then the object is as it was.
unfoldable pub change_password : String → String → Await User (Unit {0})
change_password new_hash new_salt u =
    if str_eq new_hash "" || str_eq new_salt ""
    then throw (std_exception "Hash and salt cannot be empty") u
    else pure tt (record u { password_hash = new_hash; salt = new_salt })

unfoldable pub mark_as_deleted : TimePoint → User → User
mark_as_deleted now u = record u { status = deleted; deleted_at = some now }

abbrev has_value : Option TimePoint → Bool
has_value none = false
has_value (some _) = true

is_status : ℤ → ℤ → Bool
is_status (pos m) (pos n) = m == n
is_status (negsuc m) (negsuc n) = m == n
is_status _ _ = false

unfoldable pub is_deleted : User → Bool
unfolding is_status
is_deleted u = has_value u.deleted_at || is_status u.status.underlying deleted.underlying
