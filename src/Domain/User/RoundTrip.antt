-- ===== src/Domain/User/RoundTrip.antt =====
-- User::FromJson after User::ToJson.
use photon_commerce.Base.{suc, none, some, ◌≡◌, ◌<◌, ◌+◌, ◌*◌, ◌-◌, ◌/◌, ap, arith, value_or}
use photon_commerce.Base.Int.{ℤ, pos, negsuc}
use photon_commerce.Domain.Json.{JsonLib, IsJsonLib}
use photon_commerce.Domain.User.{User, status_of_int}
use photon_commerce.Domain.User.Serial.{to_json, from_json, ticks, to_seconds, of_seconds}

-- A value of `int16_t`.
abbrev pub IsInt16 : ℤ → Type 0
IsInt16 (pos n) = n < 32768
IsInt16 (negsuc n) = n < 32768

pub status_of_int-of_IsInt16 : (n : ℤ) → IsInt16 n → status_of_int n ≡ record { underlying = n }
unfolding status_of_int
status_of_int-of_IsInt16 (pos n) h = ground arith
status_of_int-of_IsInt16 (negsuc n) h = ground arith

-- What the cache keeps of a user: the profile fields are set, to "" where they were missing, the
-- creation time is cut to seconds, and the time of deletion is dropped.
abbrev pub cached : User → User
cached u = record u {
  username = some (value_or u.username "");
  email = some (value_or u.email "");
  avatar_url = some (value_or u.avatar_url "");
  created_at = of_seconds (to_seconds u.created_at);
  deleted_at = none;
}

to_seconds-of_seconds : (n : ℤ) → to_seconds (of_seconds n) ≡ n
unfolding to_seconds of_seconds
to_seconds-of_seconds (pos n) = ap pos (omega arith)
to_seconds-of_seconds (negsuc n) =
    let whole : ((n + 1) * ticks - 1 + 1) / ticks ≡ suc n = omega arith in rw whole

module _ (J : JsonLib) (laws : IsJsonLib J) where
  -- With a JSON library that does what is documented, reading back a user whose status is a 16-bit
  -- number yields the user with its profile fields set, to "" where they were missing, its
  -- creation time cut to seconds, and no time of deletion.
  pub from_json-to_json :
      (u : User) → IsInt16 u.status.underlying → from_json J (to_json J u) ≡ some (cached u)
  unfolding from_json to_json
  from_json-to_json u h =
      simp
        (
          laws.at-object, laws.contains-object, laws.empty-string, laws.get_string-string,
          laws.get_integer-integer,
        )
        (rw (status_of_int-of_IsInt16 _ h))

  -- What a cache entry loses, it loses once: the user that is read back has the same text again.
  pub to_json-cached : (u : User) → to_json J (cached u) ≡ to_json J u
  unfolding to_json
  to_json-cached u = cc (to_seconds-of_seconds (to_seconds u.created_at))
