-- ===== src/Utils/Uuid/Layout.antt =====
-- The fields of RFC 9562 in the bytes of an identifier.
use photon_commerce.Base.{
  ℕ, zero, suc, some, Bool, true, List, ◌∷◌, ◌≡◌, refl, ◌<◌, ◌+◌, ◌*◌, ◌/◌, ◌%◌, ◌^◌, arith, length,
  get_elem?, ◌&&◌, ◌==◌,
}
use photon_commerce.Utils.Uuid.{byte_at, with_version, with_variant, generate_bytes}

below : ℕ → (ℕ → Bool) → Bool
below zero p = true
below (suc n) p = p n && below n p

below_sound : (n : ℕ) (p : ℕ → Bool) (x : ℕ) → below n p ≡ true → x < n → p x ≡ true
unfolding below
below_sound zero p x h lt = absurd (omega arith)
below_sound (suc n) p x h lt = ground (arith, below_sound n p x)

is_version : ℕ → Bool
is_version b = with_version b / 16 == 7 && with_version b % 16 == b % 16

is_variant : ℕ → Bool
is_variant b = with_variant b / 64 == 2 && with_variant b % 64 == b % 64

version_table : below 256 is_version ≡ true
unfolding below is_version
version_table = refl

variant_table : below 256 is_variant ≡ true
unfolding below is_variant
variant_table = refl

with_version_fields : (b : ℕ) → b < 256 → (with_version b / 16 ≡ 7) × (with_version b % 16 ≡ b % 16)
unfolding is_version
with_version_fields b h = ground (arith, below_sound 256 is_version b version_table h)

with_variant_fields : (b : ℕ) → b < 256 → (with_variant b / 64 ≡ 2) × (with_variant b % 64 ≡ b % 64)
unfolding is_variant
with_variant_fields b h = ground (arith, below_sound 256 is_variant b variant_table h)

-- The number that the first six bytes spell, highest first.
abbrev pub read_timestamp : List ℕ → ℕ
read_timestamp (a ∷ b ∷ c ∷ d ∷ e ∷ f ∷ rest) =
    a * 2 ^ 40 + b * 2 ^ 32 + c * 2 ^ 24 + d * 2 ^ 16 + e * 2 ^ 8 + f
read_timestamp _ = 0

-- An identifier has 16 bytes; its first six spell the time stamp, cut to 48 bits; its version
-- field is 7 and its variant field 2, whatever the random numbers are.
pub generate_bytes_layout :
    (timestamp rand1 rand2 rand3 : ℕ)
    → let id = generate_bytes timestamp rand1 rand2 rand3 in
      (length id ≡ 16)
      × (read_timestamp id ≡ timestamp % 2 ^ 48)
      × ((v : ℕ) × (get_elem? id 6 ≡ some v) × (v / 16 ≡ 7))
      × ((v : ℕ) × (get_elem? id 8 ≡ some v) × (v / 64 ≡ 2))
unfolding generate_bytes
generate_bytes_layout timestamp rand1 rand2 rand3 = (
  refl,
  omega arith,
  (_, refl, (with_version_fields (byte_at rand1 24) (omega arith)).0),
  (_, refl, (with_variant_fields (byte_at rand1 8) (omega arith)).0),
)
