-- ===== src/Utils/Uuid.antt =====
-- UserService/utils/src/id_generator.cc: the sixteen bytes of a UUID of version 7. The clock and
-- the random numbers are arguments; the text form is the library's.
pub mod Layout
pub mod Order
use Prim.Native.Nat.{bit_and, bit_or}
use photon_commerce.Base.{ℕ, List, [], ◌∷◌, ◌/◌, ◌%◌, ◌^◌}

-- `(v >> k) & 0xFF`.
abbrev pub byte_at : ℕ → ℕ → ℕ
byte_at v k = v / 2 ^ k % 256

-- `(b & 0x0F) | 0x70` and `(b & 0x3F) | 0x80`.
abbrev pub with_version : ℕ → ℕ
with_version b = bit_or (bit_and b 0x0F) 0x70

abbrev pub with_variant : ℕ → ℕ
with_variant b = bit_or (bit_and b 0x3F) 0x80

unfoldable pub generate_bytes : (timestamp rand1 rand2 rand3 : ℕ) → List ℕ
generate_bytes timestamp rand1 rand2 rand3 =
    byte_at timestamp 40
    ∷ byte_at timestamp 32
    ∷ byte_at timestamp 24
    ∷ byte_at timestamp 16
    ∷ byte_at timestamp 8
    ∷ timestamp % 256
    ∷ with_version (byte_at rand1 24)
    ∷ byte_at rand1 16
    ∷ with_variant (byte_at rand1 8)
    ∷ rand1 % 256
    ∷ byte_at rand2 24
    ∷ byte_at rand2 16
    ∷ byte_at rand2 8
    ∷ rand2 % 256
    ∷ byte_at rand3 24
    ∷ byte_at rand3 16
    ∷ []
