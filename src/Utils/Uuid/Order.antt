-- ===== src/Utils/Uuid/Order.antt =====
-- Identifiers sort by the time of their making.
use photon_commerce.Base.{ℕ, List, [], ◌∷◌, ◌≡◌, ◌<◌, ◌≤◌, ◌^◌, ◌⊎◌, inl, inr, arith, dec_lt}
use photon_commerce.Utils.Uuid.{byte_at, generate_bytes}

-- The order of byte strings.
abbrev pub Precedes : List ℕ → List ℕ → Type 0
Precedes [] ys = ⊥
Precedes (x ∷ xs) [] = ⊥
Precedes (x ∷ xs) (y ∷ ys) = (x < y) ⊎ ((x ≡ y) × Precedes xs ys)

-- At one byte: either it decides, or it is equal and the rest decides.
byte_step : (x y : ℕ) {P : Type 0} → x ≤ y → (x ≡ y → P) → (x < y) ⊎ ((x ≡ y) × P)
byte_step x y le rest = elim (dec_lt x y) [
  | yes less ↦ inl less
  | no other ↦ let e : x ≡ y = omega arith in inr (e, rest e)
]

-- Of two identifiers whose time stamps fit 48 bits, the one with the earlier time stamp comes
-- first in the order of byte strings, whatever the random numbers are.
pub generate_bytes-Precedes :
    (t t' r1 r2 r3 r1' r2' r3' : ℕ)
    → t < t'
    → t' < 2 ^ 48
    → Precedes (generate_bytes t r1 r2 r3) (generate_bytes t' r1' r2' r3')
unfolding generate_bytes
generate_bytes-Precedes t t' r1 r2 r3 r1' r2' r3' h fits =
    byte_step (byte_at t 40) (byte_at t' 40) (omega arith) λ e0.
      byte_step (byte_at t 32) (byte_at t' 32) (omega arith) λ e1.
        byte_step (byte_at t 24) (byte_at t' 24) (omega arith) λ e2.
          byte_step (byte_at t 16) (byte_at t' 16) (omega arith)
            λ e3. byte_step (byte_at t 8) (byte_at t' 8) (omega arith) λ e4. inl (omega arith)
