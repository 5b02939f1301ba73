-- ===== src/Base/Decimal.antt =====
-- Characters by their code, and `std::to_string` of an integer.
use Prim.Native.Nat.{ℕ, zero, suc, ◌+◌, ◌/◌, ◌%◌, ◌<◌}
use Prim.Native.Char.{Char, code, nul, IsScalar}
use Prim.Native.String.{String}
use mathlib.Core.Path.{◌≡◌, refl, ap}
use native.Mathlib.Bridge.{le_prop}
use mathlib.Core.Logic.{dite, dif_pos}
use native.Mathlib.Omega.{arith}
use native.Mathlib.Decide.{dec_lt}
use photon_commerce.Base.Tests.{ltb, if◌then◌else◌}
use photon_commerce.Base.Int.{ℤ, pos, negsuc}

pub IsScalar-of_lt : (n : ℕ) → n < 128 → IsScalar n
IsScalar-of_lt n h = ground arith

-- The character with an ASCII code.
unfoldable pub ascii : ℕ → Char
unfolding dec_lt
ascii n = dite (dec_lt n 128) (λ h. Char.char n (IsScalar-of_lt n h)) (λ _. nul)

pub code-ascii : (n : ℕ) → n < 128 → code (ascii n) ≡ n
unfolding ascii
code-ascii n h = ap code (dif_pos (dec_lt n 128) le_prop h _ _)

-- `d + '0'`.
abbrev pub digit : ℕ → Char
digit d = ascii (d + b'0')

-- The digits of `n` before `rest`; a fuel above `n` is enough.
unfoldable pub digits_before : ℕ → ℕ → String → String
unfolding ascii
digits_before zero n rest = rest
digits_before (suc fuel) n rest =
    let here = String.◌∷◌ (digit (n % 10)) rest in
    let more = digits_before fuel (n / 10) here in if ltb n 10 then here else more

unfoldable pub to_string : ℤ → String
unfolding digits_before
to_string (pos n) = digits_before (n + 1) n ""
to_string (negsuc n) = String.◌∷◌ "-" (digits_before (n + 2) (n + 1) "")

to_string_test : to_string (pos 3600) ≡ "3600"
unfolding to_string
to_string_test = refl
