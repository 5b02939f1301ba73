-- ===== src/Utils/CodeGenerator.antt =====
-- UserService/utils/src/verification_code_generator.cc. The engine and the distribution are the
-- standard library's random source: `draw` is `distribution(engine)`.
use Prim.Native.Char.{code}
use Prim.Native.String.{count, ◌++◌}
use photon_commerce.Base.{ℕ, zero, suc, String, ◌≡◌, refl, ◌≤◌, ◌+◌, arith, ret, Await}
use photon_commerce.Base.Decimal.{digit, code-ascii}
use text.Mathlib.TextLemmas.{length-append, length-cons, length-nil, nil-append, cons-append}

module _ {E : Type 0} (draw : E → ℕ × E) where
  -- The rounds that are left, and the text so far. `digit d` is the character `d + '0'`.
  push_digits : ℕ → String → E → String × E
  push_digits zero text e = (text, e)
  push_digits (suc n) text e = push_digits n (text ++ String.◌∷◌ (digit (draw e).0) "") (draw e).1

  unfoldable pub generate : ℕ → Await E String
  unfolding push_digits
  generate length e = (ret (push_digits length "" e).0, (push_digits length "" e).1)

-- Only the characters 0 to 9.
abbrev pub IsDigits : String → Type 0
IsDigits String.[] = Unit
IsDigits (String.◌∷◌ c s) = (b'0' ≤ code c) × (code c ≤ b'9') × IsDigits s

digit-code : (d : ℕ) → d ≤ 9 → (b'0' ≤ code (digit d)) × (code (digit d) ≤ b'9')
digit-code d h = omega (arith, code-ascii (d + b'0') (omega arith))

IsDigits-push : (s : String) (d : ℕ) → d ≤ 9 → IsDigits s → IsDigits (s ++ String.◌∷◌ (digit d) "")
IsDigits-push String.[] d le h = rw nil-append ((digit-code d le).0, (digit-code d le).1, tt)
IsDigits-push (String.◌∷◌ c s) d le (lo, hi, h) = rw cons-append (lo, hi, IsDigits-push s d le h)

-- `uniform_int_distribution<int>(0, 9)` yields no number above 9.
module _ {E : Type 0} (draw : E → ℕ × E) (in_range : (e : E) → (draw e).0 ≤ 9) where
  push_digits_lem :
      (n : ℕ) (text : String) (e : E)
      → IsDigits text
      → (count (push_digits draw n text e).0 ≡ count text + n)
        × IsDigits (push_digits draw n text e).0
  unfolding push_digits
  push_digits_lem zero text e h = (omega arith, h)
  push_digits_lem (suc n) text e h =
      let (size, digits) =
        push_digits_lem n (text ++ String.◌∷◌ (digit (draw e).0) "") (draw e).1
          (IsDigits-push text (draw e).0 (in_range e) h) in
      (
        omega (
          arith,
          size,
          length-append text (String.◌∷◌ (digit (draw e).0) ""),
          length-cons (digit (draw e).0) "",
          length-nil,
        ),
        digits,
      )

  -- If the distribution keeps to its range, a code of the length asked for comes back, and holds
  -- decimal digits only.
  pub generate-IsDigits :
      (n : ℕ) (e : E)
      → (text : String) × ((generate draw n e).0 ≡ ret text) × (count text ≡ n) × IsDigits text
  unfolding generate
  generate-IsDigits n e =
      let (size, digits) = push_digits_lem n "" e tt in (_, refl, omega (arith, size), digits)
