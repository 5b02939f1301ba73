-- ===== src/Registry/Identity.antt =====
-- The ids of registered services.
use Prim.Native.Char.{Char, code}
use Prim.Native.String.{◌++◌}
use photon_commerce.Base.{
  ℕ, zero, suc, String, ◌≡◌, refl, sym, ap, ◌∙◌, ◌+◌, ◌-◌, ◌/◌, ◌%◌, ◌*◌, ◌<◌, ◌==◌, arith,
  if◌then◌else◌, dec_lt,
}
use photon_commerce.Base.Int.{pos}
use photon_commerce.Base.Decimal.{to_string, digits_before, digit, code-ascii}
use photon_commerce.Config.Settings.{RegisterConfig}
use photon_commerce.Registry.{service_id}
use text.Mathlib.TextLemmas.{append_assoc, append_cancel_left, nil-append, cons-append}

-- How often '-' occurs.
unfoldable pub dashes : String → ℕ
dashes String.[] = 0
dashes (String.◌∷◌ c s) = (if code c == b'-' then 1 else 0) + dashes s

pub dashes-append : (s t : String) → dashes (s ++ t) ≡ dashes s + dashes t
unfolding dashes
dashes-append String.[] t = ap dashes (nil-append t) ∙ omega arith
dashes-append (String.◌∷◌ c s) t = ap dashes (cons-append c s t) ∙ omega (arith, dashes-append s t)

pub one_dash : (s : String) → dashes ("-" ++ s) ≡ suc (dashes s)
unfolding dashes
one_dash s = dashes-append "-" s ∙ omega arith

dash_cons : (s : String) → "-" ++ s ≡ String.◌∷◌ "-" s
dash_cons s = cons-append "-" "" s ∙ ap (String.◌∷◌ "-") (nil-append s)

cons_tail : {c d : Char} {s t : String} → String.◌∷◌ c s ≡ String.◌∷◌ d t → s ≡ t
cons_tail e = cc

cons_head : {c d : Char} {s t : String} → String.◌∷◌ c s ≡ String.◌∷◌ d t → c ≡ d
cons_head e = cc

-- A text is split at its last '-' in one way.
last_dash :
    (a b x y : String)
    → dashes x ≡ 0
    → dashes y ≡ 0
    → a ++ "-" ++ x ≡ b ++ "-" ++ y
    → (a ≡ b) × (x ≡ y)
last_dash String.[] String.[] x y hx hy e =
    (refl, append_cancel_left "-" x y (sym (nil-append ("-" ++ x)) ∙ e ∙ nil-append ("-" ++ y)))
last_dash String.[] (String.◌∷◌ c b) x y hx hy e =
    let longer = dashes-append b ("-" ++ y) in
    let same = sym (dash_cons x) ∙ sym (nil-append ("-" ++ x)) ∙ e ∙ cons-append c b ("-" ++ y) in
    absurd (omega (arith, ap dashes (cons_tail same), longer, one_dash y))
last_dash (String.◌∷◌ c a) String.[] x y hx hy e =
    let longer = dashes-append a ("-" ++ x) in
    let same = sym (cons-append c a ("-" ++ x)) ∙ e ∙ nil-append ("-" ++ y) ∙ dash_cons y in
    absurd (omega (arith, ap dashes (cons_tail same), longer, one_dash x))
last_dash (String.◌∷◌ c a) (String.◌∷◌ d b) x y hx hy e =
    let same = sym (cons-append c a ("-" ++ x)) ∙ e ∙ cons-append d b ("-" ++ y) in
    let (ab, xy) = last_dash a b x y hx hy (cons_tail same) in (cc (cons_head same, ab), xy)

digit-dashes :
    (d : ℕ) (rest : String) → d < 10 → dashes rest ≡ 0 → dashes (String.◌∷◌ (digit d) rest) ≡ 0
unfolding dashes
digit-dashes d rest h e =
    let coded = code-ascii (d + b'0') (omega arith) in rw coded (ground (arith, e))

digits_before-dashes :
    (fuel n : ℕ) (rest : String) → dashes rest ≡ 0 → dashes (digits_before fuel n rest) ≡ 0
unfolding digits_before dashes
digits_before-dashes zero n rest h = h
digits_before-dashes (suc fuel) n rest h =
    let here = digit-dashes (n % 10) rest (omega arith) h in
    let more = digits_before-dashes fuel (n / 10) (String.◌∷◌ (digit (n % 10)) rest) here in
    ground (arith, here, more)

-- The number that decimal digits stand for, after `acc`.
value : ℕ → String → ℕ
value acc String.[] = acc
value acc (String.◌∷◌ c s) = value (acc * 10 + (code c - b'0')) s

value_step :
    (acc n : ℕ) (rest : String)
    → acc * 10 + n % 10 ≡ n
    → value acc (String.◌∷◌ (digit (n % 10)) rest) ≡ value n rest
unfolding value
value_step acc n rest e =
    let coded = code-ascii (n % 10 + b'0') (omega arith) in
    let sum : acc * 10 + (code (digit (n % 10)) - b'0') ≡ n = omega (arith, coded) in
    ap (λ k. value k rest) sum

value-digits_before :
    (fuel n : ℕ) (rest : String) → n < fuel → value 0 (digits_before fuel n rest) ≡ value n rest
unfolding digits_before
value-digits_before zero n rest h = absurd (omega arith)
value-digits_before (suc fuel) n rest h = elim (dec_lt n 10) [
  | yes small ↦
      let one_digit = value_step 0 n rest (omega arith) in ground (arith, small, one_digit)
  | no big ↦
      let more =
        value-digits_before fuel (n / 10) (String.◌∷◌ (digit (n % 10)) rest) (omega arith)
        ∙ value_step (n / 10) n rest (omega arith) in
      ground (arith, big, more)
]

pub to_string_inj : (p q : ℕ) → to_string (pos p) ≡ to_string (pos q) → p ≡ q
unfolding to_string value
to_string_inj p q e =
    sym (value-digits_before (p + 1) p "" (omega arith))
    ∙ ap (value 0) e
    ∙ value-digits_before (q + 1) q "" (omega arith)

to_string-dashes : (p : ℕ) → dashes (to_string (pos p)) ≡ 0
unfolding to_string dashes
to_string-dashes p = digits_before-dashes (p + 1) p "" refl

-- Two services whose addresses hold no '-', and whose ports are not negative, register under one
-- id only if they have one name, one address and one port.
pub service_id_inj :
    (c d : RegisterConfig) (p q : ℕ)
    → dashes c.ip ≡ 0
    → dashes d.ip ≡ 0
    → c.port ≡ pos p
    → d.port ≡ pos q
    → service_id c ≡ service_id d
    → (c.service_name ≡ d.service_name) × (c.ip ≡ d.ip) × (c.port ≡ d.port)
unfolding service_id
service_id_inj c d p q hc hd ec ed e =
    let (head, port) =
      last_dash (c.service_name ++ "-" ++ c.ip) (d.service_name ++ "-" ++ d.ip) (to_string (pos p))
        (to_string (pos q)) (to_string-dashes p) (to_string-dashes q)
        (rearranged c p ec ∙ e ∙ sym (rearranged d q ed)) in
    let (name, ip) = last_dash c.service_name d.service_name c.ip d.ip hc hd head in
    (name, ip, ec ∙ ap pos (to_string_inj p q port) ∙ sym ed)
  where
    rearranged :
        (c : RegisterConfig) (p : ℕ)
        → c.port ≡ pos p
        → (c.service_name ++ "-" ++ c.ip) ++ "-" ++ to_string (pos p) ≡ service_id c
    rearranged c p ec =
        append_assoc c.service_name ("-" ++ c.ip) ("-" ++ to_string (pos p))
        ∙ ap (λ t. c.service_name ++ t) (append_assoc "-" c.ip ("-" ++ to_string (pos p)))
        ∙ rw ec refl
