-- ===== src/Config/Checks.antt =====
-- Checks that passed: what a parser may use after them.
use photon_commerce.Base.{
  ℕ, zero, suc, String, ◌≡◌, refl, ◌≢◌, ◌⊎◌, inl, inr, subst, ◌<◌, ◌≤◌, ◌^◌, arith, Expected, value,
  unexpected, Bool, true, false, ◌||◌,
}
use photon_commerce.Base.Int.{ℤ, pos, negsuc, le_zero, lt_zero, gt_ℕ}
use photon_commerce.Config.Settings.{Failure, bind, yaml_exception, runtime_error}
use photon_commerce.Config.{throw_if, validate_port, validate_not_empty, auto_cpu_cores, threads_or}
use text.Mathlib.TextEquality.{eq_iff}
use photon_commerce.Config.Reading.{throw_if, validate_port, validate_not_empty}

-- From 1 to `top`.
abbrev pub IsUpTo : ℕ → ℤ → Type 0
IsUpTo top (pos n) = (1 ≤ n) × (n ≤ top)
IsUpTo top (negsuc n) = ⊥

abbrev pub IsPositive : ℤ → Type 0
IsPositive (pos n) = 1 ≤ n
IsPositive (negsuc n) = ⊥

abbrev pub IsPort : ℤ → Type 0
IsPort = IsUpTo 65535

abbrev pub yields : {A : Type 0} → A → Expected A Failure
yields a = value a

pub value_inj : {A : Type 0} {a b : A} → yields a ≡ yields b → a ≡ b
value_inj e = cc

pub Expected-cases :
    {A : Type 0} (m : Expected A Failure)
    → ((a : A) × (m ≡ value a)) ⊎ ((f : Failure) × (m ≡ unexpected f))
Expected-cases (value a) = inl (a, refl)
Expected-cases (unexpected f) = inr (f, refl)

pub Failure-cases :
    (f : Failure)
    → ((what : String) × (f ≡ yaml_exception what)) ⊎ ((what : String) × (f ≡ runtime_error what))
Failure-cases (yaml_exception what) = inl (what, refl)
Failure-cases (runtime_error what) = inr (what, refl)

-- What a parser yields has the property, if it yields anything.
pub record Gives {A : Type 0} (P : A → Type 0) (m : Expected A Failure) : Type 0 where
  pub given : (a : A) → m ≡ value a → P a

pub bind-eq-value :
    {A B : Type 0} (m : Expected A Failure) (f : A → Expected B Failure) (b : B)
    → bind m f ≡ value b
    → (a : A) × (m ≡ value a) × (f a ≡ value b)
unfolding bind
bind-eq-value (value a) f b h = (a, refl, h)
bind-eq-value (unexpected e) f b h = cc

pub Gives-bind :
    {A B : Type 0} {P : B → Type 0} (m : Expected A Failure) {f : A → Expected B Failure}
    → ((a : A) → m ≡ value a → Gives P (f a))
    → Gives P (bind m f)
Gives-bind m {f} k = record {
  given = λ b h. let (a, e, h') = bind-eq-value m f b h in (k a e).given b h';
}

-- A step whose outcome does not matter.
pub Gives-skip :
    {A B : Type 0} {P : B → Type 0} (m : Expected A Failure) {f : A → Expected B Failure}
    → ((a : A) → Gives P (f a))
    → Gives P (bind m f)
Gives-skip m k = Gives-bind m λ a e. k a

pub Gives-value : {A : Type 0} {P : A → Type 0} (a : A) → P a → Gives P (value a)
Gives-value {P} a h = record { given = λ b e. subst P (value_inj e) h }

-- What a check that passed tells.
pub throw_if-passed :
    (b : Bool) (message : String) {u : Unit {0}} → throw_if b message ≡ value u → b ≡ false
unfolding throw_if
throw_if-passed true message h = cc
throw_if-passed false message h = refl

pub validate_port-passed :
    (p : ℤ) (name : String) {u : Unit {0}} → validate_port p name ≡ value u → IsPort p
unfolding validate_port
validate_port-passed (pos n) name h =
    let ok = throw_if-passed _ _ h in (ground (arith, ok), ground (arith, ok))
validate_port-passed (negsuc n) name h = ground (arith, throw_if-passed true _ h)

pub validate_not_empty-passed :
    (t name : String) {u : Unit {0}} → validate_not_empty t name ≡ value u → t ≢ ""
unfolding validate_not_empty
validate_not_empty-passed t name h same = cc ((eq_iff t "").1 same, throw_if-passed _ _ h)

pub IsPositive-of : (n : ℤ) → le_zero n ≡ false → IsPositive n
IsPositive-of (pos n) h = ground arith
IsPositive-of (negsuc n) h = cc

pub IsUpTo-of : (n : ℤ) → (le_zero n || gt_ℕ n 1000) ≡ false → IsUpTo 1000 n
IsUpTo-of (pos n) h = (ground arith, ground arith)
IsUpTo-of (negsuc n) h = cc

pub all_false :
    (a b c d e : Bool)
    → (a || b || c || d || e) ≡ false
    → (a ≡ false) × (b ≡ false) × (c ≡ false) × (d ≡ false) × (e ≡ false)
all_false a b c d e h = ground arith

pub auto_cpu_cores-IsPositive : (hw : ℕ) → hw < 2 ^ 31 → IsPositive (auto_cpu_cores hw)
unfolding auto_cpu_cores
auto_cpu_cores-IsPositive hw h = ground arith

pub threads_or-IsPositive :
    (cores n : ℤ) → IsPositive cores → lt_zero n ≡ false → IsPositive (threads_or cores n)
unfolding threads_or
threads_or-IsPositive cores (pos zero) c h = c
threads_or-IsPositive cores (pos (suc n)) c h = omega arith
threads_or-IsPositive cores (negsuc n) c h = cc
