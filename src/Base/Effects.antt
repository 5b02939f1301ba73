-- ===== src/Base/Effects.antt =====
-- `std::expected`, exceptions and `boost::asio::awaitable`: a computation that passes a state and
-- may throw. What it did to the state before it threw is kept.
use Prim.Native.String.{String}
use mathlib.Core.Path.{◌≡◌, refl}
use mathlib.Core.Logic.{◌⊎◌, inl, inr}

pub data Expected {ℓ κ} (A : Type ℓ) (E : Type κ) : Type (ℓ ⊔ κ) where
  value : A → Expected A E
  unexpected : E → Expected A E

-- `catch (const std::exception&)` takes the first and `catch (...)` both.
pub data Exception : Type 0 where
  std_exception : String → Exception
  unknown_exception : Exception

pub data Outcome {ℓ} (A : Type ℓ) : Type ℓ where
  ret : A → Outcome A
  thrown : Exception → Outcome A

abbrev pub Await {ℓ κ} : Type ℓ → Type κ → Type (ℓ ⊔ κ)
Await S A = S → Outcome A × S

abbrev pub pure {ℓ κ} : {S : Type ℓ} {A : Type κ} → A → Await S A
pure a s = (ret a, s)

abbrev pub throw {ℓ κ} : {S : Type ℓ} {A : Type κ} → Exception → Await S A
throw e s = (thrown e, s)

abbrev pub resume {ℓ κ μ} :
    {S : Type ℓ} {A : Type κ} {B : Type μ} → (A → Await S B) → Outcome A → S → Outcome B × S
resume f (ret a) s = f a s
resume f (thrown e) s = (thrown e, s)

infixl 5 ◌>>=◌ ◌>>◌
abbrev pub ◌>>=◌ {ℓ κ μ} :
    {S : Type ℓ} {A : Type κ} {B : Type μ} → Await S A → (A → Await S B) → Await S B
◌>>=◌ m f s = resume f (m s).0 (m s).1

abbrev pub ◌>>◌ {ℓ κ} : {S : Type ℓ} {B : Type κ} → Await S (Unit {0}) → Await S B → Await S B
m >> k = m >>= λ _. k

abbrev pub handle {ℓ κ} :
    {S : Type ℓ} {A : Type κ} → (String → Await S A) → Outcome A → S → Outcome A × S
handle h (ret a) s = (ret a, s)
handle h (thrown (std_exception what)) s = h what s
handle h (thrown unknown_exception) s = (thrown unknown_exception, s)

-- `try { m } catch (const std::exception& e) { h(e.what()) }`.
abbrev pub try_catch {ℓ κ} :
    {S : Type ℓ} {A : Type κ} → Await S A → (String → Await S A) → Await S A
try_catch m h s = handle h (m s).0 (m s).1

-- What follows a call that returns.
abbrev pub on_ret {ℓ κ} : {A : Type ℓ} {B : Type κ} → Outcome A → (A → Outcome B) → Outcome B
on_ret (ret a) f = f a
on_ret (thrown e) f = thrown e

pub on_ret-eq-ret {ℓ κ} :
    {A : Type ℓ} {B : Type κ} (o : Outcome A) (f : A → Outcome B) {b : B}
    → on_ret o f ≡ ret b
    → (a : A) × (o ≡ ret a) × (f a ≡ ret b)
on_ret-eq-ret (ret a) f h = (a, refl, h)
on_ret-eq-ret (thrown e) f h = cc

pub Outcome-cases {ℓ} :
    {A : Type ℓ} (o : Outcome A) → ((a : A) × (o ≡ ret a)) ⊎ ((e : Exception) × (o ≡ thrown e))
Outcome-cases (ret a) = inl (a, refl)
Outcome-cases (thrown e) = inr (e, refl)

pub resume-eq-ret {ℓ κ μ} :
    {S : Type ℓ} {A : Type κ} {B : Type μ} (f : A → Await S B) (o : Outcome A) (s : S) {b : B}
    → (resume f o s).0 ≡ ret b
    → (a : A) × (o ≡ ret a) × ((f a s).0 ≡ ret b)
resume-eq-ret f (ret a) s h = (a, refl, h)
resume-eq-ret f (thrown e) s h = cc

-- Inversion of a sequence that returned: its first part returned, and so did the rest.
pub >>=-eq-ret {ℓ κ μ} :
    {S : Type ℓ} {A : Type κ} {B : Type μ} (m : Await S A) (f : A → Await S B) (s : S) {b : B}
    → ((m >>= f) s).0 ≡ ret b
    → (a : A) × ((m s).0 ≡ ret a) × ((f a (m s).1).0 ≡ ret b)
>>=-eq-ret m f s h = resume-eq-ret f (m s).0 (m s).1 h

-- What a handler that returns lets through is no std::exception.
pub handle-thrown {ℓ κ} :
    {S : Type ℓ} {A : Type κ} (h : String → Await S A)
    → ((what : String) (s : S) → (a : A) × ((h what s).0 ≡ ret a))
    → (o : Outcome A) (s : S) (e : Exception) → (handle h o s).0 ≡ thrown e
    → e ≡ unknown_exception
handle-thrown h returns (ret a) s e p = cc
handle-thrown h returns (thrown (std_exception what)) s e p = cc ((returns what s).1)
handle-thrown h returns (thrown unknown_exception) s e p = cc
