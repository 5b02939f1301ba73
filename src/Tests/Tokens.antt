-- ===== src/Tests/Tokens.antt =====
-- A library for tokens whose text holds the key, the user id and the time of expiry in the clear:
-- each character, and each unit of a number, behind a mark.
use Prim.Native.Char.{Char, code}
use photon_commerce.Base.{
  ℕ, zero, suc, String, some, Bool, true, false, ◌≡◌, refl, ap, ◌*◌, ◌/◌, ◌==◌, if◌then◌else◌,
  std_exception, Outcome, ret, thrown,
}
use photon_commerce.Utils.Jwt.{Claims, JwtLib, IsJwtLib, ticks}
use text.Mathlib.Text.{◌==◌ as str_eq}
use text.Mathlib.TextPositions.{eq_refl}

abbrev pub more : Char → Bool
more t = code t == b'1'

abbrev pub put_text : String → String → String
put_text String.[] rest = String.◌∷◌ "0" rest
put_text (String.◌∷◌ c s) rest = String.◌∷◌ "1" (String.◌∷◌ c (put_text s rest))

abbrev pub take_text : String → String × String
take_text String.[] = ("", "")
take_text (String.◌∷◌ t String.[]) = ("", "")
take_text (String.◌∷◌ t (String.◌∷◌ c s)) =
    let later = take_text s in
    if more t then (String.◌∷◌ c later.0, later.1) else ("", String.◌∷◌ c s)

take_text-put_text : (s rest : String) → take_text (put_text s rest) ≡ (s, rest)
take_text-put_text String.[] String.[] = refl
take_text-put_text String.[] (String.◌∷◌ c rest) = refl
take_text-put_text (String.◌∷◌ c s) rest = rw (take_text-put_text s rest)

abbrev pub put_number : ℕ → String → String
put_number zero rest = String.◌∷◌ "0" rest
put_number (suc n) rest = String.◌∷◌ "1" (put_number n rest)

abbrev pub take_number : String → ℕ
take_number String.[] = 0
take_number (String.◌∷◌ t s) = let later = take_number s in if more t then suc later else 0

take_number-put_number : (n : ℕ) → take_number (put_number n "") ≡ n
take_number-put_number zero = refl
take_number-put_number (suc n) = ap suc (take_number-put_number n)

pub record Token : Type 0 where
  pub key : String
  pub user_id : String
  pub expires_at : ℕ

abbrev pub token_of : Claims → String → Token
token_of c key = record { key = key; user_id = c.user_id; expires_at = c.expires_at }

abbrev pub read : String → Token
read text = record {
  key = (take_text text).0;
  user_id = (take_text (take_text text).1).0;
  expires_at = take_number (take_text (take_text text).1).1;
}

abbrev pub write : Claims → String → String
write c key = put_text key (put_text c.user_id (put_number c.expires_at ""))

read-write : (c : Claims) (key : String) → read (write c key) ≡ token_of c key
read-write c key = rw (
  take_text-put_text key (put_text c.user_id (put_number c.expires_at "")),
  take_text-put_text c.user_id (put_number c.expires_at ""),
  take_number-put_number c.expires_at,
)

abbrev pub check_key : Bool → Outcome (Unit {0})
check_key true = ret tt
check_key false = thrown (std_exception "signature")

abbrev pub toy_tokens : JwtLib
toy_tokens = record {
  Decoded = Token;
  sign = write;
  decode = λ text. ret (read text);
  expires_at = λ d. some (d.expires_at / ticks * ticks);
  verify = λ key issuer now d. check_key (str_eq key d.key);
  user_id = λ d. ret (some d.user_id);
}

pub toy_tokens-laws : IsJwtLib toy_tokens
toy_tokens-laws = record {
  decoded = token_of;
  decode-sign = λ c key. ap ret (read-write c key);
  expires_at-decoded = λ c key. refl;
  user_id-decoded = λ c key. refl;
  verify-decoded = λ c key now issued h. rw (eq_refl key) refl;
}
