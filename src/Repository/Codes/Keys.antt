-- ===== src/Repository/Codes/Keys.antt =====
-- The keys under which codes and users are cached never collide.
use Prim.Native.String.{◌++◌, count}
use photon_commerce.Base.{
  String, ◌≡◌, refl, ◌≢◌, ◌∙◌, sym, ret, true, ◌&&◌, arith, inl, inr, Bool-cases,
}
use photon_commerce.Base.Text.{append-ne_of_head-ne}
use photon_commerce.Domain.Stores.{IsStorable, same_usage}
use photon_commerce.Repository.Codes.{key_prefix}
use photon_commerce.Repository.Users.{user_key}
use photon_commerce.Service.Model.{
  CodeUsage, unknown, user_register, user_login, reset_password, out_of_range,
}
use text.Mathlib.Text.{◌==◌ as str_eq}
use text.Mathlib.TextEquality.{eq_iff}
use text.Mathlib.TextLemmas.{append_assoc, append_cancel_left}
use text.Mathlib.TextPositions.{eq_refl}

-- Two texts split as head and rest, the heads of one length and different.
split-ne : (h k a b p q : String) → count h ≡ count k → h ≢ k → (h ++ a) ++ p ≢ (k ++ b) ++ q
split-ne h k a b p q same ne e =
    append-ne_of_head-ne h k (a ++ p) (b ++ q) same ne
      (sym (append_assoc h a p) ∙ e ∙ append_assoc k b q)

register-ne-login : (p q : String) → "verify_code:register:" ++ p ≢ "verify_code:login:" ++ q
register-ne-login p q =
    split-ne "verify_code:r" "verify_code:l" "egister:" "ogin:" p q refl
      (ground (arith, eq_iff "verify_code:r" "verify_code:l"))

reset-ne-login : (p q : String) → "verify_code:reset_pwd:" ++ p ≢ "verify_code:login:" ++ q
reset-ne-login p q =
    split-ne "verify_code:r" "verify_code:l" "eset_pwd:" "ogin:" p q refl
      (ground (arith, eq_iff "verify_code:r" "verify_code:l"))

register-ne-reset : (p q : String) → "verify_code:register:" ++ p ≢ "verify_code:reset_pwd:" ++ q
register-ne-reset p q =
    split-ne "verify_code:reg" "verify_code:res" "ister:" "et_pwd:" p q refl
      (ground (arith, eq_iff "verify_code:reg" "verify_code:res"))

-- The texts of the prefixes; "" for a usage that has none.
abbrev pub prefix_text : CodeUsage → String
prefix_text user_register = "verify_code:register:"
prefix_text user_login = "verify_code:login:"
prefix_text reset_password = "verify_code:reset_pwd:"
prefix_text _ = ""

pub key_prefix-text : (u : CodeUsage) → IsStorable u → key_prefix u ≡ ret (prefix_text u)
unfolding key_prefix
key_prefix-text unknown h = absurd h
key_prefix-text (out_of_range n) h = absurd h
key_prefix-text user_register h = refl
key_prefix-text user_login h = refl
key_prefix-text reset_password h = refl

-- Keys are equal only for one usage and one target.
prefix_inj :
    (u v : CodeUsage) (p q : String)
    → IsStorable u
    → IsStorable v
    → prefix_text u ++ p ≡ prefix_text v ++ q
    → (u ≡ v) × (p ≡ q)
prefix_inj unknown v p q h k e = absurd h
prefix_inj (out_of_range n) v p q h k e = absurd h
prefix_inj u unknown p q h k e = absurd k
prefix_inj u (out_of_range n) p q h k e = absurd k
prefix_inj user_register user_register p q h k e = (refl, append_cancel_left _ p q e)
prefix_inj user_login user_login p q h k e = (refl, append_cancel_left _ p q e)
prefix_inj reset_password reset_password p q h k e = (refl, append_cancel_left _ p q e)
prefix_inj user_register user_login p q h k e = absurd (register-ne-login p q e)
prefix_inj user_login user_register p q h k e = absurd (register-ne-login q p (sym e))
prefix_inj user_register reset_password p q h k e = absurd (register-ne-reset p q e)
prefix_inj reset_password user_register p q h k e = absurd (register-ne-reset q p (sym e))
prefix_inj reset_password user_login p q h k e = absurd (reset-ne-login p q e)
prefix_inj user_login reset_password p q h k e = absurd (reset-ne-login q p (sym e))

key_prefix-ret :
    (u : CodeUsage) (a : String) → key_prefix u ≡ ret a → IsStorable u × (prefix_text u ≡ a)
unfolding key_prefix
key_prefix-ret unknown a e = cc
key_prefix-ret (out_of_range n) a e = cc
key_prefix-ret user_register a e = (tt, cc)
key_prefix-ret user_login a e = (tt, cc)
key_prefix-ret reset_password a e = (tt, cc)

-- The cache keys of two codes are equal only if the codes have one usage and one target.
pub key_prefix_inj :
    (u v : CodeUsage) (a b p q : String)
    → key_prefix u ≡ ret a
    → key_prefix v ≡ ret b
    → a ++ p ≡ b ++ q
    → (u ≡ v) × (p ≡ q)
key_prefix_inj u v a b p q e f h =
    let (hu, ea) = key_prefix-ret u a e in
    let (hv, eb) = key_prefix-ret v b f in prefix_inj u v p q hu hv (rw (ea, eb) h)

prefix-ne-user_info :
    (u : CodeUsage) (p id : String) → IsStorable u → prefix_text u ++ p ≢ "user:info:" ++ id
prefix-ne-user_info unknown p id h = absurd h
prefix-ne-user_info (out_of_range n) p id h = absurd h
prefix-ne-user_info user_register p id h =
    split-ne "v" "u" "erify_code:register:" "ser:info:" p id refl (ground (arith, eq_iff "v" "u"))
prefix-ne-user_info user_login p id h =
    split-ne "v" "u" "erify_code:login:" "ser:info:" p id refl (ground (arith, eq_iff "v" "u"))
prefix-ne-user_info reset_password p id h =
    split-ne "v" "u" "erify_code:reset_pwd:" "ser:info:" p id refl (ground (arith, eq_iff "v" "u"))

-- No cache key of a code is the cache key of a user.
pub key_prefix-ne-user_key :
    (u : CodeUsage) (a p id : String) → key_prefix u ≡ ret a → a ++ p ≢ user_key id
unfolding user_key
key_prefix-ne-user_key u a p id e h =
    let (hu, ea) = key_prefix-ret u a e in prefix-ne-user_info u p id hu (rw ea h)

pub same_usage_refl : (u : CodeUsage) → IsStorable u → same_usage u u ≡ true
same_usage_refl unknown h = absurd h
same_usage_refl (out_of_range n) h = absurd h
same_usage_refl user_register h = refl
same_usage_refl user_login h = refl
same_usage_refl reset_password h = refl

same_usage-eq : (u v : CodeUsage) → same_usage u v ≡ true → u ≡ v
same_usage-eq user_register user_register e = refl
same_usage-eq user_login user_login e = refl
same_usage-eq reset_password reset_password e = refl
same_usage-eq u v e = cc

-- The test of two keys splits into a test of the usages and one of the targets.
pub prefix-test :
    (u v : CodeUsage) (p q : String)
    → IsStorable u
    → IsStorable v
    → str_eq (prefix_text u ++ p) (prefix_text v ++ q) ≡ (same_usage u v && str_eq p q)
prefix-test u v p q hu hv = elim (Bool-cases (str_eq (prefix_text u ++ p) (prefix_text v ++ q))) [
  | inl same ↦
      let (uv, pq) = prefix_inj u v p q hu hv ((eq_iff _ _).0 same) in
      same ∙ rw (← uv, ← pq, same_usage_refl u hu, eq_refl p)
  | inr other ↦ elim (Bool-cases (same_usage u v && str_eq p q)) [
    | inr differ ↦ other ∙ sym differ
    | inl both ↦
        let uv = same_usage-eq u v (ground (arith, both)) in
        let pq : p ≡ q = (eq_iff p q).0 (ground (arith, both)) in
        let same : prefix_text u ++ p ≡ prefix_text v ++ q = rw (uv, pq) in
        absurd (cc (other, (eq_iff (prefix_text u ++ p) (prefix_text v ++ q)).1 same))
  ]
]
