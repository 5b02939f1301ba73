-- ===== src/Repository/Codes/Store.antt =====
-- VerificationCodeRepository over a working cache is a code store.
use Prim.Native.String.{◌++◌}
use photon_commerce.Base.{ℕ, String, Option, some, ◌&&◌, ◌≡◌, refl, ap, ◌∙◌, if◌then◌else◌, ret}
use photon_commerce.Base.Int.{pos}
use photon_commerce.Domain.Stores.{CodeStore, IsStorable, same_usage}
use photon_commerce.Repository.Cache.{Cache, IsCache}
use photon_commerce.Repository.Codes.{save_code, get_code, code_repository}
use photon_commerce.Repository.Codes.Keys.{prefix_text, key_prefix-text, prefix-test}
use photon_commerce.Service.Model.{CodeUsage}
use text.Mathlib.Text.{◌==◌ as str_eq}

module _ {S : Type 0} (cache : Cache S) (works : IsCache cache) where
  open works use {IsUp, entries}

  -- The code that a state of the cache holds.
  abbrev pub stored : S → CodeUsage → String → Option String
  stored s u p = entries s (prefix_text u ++ p)

  pub save_code_all :
      (s : S) (u : CodeUsage) (p c : String) (expiry : ℕ)
      → IsUp s
      → IsStorable u
      → ((save_code cache u p c expiry s).0 ≡ ret tt)
        × IsUp (save_code cache u p c expiry s).1
        × ((v : CodeUsage) (q : String)
            → IsStorable v
            → stored (save_code cache u p c expiry s).1 v q
              ≡ (if same_usage u v && str_eq p q then some c else stored s v q))
  unfolding save_code
  save_code_all s u p c expiry up hu =
      let (done, up', kept) = works.set-entries s (prefix_text u ++ p) c (pos expiry) up in
      rw (key_prefix-text u hu, done)
        (refl, up', λ v q hv. kept (prefix_text v ++ q) ∙ rw (prefix-test u v p q hu hv))

  -- Over a working cache, saving a code for a storable usage returns, and it changes the code of
  -- that usage and target alone: a code of another usage or of another phone number is what it was.
  pub save_code-stored :
      (s : S) (u v : CodeUsage) (p q c : String) (expiry : ℕ)
      → IsUp s
      → IsStorable u
      → IsStorable v
      → ((save_code cache u p c expiry s).0 ≡ ret tt)
        × IsUp (save_code cache u p c expiry s).1
        × (stored (save_code cache u p c expiry s).1 v q
            ≡ (if same_usage u v && str_eq p q then some c else stored s v q))
  save_code-stored s u v p q c expiry up hu hv =
      let (done, up', kept) = save_code_all s u p c expiry up hu in (done, up', kept v q hv)

  pub get_code_all :
      (s : S) (u : CodeUsage) (p : String)
      → IsUp s
      → IsStorable u
      → ((get_code cache u p s).0 ≡ ret (stored s u p))
        × IsUp (get_code cache u p s).1
        × ((v : CodeUsage) (q : String)
            → IsStorable v
            → stored (get_code cache u p s).1 v q ≡ stored s v q)
  unfolding get_code
  get_code_all s u p up hu =
      let (done, up', kept) = works.get-entries s (prefix_text u ++ p) up in
      rw (key_prefix-text u hu, done) (refl, up', λ v q hv. kept (prefix_text v ++ q))

  -- Over a working cache, reading a code for a storable usage returns what is stored for its usage
  -- and target, and changes no code of a storable usage.
  pub get_code-stored :
      (s : S) (u v : CodeUsage) (p q : String)
      → IsUp s
      → IsStorable u
      → IsStorable v
      → ((get_code cache u p s).0 ≡ ret (stored s u p))
        × IsUp (get_code cache u p s).1
        × (stored (get_code cache u p s).1 v q ≡ stored s v q)
  get_code-stored s u v p q up hu hv =
      let (done, up', kept) = get_code_all s u p up hu in (done, up', kept v q hv)

  -- Over a working cache, a save for a storable usage returns, and a read after it returns the
  -- saved code if it is for the same usage and target, and else what was stored for its own.
  pub get_code-save_code :
      (s : S) (u v : CodeUsage) (p q c : String) (expiry : ℕ)
      → IsUp s
      → IsStorable u
      → IsStorable v
      → ((save_code cache u p c expiry s).0 ≡ ret tt)
        × ((get_code cache v q (save_code cache u p c expiry s).1).0
            ≡ ret (if same_usage u v && str_eq p q then some c else stored s v q))
        × IsUp (get_code cache v q (save_code cache u p c expiry s).1).1
  get_code-save_code s u v p q c expiry up hu hv =
      let (done, up', kept) = save_code_all s u p c expiry up hu in
      let (got, up'', same) = get_code_all (save_code cache u p c expiry s).1 v q up' hv in
      (done, got ∙ ap ret (kept v q hv), up'')

  abbrev pub code_repository-store : CodeStore (code_repository cache)
  code_repository-store = record {
    IsUp = IsUp;
    stored = stored;
    save = save_code_all;
    get = get_code_all;
  }
