-- ===== src/Registry/Discovery.antt =====
-- What Discover answers.
use Prim.Native.String.{◌++◌}
use mathlib.Core.List.{◌++◌ as list_append, append-nil, append_assoc}
use photon_commerce.Base.{
  String, Option, none, some, false, List, [], ◌∷◌, map, ◌≡◌, ◌≢◌, refl, sym, ap, ◌∙◌, ◌⊎◌, inl,
  inr, All, ret, thrown, Exception, Bool-cases, arith,
}
use photon_commerce.Domain.Json.{JsonLib}
use photon_commerce.Registry.{
  ServiceInstance, read_instance, add_instance, collect, parsed, discover,
}
use photon_commerce.Registry.Agent.{
  JsonArrays, Reading, read, exception, undefined, ConsulLib, IsConsulLib,
}
use text.Mathlib.Text.{◌==◌ as str_eq}
use text.Mathlib.TextEquality.{eq_iff}

ne-false : (a : String) → a ≢ "" → str_eq a "" ≡ false
ne-false a h = ground (arith, eq_iff a "", h)

module _ {W : Type 0} (J : JsonLib) (A : JsonArrays J) (C : ConsulLib W) where
  -- The reads of these items are these instances, and what follows the items is nothing, or an item
  -- whose read throws.
  pub record IsPrefix (items : List J.Json) (instances : List ServiceInstance) : Type 0 where
    pub before : List J.Json
    pub after : List J.Json
    pub split : items ≡ list_append before after
    pub all_read : map (read_instance J A C) before ≡ map read instances
    pub stopped :
        (after ≡ [])
        ⊎ ((item : J.Json) × (rest : List J.Json) × (after ≡ item ∷ rest)
            × (read_instance J A C item ≡ exception))

  abbrev pub IsDefined : J.Json → Type 0
  IsDefined item = read_instance J A C item ≢ undefined

  -- What the loop adds to what it has.
  abbrev Adds : List J.Json → List ServiceInstance → Option (List ServiceInstance) → Type 0
  Adds items done out =
      (found : List ServiceInstance) × (out ≡ some (list_append done found)) × IsPrefix items found

  add_instance-Adds :
      (r : Reading ServiceInstance) (item : J.Json) (rest : List J.Json)
      (done : List ServiceInstance)
      → read_instance J A C item ≡ r
      → IsDefined item
      → ((d : List ServiceInstance) → Adds rest d (collect J A C rest d))
      → Adds (item ∷ rest) done (add_instance J A C r done (λ d. collect J A C rest d))
  unfolding add_instance
  add_instance-Adds undefined item rest done e defined more = absurd (defined e)
  add_instance-Adds exception item rest done e defined more = (
    [],
    ap some (sym (append-nil done)),
    record {
      before = [];
      after = item ∷ rest;
      split = refl;
      all_read = refl;
      stopped = inr (item, rest, refl, e);
    },
  )
  add_instance-Adds (read i) item rest done e defined more =
      let (found, collected, p) = more (list_append done (i ∷ [])) in
      (
        i ∷ found,
        collected ∙ ap some (append_assoc done (i ∷ []) found),
        record {
          before = item ∷ p.before;
          after = p.after;
          split = ap (λ l. item ∷ l) p.split;
          all_read = rw (e, p.all_read) refl;
          stopped = p.stopped;
        },
      )

  collect-Adds :
      (items : List J.Json) (done : List ServiceInstance)
      → All IsDefined items
      → Adds items done (collect J A C items done)
  unfolding collect
  collect-Adds [] done defined = (
    [],
    ap some (sym (append-nil done)),
    record { before = []; after = []; split = refl; all_read = refl; stopped = inl refl },
  )
  collect-Adds (item ∷ rest) done (here, later) =
      add_instance-Adds (read_instance J A C item) item rest done refl here
        (λ d. collect-Adds rest d later)

  abbrev pub health_path : String → String
  health_path service_name = "/v1/health/service/" ++ service_name ++ "?passing=true"

  -- Where the agent answers with a JSON text, and no entry lacks a key that is read without a test,
  -- Discover returns the instances of the longest prefix of the
  -- entries that can be read.
  pub discover-IsPrefix :
      (service_name body : String) (j : J.Json) (w : W)
      → (C.get (health_path service_name) w).0 ≡ ret body
      → body ≢ ""
      → J.parse body ≡ some j
      → All IsDefined (A.items j)
      → (found : List ServiceInstance) × ((discover J A C service_name w).0 ≡ ret (some found))
        × IsPrefix (A.items j) found
  unfolding discover parsed
  discover-IsPrefix service_name body j w answered some_body parses defined =
      let (found, collected, p) = collect-Adds (A.items j) [] defined in
      let other = ne-false body some_body in
      (found, rw (answered, other, parses, collected) refl, p)

  -- Where the agent fails, or its answer is empty or no JSON, Discover returns no instances,
  -- and no exception leaves it.
  pub discover-nothing :
      (service_name : String) (w : W)
      → IsConsulLib C
      → ((e : Exception) × ((C.get (health_path service_name) w).0 ≡ thrown e))
        ⊎ ((body : String) × ((C.get (health_path service_name) w).0 ≡ ret body)
            × ((body ≡ "") ⊎ (J.parse body ≡ none)))
      → (discover J A C service_name w).0 ≡ ret (some [])
  unfolding discover parsed
  discover-nothing service_name w laws (inl (e, failed)) =
      let (what, std) = laws.get-thrown (health_path service_name) w e failed in
      rw (failed, std) refl
  discover-nothing service_name w laws (inr (body, answered, inl empty)) = rw (answered, empty) refl
  discover-nothing service_name w laws (inr (body, answered, inr no_json)) =
      elim (Bool-cases (str_eq body "")) [
        | inl empty ↦ rw (answered, empty) refl
        | inr other ↦ rw (answered, other, no_json) refl
      ]
