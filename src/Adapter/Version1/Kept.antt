-- ===== src/Adapter/Version1/Kept.antt =====
-- A delivered request keeps the objects in order.
use mathlib.Core.List.{◌++◌}
use photon_commerce.Base.{
  ℕ, none, some, List, ◌∷◌, ◌≡◌, ◌≢◌, refl, sym, ap, ◌∙◌, subst, arith, length, length-append,
  count, ℕ_discrete,
}
use photon_commerce.Adapter.Version1.{process, finish, RegisterCallData, Server, proceed}
use photon_commerce.Adapter.Version1.Lifetimes.{
  tags, fill, take_request, IsAt, IsUsed, Inv, update_same, requested-live, IsUsed-of, count-middle,
  count_same, count_other, new_object, processed, proceed-process, used-below,
}
use photon_commerce.Service.Model.{RegisterRequest}

module _ (no_request : RegisterRequest) where
  requested_counts :
      (s : Server) (this : ℕ) (before after : List ℕ)
      → Inv s
      → s.requested ≡ before ++ this ∷ after
      → (c : RegisterCallData) × (s.heap this ≡ some c)
        × (c.status ≡ process)
        × (count this (before ++ after) ≡ 0)
        × (count this s.spawned ≡ 0)
        × (count this (tags s.finishing) ≡ 0)
  requested_counts s this before after v e =
      let split = count-middle this this before after s.requested e in
      let own = count_same this this refl in
      let (c, live, st, er, el, ef) =
        requested-live (s.heap this) (count this s.requested) (count this s.spawned)
          (count this (tags s.finishing)) (omega arith) (v.used this) in
      (c, live, st, omega arith, el, ef)

  abbrev asked : RegisterRequest → RegisterCallData → RegisterCallData
  asked request c = record c { request = request }

  nothing-unused :
      (s : Server) (k : ℕ)
      → s.heap k ≡ none
      → IsUsed k s
      → (count k s.requested ≡ 0) × (count k s.spawned ≡ 0) × (count k (tags s.finishing) ≡ 0)
  nothing-unused s k gone v =
      subst (λ o. IsAt o (count k s.requested) (count k s.spawned) (count k (tags s.finishing)))
        gone v

  -- What a delivered request leads to.
  abbrev pub after_request : RegisterRequest → Server → ℕ → List ℕ → RegisterCallData → Server
  after_request request s this others c =
      processed no_request this (asked request c) (take_request request this others s)

  processed-IsUsed :
      (request : RegisterRequest) (s : Server) (this k : ℕ) (before after : List ℕ)
      (c : RegisterCallData)
      → Inv s
      → s.requested ≡ before ++ this ∷ after
      → s.heap this ≡ some c
      → count this (before ++ after) ≡ 0
      → count this s.spawned ≡ 0
      → count this (tags s.finishing) ≡ 0
      → IsUsed k (after_request request s this (before ++ after) c)
  processed-IsUsed request s this k before after c v e live er el ef =
      let below = used-below no_request s this v live in
      let split = count-middle k this before after s.requested e in
      let t = after_request request s this (before ++ after) c in
      elim (ℕ_discrete k this) [
        | yes same ↦
            subst (λ j. IsUsed j t) (sym same)
              (IsUsed-of this t (some (record (asked request c) { status = finish })) 0 1 0
                (ground arith) (omega (arith, er, count_other this s.fresh (omega arith)))
                (omega (arith, el, count_same this this refl)) ef (refl, refl))
        | no other ↦ elim (ℕ_discrete k s.fresh) [
          | yes new ↦
              let gone = v.beyond k (omega arith) in
              let unused = nothing-unused s k gone (v.used k) in
              IsUsed-of k t (some (new_object no_request process)) 1 0 0
                (ground (arith, other, new))
                (omega (arith, split, unused.0, count_same k s.fresh new))
                (omega (arith, unused.1, count_other k this other)) unused.2 (refl, refl, refl)
          | no old ↦
              IsUsed-of k t (s.heap k) (count k s.requested) (count k s.spawned)
                (count k (tags s.finishing)) (ground (arith, other, old))
                (omega (arith, split, count_other k this other, count_other k s.fresh old))
                (omega (arith, count_other k this other)) refl (v.used k)
        ]
      ]

  pub deliver-Inv :
      (request : RegisterRequest) (s : Server) (this : ℕ) (before after : List ℕ)
      → Inv s
      → s.requested ≡ before ++ this ∷ after
      → (t : Server) × (proceed no_request 2 this (take_request request this (before ++ after) s)
          ≡ some t)
        × Inv t
  deliver-Inv request s this before after v e =
      let (c, live, st, er, el, ef) = requested_counts s this before after v e in
      let below = used-below no_request s this v live in
      let counted = v.one_requested in
      (
        after_request request s this (before ++ after) c,
        proceed-process no_request this (asked request c)
            (take_request request this (before ++ after) s)
            (update_same this (fill request (s.heap this)) s.heap ∙ ap (fill request) live) st
            (omega arith),
        record {
          one_requested =
              omega (
                arith,
                ap length e,
                length-append before (this ∷ after),
                length-append before after,
              );
          beyond = λ k above.
              let free = v.beyond k (omega arith) in
              let other : k ≢ this = omega arith in
              let old : k ≢ s.fresh = omega arith in ground (arith, free, other, old);
          used = λ k. processed-IsUsed request s this k before after c v e live er el ef;
        },
      )
