-- ===== src/Adapter/Version1/Ended.antt =====
-- The end of the logic, and of the reply, keep the objects in order.
use mathlib.Core.List.{◌++◌}
use photon_commerce.Base.{
  ℕ, Option, none, some, List, [], ◌∷◌, ◌+◌, ◌≡◌, refl, sym, ap, ◌∙◌, subst, arith, Exception,
  count, ℕ_discrete,
}
use photon_commerce.Adapter.Version1.{
  finish, RegisterCallData, update, Server, proceed, on_logic_finished, logic_left, run_logic,
}
use photon_commerce.Adapter.Version1.Lifetimes.{
  Sending, tags, take_spawned, take_sent, IsUsed, Inv, update_same, update_other, finishing-live,
  IsUsed-of, count-middle, count_same, count_other, proceed-finish, used-below,
}
use photon_commerce.Adapter.CallData.{status_of}
use photon_commerce.Service.Model.{RegisterRequest}

module _ (no_request : RegisterRequest) where
  tags-append : (xs ys : List Sending) → tags (xs ++ ys) ≡ tags xs ++ tags ys
  tags-append [] ys = refl
  tags-append (x ∷ xs) ys = ap (λ l. x.0 ∷ l) (tags-append xs ys)

  tags-middle :
      (k : ℕ) (x : Sending) (before after xs : List Sending)
      → xs ≡ before ++ x ∷ after
      → count k (tags xs) ≡ count k (x.0 ∷ []) + count k (tags (before ++ after))
  tags-middle k x before after xs e =
      count-middle k x.0 (tags before) (tags after) (tags xs)
        (ap tags e ∙ tags-append before (x ∷ after))
      ∙ ap (λ l. count k (x.0 ∷ []) + count k l) (sym (tags-append before after))

  logic_left-status :
      (e : Option Exception) (c : RegisterCallData) → (logic_left e c).status ≡ c.status
  unfolding logic_left run_logic
  logic_left-status none c = refl
  logic_left-status (some e) c = refl

  abbrev after_logic : Option Exception → Server → ℕ → List ℕ → RegisterCallData → Server
  after_logic ex s this others c = record s {
    heap = update this (some (logic_left ex c)) s.heap;
    spawned = others;
    finishing = (this, status_of ex, (logic_left ex c).reply) ∷ s.finishing;
  }

  logic_ends-IsUsed :
      (ex : Option Exception) (s : Server) (this k : ℕ) (before after : List ℕ)
      (c : RegisterCallData)
      → Inv s
      → s.spawned ≡ before ++ this ∷ after
      → c.status ≡ finish
      → count this s.requested ≡ 0
      → count this s.spawned + count this (tags s.finishing) ≡ 1
      → IsUsed k (after_logic ex s this (before ++ after) c)
  logic_ends-IsUsed ex s this k before after c v e st er elf =
      let t = after_logic ex s this (before ++ after) c in
      let split = count-middle k this before after s.spawned e in
      let own_split = count-middle this this before after s.spawned e in
      let own = count_same this this refl in
      elim (ℕ_discrete k this) [
        | yes same ↦
            subst (λ j. IsUsed j t) (sym same)
              (IsUsed-of this t (some (logic_left ex c)) 0 0 1
                (update_same this (some (logic_left ex c)) s.heap) er (omega arith) (omega arith)
                (rw (logic_left-status ex c, st) (refl, refl)))
        | no other ↦
            let not_it = count_other k this other in
            IsUsed-of k t (s.heap k) (count k s.requested) (count k s.spawned)
              (count k (tags s.finishing))
              (update_other k this (some (logic_left ex c)) s.heap other) refl (omega arith)
              (omega arith) (v.used k)
      ]

  pub logic_ends-Inv :
      (ex : Option Exception) (s : Server) (this : ℕ) (before after : List ℕ)
      → Inv s
      → s.spawned ≡ before ++ this ∷ after
      → (t : Server) × (on_logic_finished ex this (take_spawned (before ++ after) s) ≡ some t)
        × Inv t
  unfolding on_logic_finished
  logic_ends-Inv ex s this before after v e =
      let split = count-middle this this before after s.spawned e in
      let own = count_same this this refl in
      let (c, live, st, er, elf) =
        finishing-live (s.heap this) (count this s.requested) (count this s.spawned)
          (count this (tags s.finishing)) (omega arith) (v.used this) in
      let below = used-below no_request s this v live in
      (
        after_logic ex s this (before ++ after) c,
        rw live refl,
        record {
          one_requested = v.one_requested;
          beyond = λ k above.
              update_other k this (some (logic_left ex c)) s.heap (omega arith) ∙ v.beyond k above;
          used = λ k. logic_ends-IsUsed ex s this k before after c v e st er elf;
        },
      )

  sent-IsUsed :
      (s : Server) (x : Sending) (k : ℕ) (before after : List Sending)
      → Inv s
      → s.finishing ≡ before ++ x ∷ after
      → count x.0 s.requested ≡ 0
      → count x.0 s.spawned + count x.0 (tags s.finishing) ≡ 1
      → IsUsed k (record s { heap = update x.0 none s.heap; finishing = before ++ after })
  sent-IsUsed s x k before after v e er elf =
      let t = record s { heap = update x.0 none s.heap; finishing = before ++ after } in
      let split = tags-middle k x before after s.finishing e in
      let own_split = tags-middle x.0 x before after s.finishing e in
      let own = count_same x.0 x.0 refl in
      elim (ℕ_discrete k x.0) [
        | yes same ↦
            subst (λ j. IsUsed j t) (sym same)
              (IsUsed-of x.0 t none 0 0 0 (update_same x.0 none s.heap) er (omega arith)
                (omega arith) (refl, refl, refl))
        | no other ↦
            let not_it = count_other k x.0 other in
            IsUsed-of k t (s.heap k) (count k s.requested) (count k s.spawned)
              (count k (tags s.finishing)) (update_other k x.0 none s.heap other) refl refl
              (omega arith) (v.used k)
      ]

  pub sent-Inv :
      (s : Server) (x : Sending) (before after : List Sending)
      → Inv s
      → s.finishing ≡ before ++ x ∷ after
      → (t : Server) × (proceed no_request 2 x.0 (take_sent (before ++ after) s) ≡ some t) × Inv t
  sent-Inv s x before after v e =
      let split = tags-middle x.0 x before after s.finishing e in
      let own = count_same x.0 x.0 refl in
      let (c, live, st, er, elf) =
        finishing-live (s.heap x.0) (count x.0 s.requested) (count x.0 s.spawned)
          (count x.0 (tags s.finishing)) (omega arith) (v.used x.0) in
      let below = used-below no_request s x.0 v live in
      (
        record s { heap = update x.0 none s.heap; finishing = before ++ after },
        proceed-finish no_request x.0 c (take_sent (before ++ after) s) live st,
        record {
          one_requested = v.one_requested;
          beyond = λ k above. update_other k x.0 none s.heap (omega arith) ∙ v.beyond k above;
          used = λ k. sent-IsUsed s x k before after v e er elf;
        },
      )
