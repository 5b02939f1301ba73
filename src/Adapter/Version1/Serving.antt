-- ===== src/Adapter/Version1/Serving.antt =====
-- From the first `Init` on.
use photon_commerce.Base.{
  ℕ, none, some, [], ◌∷◌, ◌+◌, ◌≡◌, ◌≢◌, refl, sym, ◌∙◌, subst, arith, length, ℕ_discrete, some_inj,
}
use photon_commerce.Adapter.Version1.{
  create, process, update, Server, construct, handle_create, handle_status, proceed, init,
}
use photon_commerce.Adapter.Version1.Lifetimes.{
  Event, deliver, logic_ends, sent, handle, Reach, here, next, IsUsed, Inv, update_same, IsUsed-of,
  count_same, count_other, new_object,
}
use photon_commerce.Adapter.Version1.Ended.{logic_ends-Inv, sent-Inv}
use photon_commerce.Adapter.Version1.Kept.{deliver-Inv}
use photon_commerce.Service.Model.{RegisterRequest}

-- Before the first object, where `new` will give the address `fresh`.
abbrev pub empty_server : ℕ → Server
empty_server fresh = record {
  heap = λ k. none;
  fresh = fresh;
  requested = [];
  spawned = [];
  finishing = [];
}

module _ (no_request : RegisterRequest) where
  handle-Inv :
      {s : Server} → Inv s → (ev : Event s) → (t : Server) × (handle no_request ev ≡ some t) × Inv t
  handle-Inv {s} v (deliver request this before after e) =
      deliver-Inv no_request request s this before after v e
  handle-Inv {s} v (logic_ends ex this before after e) =
      logic_ends-Inv no_request ex s this before after v e
  handle-Inv {s} v (sent this status reply before after e) =
      sent-Inv no_request s (this, status, reply) before after v e

  abbrev pub started : ℕ → Server
  started fresh = record {
    heap =
        update fresh (some (new_object no_request process))
          (update fresh (some (new_object no_request create)) (λ k. none));
    fresh = fresh + 1;
    requested = fresh ∷ [];
    spawned = [];
    finishing = [];
  }

  init-started : (fresh : ℕ) → init no_request 2 (empty_server fresh) ≡ some (started fresh)
  unfolding init proceed handle_status handle_create construct
  init-started fresh = rw (update_same fresh (some (new_object no_request create)) (λ k. none)) refl

  started-Inv : (fresh : ℕ) → Inv (started fresh)
  started-Inv fresh = record {
    one_requested = refl;
    beyond = λ k above. let other : k ≢ fresh = omega arith in ground (arith, other);
    used = λ k. elim (ℕ_discrete k fresh) [
      | yes same ↦
          IsUsed-of k (started fresh) (some (new_object no_request process)) 1 0 0
            (ground (arith, same)) (omega (arith, count_same k fresh same)) refl refl
            (refl, refl, refl)
      | no other ↦
          IsUsed-of k (started fresh) none 0 0 0 (ground (arith, other))
            (omega (arith, count_other k fresh other)) refl refl (refl, refl, refl)
    ];
  }

  Reach-Inv : {s t : Server} → Reach no_request s t → Inv s → Inv t
  Reach-Inv here v = v
  Reach-Inv (next r ev e) v =
      let (u, handled, kept) = handle-Inv (Reach-Inv r v) ev in
      subst Inv (some_inj (sym handled ∙ e)) kept

  -- From the `Init` of the first object on, in each state that is reached, the code handles every
  -- event that may come next without an access to an object that was deleted or never created.
  -- After it exactly one object waits for a request, and an address has an object exactly if it is
  -- under way once: it waits for a request in PROCESS, or in FINISH its logic runs or its reply
  -- is being sent; so no object is left behind.
  pub handle-returns :
      (fresh k : ℕ) {s t : Server}
      → init no_request 2 (empty_server fresh) ≡ some s
      → Reach no_request s t
      → (ev : Event t)
      → (u : Server) × (handle no_request ev ≡ some u) × (length u.requested ≡ 1) × IsUsed k u
  handle-returns fresh k e r ev =
      let begun = subst Inv (some_inj (sym (init-started fresh) ∙ e)) (started-Inv fresh) in
      let (u, handled, v) = handle-Inv (Reach-Inv r begun) ev in
      (u, handled, v.one_requested, v.used k)
