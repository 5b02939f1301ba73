-- ===== src/Adapter/Version1/Lifetimes.antt =====
-- The objects among their environment: gRPC delivers requests, the logic ends, replies are sent.
use mathlib.Core.List.{◌++◌}
use photon_commerce.Base.{
  ℕ, String, Option, none, some, List, [], ◌∷◌, ◌+◌, ◌≤◌, ◌<◌, ◌≡◌, ◌≢◌, refl, ap, arith, Exception,
  length, count, dec_lt, count-append,
}
use photon_commerce.Adapter.Authentication.{GrpcStatus}
use photon_commerce.Adapter.Version1.{
  State, create, process, finish, RegisterCallData, Heap, update, Server, construct, handle_create,
  handle_process, handle_finish, handle_status, proceed, on_logic_finished,
}
use photon_commerce.Service.Model.{RegisterRequest}

abbrev pub Sending : Type 0
Sending = ℕ × GrpcStatus × String

abbrev pub tags : List Sending → List ℕ
tags [] = []
tags (x ∷ xs) = x.0 ∷ tags xs

-- gRPC writes the request into the object; a shut-down leaves it.
abbrev pub fill : RegisterRequest → Option RegisterCallData → Option RegisterCallData
fill request none = none
fill request (some c) = some (record c { request = request })

-- The tag of an event is taken from the list of what is under way.
abbrev pub take_request : RegisterRequest → ℕ → List ℕ → Server → Server
take_request request this others s = record s {
  heap = update this (fill request (s.heap this)) s.heap;
  requested = others;
}

abbrev pub take_spawned : List ℕ → Server → Server
take_spawned others s = record s { spawned = others }

abbrev pub take_sent : List Sending → Server → Server
take_sent others s = record s { finishing = others }

-- What the environment may do next.
pub data Event (s : Server) : Type 0 where
  deliver :
      (request : RegisterRequest) (this : ℕ) (before after : List ℕ)
      → s.requested ≡ before ++ this ∷ after
      → Event s
  logic_ends :
      (e : Option Exception) (this : ℕ) (before after : List ℕ)
      → s.spawned ≡ before ++ this ∷ after
      → Event s
  sent :
      (this : ℕ) (status : GrpcStatus) (reply : String) (before after : List Sending)
      → s.finishing ≡ before ++ (this, status, reply) ∷ after
      → Event s

-- What the object at an address is for: it waits for a request, or its logic runs, or its reply is
-- being sent, and one of these only.
abbrev pub IsFor : State → ℕ → ℕ → ℕ → Type 0
IsFor create requested spawned sending = ⊥
IsFor process requested spawned sending = (requested ≡ 1) × (spawned ≡ 0) × (sending ≡ 0)
IsFor finish requested spawned sending = (requested ≡ 0) × (spawned + sending ≡ 1)

abbrev pub IsAt : Option RegisterCallData → ℕ → ℕ → ℕ → Type 0
IsAt none requested spawned sending = (requested ≡ 0) × (spawned ≡ 0) × (sending ≡ 0)
IsAt (some c) requested spawned sending = IsFor c.status requested spawned sending

abbrev pub IsUsed : ℕ → Server → Type 0
IsUsed k s = IsAt (s.heap k) (count k s.requested) (count k s.spawned) (count k (tags s.finishing))

pub record Inv (s : Server) : Type 0 where
  pub one_requested : length s.requested ≡ 1
  pub beyond : (k : ℕ) → s.fresh ≤ k → s.heap k ≡ none
  pub used : (k : ℕ) → IsUsed k s

pub update_same :
    (this : ℕ) (o : Option RegisterCallData) (heap : Heap) → update this o heap this ≡ o
update_same this o heap = ground arith

pub update_other :
    (k this : ℕ) (o : Option RegisterCallData) (heap : Heap)
    → k ≢ this
    → update this o heap k ≡ heap k
update_other k this o heap h = ground (arith, h)

pub requested-live :
    (o : Option RegisterCallData) (r l f : ℕ)
    → 0 < r
    → IsAt o r l f
    → (c : RegisterCallData) × (o ≡ some c) × (c.status ≡ process) × (r ≡ 1) × (l ≡ 0) × (f ≡ 0)
requested-live none r l f h v = absurd (omega arith)
requested-live (some c) r l f h v =
    let (st, er, el, ef) = status c.status v in (c, refl, st, er, el, ef)
  where
    status : (st : State) → IsFor st r l f → (st ≡ process) × (r ≡ 1) × (l ≡ 0) × (f ≡ 0)
    status create v = absurd v
    status process v = (refl, v.0, v.1, v.2)
    status finish v = absurd (omega arith)

pub finishing-live :
    (o : Option RegisterCallData) (r l f : ℕ)
    → 0 < l + f
    → IsAt o r l f
    → (c : RegisterCallData) × (o ≡ some c) × (c.status ≡ finish) × (r ≡ 0) × (l + f ≡ 1)
finishing-live none r l f h v = absurd (omega arith)
finishing-live (some c) r l f h v = let (st, er, elf) = status c.status v in (c, refl, st, er, elf)
  where
    status : (st : State) → IsFor st r l f → (st ≡ finish) × (r ≡ 0) × (l + f ≡ 1)
    status create v = absurd v
    status process v = absurd (omega arith)
    status finish v = (refl, v.0, v.1)

pub IsUsed-of :
    (k : ℕ) (s : Server) (o : Option RegisterCallData) (r l f : ℕ)
    → s.heap k ≡ o
    → count k s.requested ≡ r
    → count k s.spawned ≡ l
    → count k (tags s.finishing) ≡ f
    → IsAt o r l f
    → IsUsed k s
IsUsed-of k s o r l f eo er el ef v = rw (eo, er, el, ef) v

pub count-middle :
    (k this : ℕ) (before after xs : List ℕ)
    → xs ≡ before ++ this ∷ after
    → count k xs ≡ count k (this ∷ []) + count k (before ++ after)
count-middle k this before after xs e =
    omega (arith, ap (count k) e, count-append k before (this ∷ after), count-append k before after)

pub count_same : (k x : ℕ) → k ≡ x → count k (x ∷ []) ≡ 1
count_same k x e = ground (arith, e)

pub count_other : (k x : ℕ) → k ≢ x → count k (x ∷ []) ≡ 0
count_other k x e = ground (arith, e)

module _ (no_request : RegisterRequest) where
  -- What the code does at an event; `Proceed` within `Proceed` is one level deep.
  abbrev pub handle : {s : Server} → Event s → Option Server
  handle {s} (deliver request this before after e) =
      proceed no_request 2 this (take_request request this (before ++ after) s)
  handle {s} (logic_ends e this before after _) =
      on_logic_finished e this (take_spawned (before ++ after) s)
  handle {s} (sent this status reply before after _) =
      proceed no_request 2 this (take_sent (before ++ after) s)

  pub data Reach (s : Server) : Server → Type 0 where
    here : Reach s s
    next : {t u : Server} → Reach s t → (ev : Event t) → handle ev ≡ some u → Reach s u

  abbrev pub new_object : State → RegisterCallData
  new_object st = record { status = st; request = no_request; reply = "" }

  -- What `Proceed` does in PROCESS.
  abbrev pub processed : ℕ → RegisterCallData → Server → Server
  processed this c s = record {
    heap = update this (some (record c { status = finish })) (
        update s.fresh (some (new_object process))
          (update s.fresh (some (new_object create)) s.heap));
    fresh = s.fresh + 1;
    requested = s.fresh ∷ s.requested;
    spawned = this ∷ s.spawned;
    finishing = s.finishing;
  }

  pub proceed-process :
      (this : ℕ) (c : RegisterCallData) (s : Server)
      → s.heap this ≡ some c
      → c.status ≡ process
      → this ≢ s.fresh
      → proceed no_request 2 this s ≡ some (processed this c s)
  unfolding proceed handle_status handle_process handle_create construct
  proceed-process this c s e st other =
      let created = update_same s.fresh (some (new_object create)) s.heap in
      rw
        (
          e,
          st,
          created,
          update_other this s.fresh (some (new_object process)) _ other,
          update_other this s.fresh (some (new_object create)) s.heap other,
          e,
        )
        refl

  pub proceed-finish :
      (this : ℕ) (c : RegisterCallData) (s : Server)
      → s.heap this ≡ some c
      → c.status ≡ finish
      → proceed no_request 2 this s ≡ some (record s { heap = update this none s.heap })
  unfolding proceed handle_status handle_finish
  proceed-finish this c s e st = rw (e, st) refl

  -- An address under way is none that `new` will give.
  pub used-below :
      (s : Server) (this : ℕ) {c : RegisterCallData} → Inv s → s.heap this ≡ some c → this < s.fresh
  used-below s this v e = elim (dec_lt this s.fresh) [
    | yes lt ↦ lt
    | no ge ↦ cc (v.beyond this (omega arith))
  ]
