-- ===== src/Server/Seeding/Blocks.antt =====
-- What the managers register, one after the other.
use mathlib.Core.List.{◌++◌, append-nil, append_assoc}
use photon_commerce.Base.{
  ℕ, zero, suc, if◌then◌else◌, Bool, true, false, List, [], ◌∷◌, ◌+◌, ◌≡◌, refl, sym, ap, ◌∙◌,
  arith, ret,
}
use photon_commerce.Adapter.Manager.{
  Rpc, register_rpc, send_code_rpc, login_pw_rpc, login_code_rpc, get_user_info_rpc, Queue,
  CallDataManager, Pointer, is_null, to_size, make_manager, start, start_rounds,
}
use photon_commerce.Config.Settings.{RpcLimitsConfig}
use photon_commerce.Server.Seeding.{Dependencies, Seeds, keep, start_made, seed_call_data}

-- Consecutive addresses.
abbrev pub addresses : ℕ → ℕ → List ℕ
addresses from zero = []
addresses from (suc n) = from ∷ addresses (from + 1) n

-- Requests of one RPC.
abbrev pub requests_of : Rpc → List ℕ → List (Rpc × ℕ)
requests_of rpc [] = []
requests_of rpc (tag ∷ rest) = (rpc, tag) ∷ requests_of rpc rest

requests_of-append :
    (rpc : Rpc) (xs ys : List ℕ)
    → requests_of rpc (xs ++ ys) ≡ requests_of rpc xs ++ requests_of rpc ys
requests_of-append rpc [] ys = refl
requests_of-append rpc (x ∷ xs) ys = ap (λ l. (rpc, x) ∷ l) (requests_of-append rpc xs ys)

-- What a run of `n` rounds does.
abbrev seeded : ℕ → CallDataManager → Queue → CallDataManager × Queue
seeded n m q = (
  record m { pool = m.pool ++ addresses q.fresh n },
  record { fresh = q.fresh + n; requests = q.requests ++ requests_of m.rpc (addresses q.fresh n) },
)

seeded-eq :
    (m : CallDataManager) {pool pool' : List ℕ} {fresh fresh' : ℕ}
    {requests requests' : List (Rpc × ℕ)}
    → pool ≡ pool'
    → fresh ≡ fresh'
    → requests ≡ requests'
    → ◌≡◌ {A = CallDataManager × Queue}
        (record m { pool = pool }, record { fresh = fresh; requests = requests })
        (record m { pool = pool' }, record { fresh = fresh'; requests = requests' })
seeded-eq m ep ef er = rw (ep, ef, er) refl

start_rounds-seeded : (n : ℕ) (m : CallDataManager) (q : Queue) → start_rounds n m q ≡ seeded n m q
unfolding start_rounds
start_rounds-seeded zero m q =
    seeded-eq m (sym (append-nil m.pool)) (omega arith) (sym (append-nil q.requests))
start_rounds-seeded (suc n) m q =
    start_rounds-seeded n (record m { pool = m.pool ++ q.fresh ∷ [] })
      (record { fresh = q.fresh + 1; requests = q.requests ++ (m.rpc, q.fresh) ∷ [] })
    ∙ seeded-eq m (append_assoc m.pool (q.fresh ∷ []) (addresses (q.fresh + 1) n)) (omega arith) (
        append_assoc q.requests ((m.rpc, q.fresh) ∷ [])
          (requests_of m.rpc (addresses (q.fresh + 1) n)))

-- All pointers are set.
pub record IsWired (d : Dependencies) : Type 0 where
  pub auth_grpc_service : is_null d.auth_grpc_service ≡ false
  pub basic_user_grpc_service : is_null d.basic_user_grpc_service ≡ false
  pub auth_business_service : is_null d.auth_business_service ≡ false
  pub basic_user_business_service : is_null d.basic_user_business_service ≡ false
  pub jwt_util : is_null d.jwt_util ≡ false
  pub cq : is_null d.cq ≡ false

abbrev pub block : Rpc → ℕ → Queue → CallDataManager × Queue
block rpc n q = seeded n (record { rpc = rpc; initial_size = n; pool = [] }) q

started-block :
    (rpc : Rpc) (n : ℕ) (grpc_service business_service jwt_util cq : Pointer) (s : Seeds)
    → is_null grpc_service ≡ false
    → is_null business_service ≡ false
    → is_null jwt_util ≡ false
    → is_null cq ≡ false
    → start_made (make_manager rpc n grpc_service business_service jwt_util cq) s
      ≡ (ret tt, (s.0 ++ (block rpc n s.1).0 ∷ [], (block rpc n s.1).1))
unfolding make_manager start_made keep start
started-block rpc n g b j c s hg hb hj hc =
    rw
      (
        hc,
        hg,
        hj,
        hb,
        start_rounds-seeded n (record { rpc = rpc; initial_size = n; pool = [] }) s.1,
      )
      refl

-- The number of objects for an RPC.
abbrev pub limit : Rpc → RpcLimitsConfig → ℕ
limit register_rpc limits = to_size limits.register_num
limit send_code_rpc limits = to_size limits.send_code_num
limit login_pw_rpc limits = to_size limits.login_pw_num
limit login_code_rpc limits = to_size limits.login_code_num
limit get_user_info_rpc limits = to_size limits.get_user_info_num

module _ (limits : RpcLimitsConfig) (d : Dependencies) (wired : IsWired d) (q : Queue) where
  abbrev pub b1 : CallDataManager × Queue
  b1 = block register_rpc (limit register_rpc limits) q

  abbrev pub b2 : CallDataManager × Queue
  b2 = block send_code_rpc (limit send_code_rpc limits) b1.1

  abbrev pub b3 : CallDataManager × Queue
  b3 = block login_pw_rpc (limit login_pw_rpc limits) b2.1

  abbrev pub b4 : CallDataManager × Queue
  b4 = block login_code_rpc (limit login_code_rpc limits) b3.1

  abbrev pub b5 : CallDataManager × Queue
  b5 = block get_user_info_rpc (limit get_user_info_rpc limits) b4.1

  basic_user :
      (rpc : Rpc) (n : ℕ) (s : Seeds)
      → start_made
          (make_manager rpc n d.basic_user_grpc_service d.basic_user_business_service d.jwt_util
            d.cq)
          s
        ≡ (ret tt, (s.0 ++ (block rpc n s.1).0 ∷ [], (block rpc n s.1).1))
  basic_user rpc n s =
      started-block rpc n d.basic_user_grpc_service d.basic_user_business_service d.jwt_util d.cq s
        wired.basic_user_grpc_service wired.basic_user_business_service wired.jwt_util wired.cq

  auth :
      (rpc : Rpc) (n : ℕ) (s : Seeds)
      → start_made
          (make_manager rpc n d.auth_grpc_service d.auth_business_service d.jwt_util d.cq)
          s
        ≡ (ret tt, (s.0 ++ (block rpc n s.1).0 ∷ [], (block rpc n s.1).1))
  auth rpc n s =
      started-block rpc n d.auth_grpc_service d.auth_business_service d.jwt_util d.cq s
        wired.auth_grpc_service wired.auth_business_service wired.jwt_util wired.cq

  pub seed_call_data-blocks :
      seed_call_data limits d ([], q) ≡ (ret tt, (b1.0 ∷ b2.0 ∷ b3.0 ∷ b4.0 ∷ b5.0 ∷ [], b5.1))
  unfolding seed_call_data
  seed_call_data-blocks =
      rw
        (
          basic_user register_rpc (limit register_rpc limits) ([], q),
          auth send_code_rpc (limit send_code_rpc limits) (b1.0 ∷ [], b1.1),
          auth login_pw_rpc (limit login_pw_rpc limits) (b1.0 ∷ b2.0 ∷ [], b2.1),
          auth login_code_rpc (limit login_code_rpc limits) (b1.0 ∷ b2.0 ∷ b3.0 ∷ [], b3.1),
          basic_user get_user_info_rpc (limit get_user_info_rpc limits)
              (b1.0 ∷ b2.0 ∷ b3.0 ∷ b4.0 ∷ [], b4.1),
        )
        refl

abbrev pub same_rpc : Rpc → Rpc → Bool
same_rpc register_rpc register_rpc = true
same_rpc send_code_rpc send_code_rpc = true
same_rpc login_pw_rpc login_pw_rpc = true
same_rpc login_code_rpc login_code_rpc = true
same_rpc get_user_info_rpc get_user_info_rpc = true
same_rpc _ _ = false

-- How many requests of an RPC there are.
abbrev pub requested : Rpc → List (Rpc × ℕ) → ℕ
requested rpc [] = 0
requested rpc (x ∷ xs) = (if same_rpc rpc x.0 then 1 else 0) + requested rpc xs

abbrev pub tags : List (Rpc × ℕ) → List ℕ
tags [] = []
tags (x ∷ xs) = x.1 ∷ tags xs

abbrev pub pools : List CallDataManager → List ℕ
pools [] = []
pools (m ∷ ms) = m.pool ++ pools ms

requested-append :
    (rpc : Rpc) (xs ys : List (Rpc × ℕ))
    → requested rpc (xs ++ ys) ≡ requested rpc xs + requested rpc ys
requested-append rpc [] ys = omega arith
requested-append rpc (x ∷ xs) ys = omega (arith, requested-append rpc xs ys)

requested-requests_of :
    (rpc other : Rpc) (from n : ℕ)
    → requested rpc (requests_of other (addresses from n)) ≡ (if same_rpc rpc other then n else 0)
requested-requests_of rpc other from zero = ground arith
requested-requests_of rpc other from (suc n) =
    ground (arith, requested-requests_of rpc other (from + 1) n)

tags-append : (xs ys : List (Rpc × ℕ)) → tags (xs ++ ys) ≡ tags xs ++ tags ys
tags-append [] ys = refl
tags-append (x ∷ xs) ys = ap (λ l. x.1 ∷ l) (tags-append xs ys)

tags-requests_of : (rpc : Rpc) (xs : List ℕ) → tags (requests_of rpc xs) ≡ xs
tags-requests_of rpc [] = refl
tags-requests_of rpc (x ∷ xs) = ap (λ l. x ∷ l) (tags-requests_of rpc xs)

addresses-append :
    (from m n : ℕ) → addresses from (m + n) ≡ addresses from m ++ addresses (from + m) n
addresses-append from zero n =
    let none_before : 0 + n ≡ n = omega arith in
    let same : from + 0 ≡ from = omega arith in rw (none_before, same) refl
addresses-append from (suc m) n =
    let one_more : suc m + n ≡ suc (m + n) = omega arith in
    let further : from + suc m ≡ from + 1 + m = omega arith in
    rw (one_more, further) (ap (λ l. from ∷ l) (addresses-append (from + 1) m n))

-- A block continues consecutive tags, and pools.
pub block-tags :
    (rpc : Rpc) (n from k : ℕ) (q : Queue)
    → tags q.requests ≡ addresses from k
    → q.fresh ≡ from + k
    → tags (block rpc n q).1.requests ≡ addresses from (k + n)
block-tags rpc n from k q e f =
    tags-append q.requests (requests_of rpc (addresses q.fresh n))
    ∙ rw (e, tags-requests_of rpc (addresses q.fresh n), f) (sym (addresses-append from k n))

pub block-pools :
    (n from k : ℕ) (m : CallDataManager) (ms : List CallDataManager)
    → m.pool ≡ addresses from n
    → pools ms ≡ addresses (from + n) k
    → pools (m ∷ ms) ≡ addresses from (n + k)
block-pools n from k m ms e f = rw (e, f) (sym (addresses-append from n k))

pub block-requested :
    (rpc other : Rpc) (n : ℕ) (q : Queue)
    → requested rpc (block other n q).1.requests
      ≡ requested rpc q.requests + (if same_rpc rpc other then n else 0)
block-requested rpc other n q =
    requested-append rpc q.requests (requests_of other (addresses q.fresh n))
    ∙ ap (λ k. requested rpc q.requests + k) (requested-requests_of rpc other q.fresh n)
