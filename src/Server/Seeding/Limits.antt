-- ===== src/Server/Seeding/Limits.antt =====
-- How many objects wait for each RPC.
use photon_commerce.Base.{
  ℕ, if◌then◌else◌, List, [], ◌∷◌, ◌+◌, ◌<◌, ◌^◌, ◌≡◌, refl, ap, ◌∙◌, arith, ret, String,
}
use photon_commerce.Base.Int.{ℤ, pos, negsuc}
use photon_commerce.Adapter.Manager.{
  Rpc, register_rpc, send_code_rpc, login_pw_rpc, login_code_rpc, get_user_info_rpc, Queue,
  CallDataManager, to_size,
}
use photon_commerce.Config.{load_config}
use photon_commerce.Config.Checks.{IsPositive}
use photon_commerce.Config.Settings.{AppConfig, RpcLimitsConfig, YamlLib}
use photon_commerce.Config.Valid.{IsRpcLimits, load_config-IsValid}
use photon_commerce.Server.Seeding.{Dependencies, seed_call_data}
use photon_commerce.Server.Seeding.Blocks.{
  addresses, IsWired, limit, b1, b2, b3, b4, b5, seed_call_data-blocks, same_rpc, requested, tags,
  pools, block-tags, block-pools, block-requested,
}

abbrev pub new_queue : ℕ → Queue
new_queue fresh = record { fresh = fresh; requests = [] }

abbrev pub all_limits : RpcLimitsConfig → ℕ
all_limits limits =
    limit register_rpc limits
    + limit send_code_rpc limits
    + limit login_pw_rpc limits
    + limit login_code_rpc limits
    + limit get_user_info_rpc limits

to_size-positive : (n : ℤ) → IsPositive n → 0 < to_size n
to_size-positive (pos n) h = omega arith
to_size-positive (negsuc n) h = absurd h

limit-positive : (rpc : Rpc) (l : RpcLimitsConfig) → IsRpcLimits l → 0 < limit rpc l
limit-positive register_rpc l v = to_size-positive l.register_num v.register_num
limit-positive send_code_rpc l v = to_size-positive l.send_code_num v.send_code_num
limit-positive login_pw_rpc l v = to_size-positive l.login_pw_num v.login_pw_num
limit-positive login_code_rpc l v = to_size-positive l.login_code_num v.login_code_num
limit-positive get_user_info_rpc l v = to_size-positive l.get_user_info_num v.get_user_info_num

module _ (l : RpcLimitsConfig) (d : Dependencies) (wired : IsWired d) (fresh : ℕ) where
  abbrev q : Queue
  q = new_queue fresh

  abbrev of_rpc : Rpc → Rpc → ℕ
  of_rpc rpc other = if same_rpc rpc other then limit other l else 0

  requested-sum :
      (rpc : Rpc)
      → requested rpc (b5 l d wired q).1.requests
        ≡ of_rpc rpc register_rpc
          + of_rpc rpc send_code_rpc
          + of_rpc rpc login_pw_rpc
          + of_rpc rpc login_code_rpc
          + of_rpc rpc get_user_info_rpc
  requested-sum rpc = omega (
    arith,
    block-requested rpc register_rpc (limit register_rpc l) q,
    block-requested rpc send_code_rpc (limit send_code_rpc l) (b1 l d wired q).1,
    block-requested rpc login_pw_rpc (limit login_pw_rpc l) (b2 l d wired q).1,
    block-requested rpc login_code_rpc (limit login_code_rpc l) (b3 l d wired q).1,
    block-requested rpc get_user_info_rpc (limit get_user_info_rpc l) (b4 l d wired q).1,
  )

  requested-limit : (rpc : Rpc) → requested rpc (b5 l d wired q).1.requests ≡ limit rpc l
  requested-limit register_rpc = omega (arith, requested-sum register_rpc)
  requested-limit send_code_rpc = omega (arith, requested-sum send_code_rpc)
  requested-limit login_pw_rpc = omega (arith, requested-sum login_pw_rpc)
  requested-limit login_code_rpc = omega (arith, requested-sum login_code_rpc)
  requested-limit get_user_info_rpc = omega (arith, requested-sum get_user_info_rpc)

  tags-addresses : tags (b5 l d wired q).1.requests ≡ addresses fresh (all_limits l)
  tags-addresses =
      let t1 = block-tags register_rpc (limit register_rpc l) fresh 0 q refl (omega arith) in
      let n1 = limit register_rpc l in
      let n2 = limit send_code_rpc l in
      let n3 = limit login_pw_rpc l in
      let n4 = limit login_code_rpc l in
      let t2 = block-tags send_code_rpc n2 fresh (0 + n1) (b1 l d wired q).1 t1 (omega arith) in
      let t3 = block-tags login_pw_rpc n3 fresh (0 + n1 + n2) (b2 l d wired q).1 t2 (omega arith) in
      let t4 =
        block-tags login_code_rpc n4 fresh (0 + n1 + n2 + n3) (b3 l d wired q).1 t3 (omega arith) in
      block-tags get_user_info_rpc (limit get_user_info_rpc l) fresh (0 + n1 + n2 + n3 + n4)
        (b4 l d wired q).1 t4 (omega arith)
      ∙ ap (addresses fresh) (omega arith)

  abbrev pub managers : List CallDataManager
  managers =
      (b1 l d wired q).0
      ∷ (b2 l d wired q).0
      ∷ (b3 l d wired q).0
      ∷ (b4 l d wired q).0
      ∷ (b5 l d wired q).0
      ∷ []

  pools-addresses : pools managers ≡ addresses fresh (all_limits l)
  pools-addresses =
      let n2 = limit send_code_rpc l in
      let n3 = limit login_pw_rpc l in
      let n4 = limit login_code_rpc l in
      let n5 = limit get_user_info_rpc l in
      let m2 = b2 l d wired q in
      let m3 = b3 l d wired q in
      let m4 = b4 l d wired q in
      let m5 = b5 l d wired q in
      let p5 = block-pools n5 m4.1.fresh 0 m5.0 [] refl refl in
      let p4 = block-pools n4 m3.1.fresh (n5 + 0) m4.0 (m5.0 ∷ []) refl p5 in
      let p3 = block-pools n3 m2.1.fresh (n4 + (n5 + 0)) m3.0 (m4.0 ∷ m5.0 ∷ []) refl p4 in
      let p2 =
        block-pools n2 (b1 l d wired q).1.fresh (n3 + (n4 + (n5 + 0))) m2.0
          (m3.0 ∷ m4.0 ∷ m5.0 ∷ []) refl p3 in
      block-pools (limit register_rpc l) fresh (n2 + (n3 + (n4 + (n5 + 0)))) (b1 l d wired q).0
        (m2.0 ∷ m3.0 ∷ m4.0 ∷ m5.0 ∷ []) refl p2
      ∙ ap (addresses fresh) (omega arith)

-- With the limits of any configuration that loads, and all dependencies set, SeedCallData returns
-- its five managers. Then for each RPC as many objects wait as the configuration says, a positive
-- number; all objects have different, consecutive addresses; and each is in the pool of a
-- manager.
pub seed_call_data-limits :
    (lib : YamlLib) (hw_conc : ℕ) (members c : AppConfig) (path : String) (d : Dependencies)
    (fresh : ℕ) (rpc : Rpc)
    → hw_conc < 2 ^ 31
    → load_config lib hw_conc members path ≡ ret c
    → IsWired d
    → (managers : List CallDataManager) × (after : Queue) × (seed_call_data c.rpc_limits_config d
          ([], new_queue fresh)
        ≡ (ret tt, (managers, after)))
      × (requested rpc after.requests ≡ limit rpc c.rpc_limits_config)
      × (0 < limit rpc c.rpc_limits_config)
      × (tags after.requests ≡ addresses fresh (all_limits c.rpc_limits_config))
      × (pools managers ≡ addresses fresh (all_limits c.rpc_limits_config))
seed_call_data-limits lib hw_conc members c path d fresh rpc fits loaded wired =
    let l = c.rpc_limits_config in
    let valid = load_config-IsValid lib hw_conc members path c fits loaded in
    (
      managers l d wired fresh,
      (b5 l d wired (new_queue fresh)).1,
      seed_call_data-blocks l d wired (new_queue fresh),
      requested-limit l d wired fresh rpc,
      limit-positive rpc l valid.rpc_limits,
      tags-addresses l d wired fresh,
      pools-addresses l d wired fresh,
    )
