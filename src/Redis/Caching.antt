-- ===== src/Redis/Caching.antt =====
-- RedisClient over a working server is a cache.
use photon_commerce.Base.{
  ℕ, String, Option, none, some, List, [], ◌∷◌, ◌≡◌, refl, if◌then◌else◌, arith, value, ret,
  value_or, get_elem?, length, ◌%◌,
}
use photon_commerce.Base.Int.{ℤ, gt_ℕ}
use photon_commerce.Base.Decimal.{to_string}
use photon_commerce.Redis.{
  Node, blob_string, null, RedisLib, RedisState, extract_result, get, set_expiring, set_request,
  send_get, get_next_connection,
}
use photon_commerce.Repository.Cache.{Cache, IsCache}
use text.Mathlib.Text.{◌==◌ as str_eq}

-- The reply to GET.
abbrev pub get_reply : Option String → Node
get_reply none = record { data_type = null; text = "" }
get_reply (some v) = record { data_type = blob_string; text = v }

-- A server that is up: on every connection SET, with or without EX, is carried out, and GET is
-- answered by the string that is stored, or by a null.
pub record IsRedisServer {W : Type 0} (lib : RedisLib W) : Type 1 where
  pub IsUp : W → Type 0
  pub entries : W → String → Option String
  pub exec-set :
      (w : W) (conn : ℕ) (k v : String) (options : List String)
      → IsUp w
      → ((lib.exec_ignore conn ("SET" ∷ k ∷ v ∷ options) w).0 ≡ ret tt)
        × IsUp (lib.exec_ignore conn ("SET" ∷ k ∷ v ∷ options) w).1
        × ((j : String)
            → entries (lib.exec_ignore conn ("SET" ∷ k ∷ v ∷ options) w).1 j
              ≡ (if str_eq k j then some v else entries w j))
  pub exec-get :
      (w : W) (conn : ℕ) (k : String)
      → IsUp w
      → ((lib.exec conn ("GET" ∷ k ∷ []) w).0 ≡ ret (value (get_reply (entries w k))))
        × IsUp (lib.exec conn ("GET" ∷ k ∷ []) w).1
        × ((j : String) → entries (lib.exec conn ("GET" ∷ k ∷ []) w).1 j ≡ entries w j)

-- The options of the request that `Set` sends.
set_options : ℤ → List String
set_options expiry = if gt_ℕ expiry 0 then "EX" ∷ to_string expiry ∷ [] else []

set_request-options :
    (k v : String) (expiry : ℤ) → set_request k v expiry ≡ "SET" ∷ k ∷ v ∷ set_options expiry
unfolding set_request set_options
set_request-options k v expiry = ground arith

extract_result-get_reply :
    (o : Option String) (k : String) → extract_result (value (get_reply o)) "GET" k ≡ value o
unfolding extract_result
extract_result-get_reply none k = refl
extract_result-get_reply (some v) k = refl

module _ {W : Type 0} (lib : RedisLib W) (conns : List ℕ) where
  abbrev pub client_cache : Cache (RedisState W)
  client_cache = record { set_expiring = set_expiring lib conns; get = get lib conns }

  abbrev chosen : RedisState W → ℕ
  chosen s = value_or (get_elem? conns (s.request_counter % length conns)) 0

  module _ (server : IsRedisServer lib) where
    client-set :
        (s : RedisState W) (k v : String) (expiry : ℤ)
        → server.IsUp s.world
        → ((set_expiring lib conns k v expiry s).0 ≡ ret (value tt))
          × server.IsUp (set_expiring lib conns k v expiry s).1.world
          × ((j : String)
              → server.entries (set_expiring lib conns k v expiry s).1.world j
                ≡ (if str_eq k j then some v else server.entries s.world j))
    unfolding set_expiring get_next_connection
    client-set s k v expiry up =
        let (done, up', kept) = server.exec-set s.world (chosen s) k v (set_options expiry) up in
        rw (set_request-options k v expiry, done) (refl, up', kept)

    client-get :
        (s : RedisState W) (k : String)
        → server.IsUp s.world
        → ((get lib conns k s).0 ≡ ret (value (server.entries s.world k)))
          × server.IsUp (get lib conns k s).1.world
          × ((j : String) → server.entries (get lib conns k s).1.world j ≡ server.entries s.world j)
    unfolding get send_get get_next_connection
    client-get s k up =
        let (done, up', kept) = server.exec-get s.world (chosen s) k up in
        rw (done, extract_result-get_reply (server.entries s.world k) k) (refl, up', kept)

    -- Over a server that is up, the client is a working cache: `Set` and `Get` report no error,
    -- `Get` returns what is stored, and `Set` changes the entry of its key and no other.
    pub client_cache-IsCache : IsCache client_cache
    client_cache-IsCache = record {
      IsUp = λ s. server.IsUp s.world;
      entries = λ s. server.entries s.world;
      set-entries = client-set;
      get-entries = client-get;
    }
