-- ===== src/Tests/Stores.antt =====
-- The repositories and the Redis client at the world of Tests/Toy.
use Prim.Native.String.{◌++◌}
use photon_commerce.Base.{
  Bool, false, not, Expected, unexpected, ap, ℕ, String, Option, none, some, true, List, [], ◌∷◌,
  length, get_elem?, ◌≡◌, ◌≢◌, ◌==◌, Bool-cases, subst, sym, ◌∙◌, some_inj, refl, ◌↔◌, ◌⊎◌, inl,
  inr, arith, if◌then◌else◌, value, ret, thrown, throw, Exception, std_exception, unknown_exception,
}
use photon_commerce.Base.Int.{pos}
use photon_commerce.Domain.Repositories.{DbError, sql_execution_error, UserRepository}
use photon_commerce.Domain.User.{User}
use photon_commerce.Domain.User.Serial.{to_json}
use photon_commerce.Domain.User.RoundTrip.{cached, IsInt16, from_json-to_json}
use photon_commerce.Redis.{
  blob_string, simple_string, null, RedisLib, RedisState, RedisConfig, extract_result, get, ping,
  get_next_connection, make_client,
}
use photon_commerce.Redis.Replies.{
  reply, type_of, error_of, extract_result_iff, get_set-thrown, ping-success_iff,
}
use photon_commerce.Redis.RoundRobin.{get_next_connection-round_robin, after_requests}
use photon_commerce.Repository.Codes.{save_code, get_code, key_prefix}
use photon_commerce.Repository.Codes.Keys.{key_prefix_inj, key_prefix-ne-user_key}
use photon_commerce.Repository.Codes.Store.{
  save_code-stored, get_code-stored, get_code-save_code, stored,
}
use photon_commerce.Repository.Users.{get_user_by_id, user_key, hit, decode}
use photon_commerce.Repository.Users.Fallback.{get_user_by_id-fallback}
use photon_commerce.Repository.Users.CacheAside.{
  Database, IsCoherent, IsReply, get_user_by_id-IsCoherent,
}
use photon_commerce.Service.Model.{user_login, user_register}
use photon_commerce.Tests.Domain.{toy_json, toy_json-laws}
use photon_commerce.Tests.Toy.{World, toy_world, toy_cache, toy_cache_works, toy_users, alice}
use text.Mathlib.Text.{◌==◌ as str_eq}
use text.Mathlib.TextEquality.{eq_iff}
use text.Mathlib.TextLemmas.{append_cancel_left}

-- A library whose connection 0 answers PONG, whose other connections throw something that is no
-- std::exception, and which throws a std::exception where the response is ignored.
abbrev toy_redis : RedisLib ℕ
toy_redis = record {
  run = λ conn w. w;
  exec = λ conn request w. (
    if conn == 0
        then ret (value (record { data_type = simple_string; text = "PONG" }))
        else thrown unknown_exception,
    w,
  );
  exec_ignore = λ conn request. throw (std_exception "closed");
}

abbrev at_zero : RedisState ℕ
at_zero = record { request_counter = 0; world = 0 }

extract_result_iff_test :
    ((extract_result (reply null "") "GET" "k" ≡ value (some "v"))
      ↔ ((reply null "" ≡ reply blob_string "v") ⊎ (reply null "" ≡ reply simple_string "v")))
    × ((extract_result (reply null "") "GET" "k" ≡ value none)
        ↔ ((t : String) × (reply null "" ≡ reply null t)))
    × (type_of (extract_result (reply null "") "GET" "k") ≡ error_of (reply null ""))
extract_result_iff_test = extract_result_iff (reply null "") "GET" "k" "v"

get_unknown : (get toy_redis (1 ∷ []) "k" at_zero).0 ≡ thrown unknown_exception
unfolding get get_next_connection
get_unknown = refl

abbrev escaped : Exception
escaped = unknown_exception

get_set-thrown_test : escaped ≡ unknown_exception
get_set-thrown_test =
    get_set-thrown toy_redis (1 ∷ []) "k" "v" (pos 60) at_zero escaped (inl get_unknown)

ping-success_iff_test :
    ((ping toy_redis (0 ∷ []) 0 0).0 ≡ ret (value tt))
    ↔ ((toy_redis.exec 0 ("PING" ∷ []) 0).0 ≡ ret (reply blob_string "PONG"))
      ⊎ ((toy_redis.exec 0 ("PING" ∷ []) 0).0 ≡ ret (reply simple_string "PONG"))
ping-success_iff_test = ping-success_iff toy_redis (0 ∷ []) 0 0

abbrev three : RedisConfig
three = record { host = "localhost"; port = "6379"; pool_size = pos 3 }

three_made : make_client three ≡ ret (0 ∷ 1 ∷ 2 ∷ [])
unfolding make_client
three_made = refl

abbrev conns : List ℕ
conns = 0 ∷ 1 ∷ 2 ∷ []

get_next_connection-round_robin_example :
    ((get_next_connection toy_redis conns (after_requests toy_redis conns 4 at_zero)).0 ≡ ret 1)
    × (get_elem? conns 1 ≡ some 1)
    × (length conns ≡ 3)
get_next_connection-round_robin_example =
    get_next_connection-round_robin toy_redis three 2 4 at_zero conns refl three_made (omega arith)

login_prefix : key_prefix user_login ≡ ret "verify_code:login:"
unfolding key_prefix
login_prefix = refl

abbrev phone : String
phone = "555"

key_prefix_inj_test : (user_login ≡ user_login) × ("555" ≡ phone)
key_prefix_inj_test =
    key_prefix_inj user_login user_login "verify_code:login:" "verify_code:login:" "555" phone
      login_prefix login_prefix refl

key_prefix-ne-user_key_test : "verify_code:login:" ++ "a" ≢ user_key "a"
key_prefix-ne-user_key_test =
    key_prefix-ne-user_key user_login "verify_code:login:" "a" "a" login_prefix

abbrev saved : World
saved = (save_code toy_cache user_login "555" "999999" 300 toy_world).1

save_code-stored_test :
    ((save_code toy_cache user_login "555" "999999" 300 toy_world).0 ≡ ret tt)
    × Unit {0}
    × (stored toy_cache toy_cache_works saved user_register "777" ≡ some "222222")
save_code-stored_test =
    save_code-stored toy_cache toy_cache_works toy_world user_login user_register "555" "777"
      "999999" 300 tt tt tt

get_code-stored_test :
    ((get_code toy_cache user_login "555" toy_world).0 ≡ ret (some "111111"))
    × Unit {0}
    × (stored toy_cache toy_cache_works
          (get_code toy_cache user_login "555" toy_world).1
          user_register
          "777"
        ≡ some "222222")
get_code-stored_test =
    get_code-stored toy_cache toy_cache_works toy_world user_login user_register "555" "777" tt tt
      tt

get_code-save_code_example :
    ((save_code toy_cache user_login "555" "999999" 300 toy_world).0 ≡ ret tt)
    × ((get_code toy_cache user_login "555" saved).0 ≡ ret (some "999999"))
    × Unit {0}
get_code-save_code_example =
    get_code-save_code toy_cache toy_cache_works toy_world user_login user_login "555" "555"
      "999999" 300 tt tt tt

user_miss : (toy_cache.get (user_key "a") toy_world).0 ≡ ret (value none)
unfolding user_key
user_miss = refl

miss : hit toy_json (value none) ≡ none
unfolding hit
miss = refl

get_user_by_id-fallback_example :
    (get_user_by_id toy_json toy_cache toy_users "a" toy_world).0
    ≡ (toy_users.get_user_by_id "a" (toy_cache.get (user_key "a") toy_world).1).0
get_user_by_id-fallback_example =
    get_user_by_id-fallback toy_json toy_cache toy_users "a" toy_world (value none)
      (λ k v expiry s. (value tt, refl)) user_miss miss

-- A database of one user, and a world that has that user in its cache.
abbrev one_user : String → Option User
one_user id = if str_eq id "a" then some alice else none

-- An empty text is no id.
abbrev no_id : DbError
no_id = record {
  type = sql_execution_error;
  pg_error_message = "invalid input syntax for type uuid";
  sql_state = "22P02";
}

abbrev read_row : Bool → Option User → Expected (Option User) DbError
read_row true o = value o
read_row false o = unexpected no_id

abbrev small_dao : UserRepository World
small_dao = record toy_users {
  get_user_by_id = λ id s. (ret (read_row (not (str_eq id "")) (one_user id)), s);
}

zero_fits : IsInt16 alice.status.underlying
zero_fits = omega arith

one_user-IsInt16 : (id : String) (u : User) → one_user id ≡ some u → IsInt16 u.status.underlying
one_user-IsInt16 id u e = elim (Bool-cases (str_eq id "a")) [
  | inl same ↦
      let here : alice ≡ u = cc (e, same) in subst (λ v. IsInt16 v.status.underlying) here zero_fits
  | inr other ↦ cc (e, other)
]

abbrev small_database : Database toy_cache_works small_dao
small_database = record {
  users = λ s id. one_user id;
  is_id = λ id. not (str_eq id "");
  same_id = str_eq;
  is_kept = λ u. not (str_eq u.id "");
  same_id-users = λ s a b same. ap (λ id. one_user id) ((eq_iff a b).0 same);
  is_id-kept = λ u kept. kept;
  get-malformed = λ s id up bad. (no_id, rw bad refl, tt, λ j. refl, λ j. refl);
  get-users = λ s id up good. (rw good refl, tt, λ j. refl, λ j. refl);
  cache_get-users = λ s k id. refl;
  cache_set-users = λ s k v id expiry. refl;
  IsInt16-users = λ s id u e. one_user-IsInt16 id u e;
}

abbrev cached_world : World
cached_world = record toy_world {
  entries = λ k. if str_eq k "user:info:a" then some "alice" else none;
}

decode_alice : decode toy_json "alice" ≡ some (cached alice)
unfolding decode to_json
decode_alice = from_json-to_json toy_json toy_json-laws alice zero_fits

key_of : (id : String) → str_eq (user_key id) "user:info:a" ≡ true → id ≡ "a"
unfolding user_key
key_of id e = append_cancel_left "user:info:" id "a" ((eq_iff _ _).0 e)

cached_world-IsCoherent :
    IsCoherent toy_json toy_json-laws toy_cache toy_cache_works small_dao small_database
      cached_world
cached_world-IsCoherent id text u held read =
    elim (Bool-cases (str_eq (user_key id) "user:info:a")) [
      | inr other ↦ cc (held, other)
      | inl same ↦
          let here = key_of id same in
          let mine : text ≡ "alice" = sym (some_inj (rw same at held)) in
          (alice, rw here refl, sym (some_inj (sym decode_alice ∙ rw mine at read)))
    ]

get_user_by_id-IsCoherent_test :
    (r : Expected (Option User) DbError) × ((get_user_by_id toy_json toy_cache small_dao "a"
        cached_world).0
      ≡ ret r)
    × IsReply toy_json toy_json-laws toy_cache toy_cache_works small_dao small_database cached_world
        "a" r
    × Unit {0}
    × IsCoherent toy_json toy_json-laws toy_cache toy_cache_works small_dao small_database
        (get_user_by_id toy_json toy_cache small_dao "a" cached_world).1
get_user_by_id-IsCoherent_test =
    get_user_by_id-IsCoherent toy_json toy_json-laws toy_cache toy_cache_works small_dao
      small_database cached_world "a" tt cached_world-IsCoherent
