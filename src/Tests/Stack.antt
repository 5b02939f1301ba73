-- ===== src/Tests/Stack.antt =====
-- UserRepository over a cache and a database whose primary key is the id, and the services on it.
use text.Mathlib.TextEquality.{eq_iff}
use photon_commerce.Base.{
  true, false, String, [], ◌∷◌, All, Option, none, some, ◌≡◌, ◌≢◌, ◌⊎◌, inl, inr, refl, ap, subst,
  some_inj, arith, Outcome, if◌then◌else◌, value, unexpected, ret, Await, pure, Expected,
}
use photon_commerce.Domain.Repositories.{DbError, sql_execution_error, UserRepository}
use photon_commerce.Domain.Stores.{SameIdentity}
use photon_commerce.Domain.User.{User, normal}
use photon_commerce.Domain.User.RoundTrip.{IsInt16}
use photon_commerce.Repository.Users.{get_user_by_id, user_repository, user_key, hit}
use photon_commerce.Repository.Users.CacheAside.{Database, IsCoherent}
use photon_commerce.Repository.Users.Created.{IsInserted, HasPrimaryKey, create_user-get_user_by_id}
use photon_commerce.Repository.Users.Concurrent.{
  Stage, asks_cache, done, advance, System, starts, goes_on, creates, expires, Reach, here, next,
}
use photon_commerce.Repository.Users.Concurrent.Coherence.{IsRight}
use photon_commerce.Repository.Users.Concurrent.Interleaved.{Expires, Reach-IsCoherent}
use photon_commerce.Service.BasicUser.{register, BasicUserService}
use photon_commerce.Service.Model.{succeeded, RegisterRequest, RegisterResponse}
use photon_commerce.Tests.Domain.{toy_json, toy_json-laws}
use photon_commerce.Tests.Toy.{World, toy_world, toy_cache, toy_cache_works, toy_basic, alice}
use photon_commerce.Utils.Security.{generate_salt}
use text.Mathlib.Text.{◌==◌ as str_eq}
use text.Mathlib.TextPositions.{eq_refl}

-- The table keeps the status of its rows at 0.
abbrev pub row? : Option User → Option User
row? none = none
row? (some u) = some (record u { status = normal })

abbrev taken : DbError
taken = record {
  type = sql_execution_error;
  pg_error_message = "duplicate key";
  sql_state = "23505";
}

abbrev pub inserted : User → World → World
inserted u s = record s { by_id = λ j. if str_eq u.id j then some u else s.by_id j }

abbrev pub insert : Option User → User → Await World (Expected (Unit {0}) DbError)
insert none u s = (ret (value tt), inserted u s)
insert (some v) u s = (ret (unexpected taken), s)

abbrev pub table : UserRepository World
table = record {
  create_user = λ u s. insert (s.by_id u.id) u s;
  get_user_by_id = λ id s. (ret (value (row? (s.by_id id))), s);
  get_user_by_phone_number = λ phone s. (ret (value (row? (s.by_phone phone))), s);
}

zero_fits : IsInt16 normal.underlying
zero_fits = omega arith

pub row-IsInt16 : (o : Option User) (u : User) → row? o ≡ some u → IsInt16 u.status.underlying
row-IsInt16 none u e = cc
row-IsInt16 (some v) u e = subst (λ w. IsInt16 w.status.underlying) (some_inj e) zero_fits

pub true_not_false : true ≢ false
true_not_false e = cc

-- Its ids are texts, and every text is one.
abbrev pub table-Database : Database toy_cache_works table
table-Database = record {
  users = λ s id. row? (s.by_id id);
  is_id = λ id. true;
  same_id = str_eq;
  is_kept = λ u. true;
  same_id-users = λ s a b same. ap (λ id. row? (s.by_id id)) ((eq_iff a b).0 same);
  is_id-kept = λ u kept. refl;
  get-malformed = λ s id up bad. absurd (true_not_false bad);
  get-users = λ s id up good. (refl, tt, λ j. refl, λ j. refl);
  cache_get-users = λ s k id. refl;
  cache_set-users = λ s k v id expiry. refl;
  IsInt16-users = λ s id u e. row-IsInt16 (s.by_id id) u e;
}

abbrev pub bob : User
bob = record alice { id = "b"; phone_number = "777" }

abbrev pub no_entries : World
no_entries = record toy_world { entries = λ k. none }

pub no_entries-IsCoherent :
    IsCoherent toy_json toy_json-laws toy_cache toy_cache_works table table-Database no_entries
no_entries-IsCoherent id text u held read = cc

taken_fails :
    ◌≢◌ {A = Outcome (Expected (Unit {0}) DbError)} (ret (unexpected taken)) (ret (value tt))
taken_fails e = cc

insert_none-IsInserted :
    (u : User) (s : World) → s.by_id u.id ≡ none → IsInserted table-Database s u (inserted u s)
insert_none-IsInserted u s e = record {
  absent = ap row? e;
  row = record u { status = normal };
  present = rw (eq_refl u.id) refl;
  same = λ kept. record { id = refl; phone_number = refl; password_hash = refl; salt = refl };
  others = λ id other. rw other refl;
}

insert-users :
    (o : Option User) (u : User) (s : World)
    → s.by_id u.id ≡ o
    → IsInserted table-Database s u (insert o u s).1
      ⊎ ((id : String) → row? ((insert o u s).1.by_id id) ≡ row? (s.by_id id))
insert-users none u s e = inl (insert_none-IsInserted u s e)
insert-users (some v) u s e = inr (λ id. refl)

insert-IsInserted :
    (o : Option User) (u : User) (s : World)
    → s.by_id u.id ≡ o
    → (insert o u s).0 ≡ ret (value tt)
    → IsInserted table-Database s u (insert o u s).1
insert-IsInserted none u s e inserts = insert_none-IsInserted u s e
insert-IsInserted (some v) u s e inserts = absurd (taken_fails inserts)

insert-entries :
    (o : Option User) (u : User) (s : World) (k : String) → (insert o u s).1.entries k ≡ s.entries k
insert-entries none u s k = refl
insert-entries (some v) u s k = refl

pub table-HasPrimaryKey : HasPrimaryKey table-Database
table-HasPrimaryKey = record {
  create-IsUp = λ s u up. tt;
  create-entries = λ s u k. insert-entries (s.by_id u.id) u s k;
  create-users = λ s u. insert-users (s.by_id u.id) u s refl;
  create-IsInserted = λ s u up inserts. insert-IsInserted (s.by_id u.id) u s refl inserts;
}

create_user-get_user_by_id_test :
    let after = inserted bob no_entries in
    Unit {0}
    × IsCoherent toy_json toy_json-laws toy_cache toy_cache_works table table-Database after
    × ((v : User) × ((get_user_by_id toy_json toy_cache table "b" after).0 ≡ ret (value (some v)))
        × SameIdentity bob v)
create_user-get_user_by_id_test =
    create_user-get_user_by_id toy_json toy_json-laws toy_cache toy_cache_works table table-Database
      table-HasPrimaryKey no_entries bob tt no_entries-IsCoherent refl refl

-- The services on the repository, with one code for everyone.
abbrev pub users : UserRepository World
users = user_repository toy_json toy_cache table

abbrev pub basic : BasicUserService World
basic = record toy_basic {
  user_repository = users;
  code_repository = record {
    save_code = λ usage target code expiry. pure tt;
    get_code = λ usage target. pure (some "222222");
  };
}

abbrev pub request : RegisterRequest
request = record { username = "bob"; password = "secret"; phone_number = "777"; code = "222222" }

abbrev pub registered : RegisterResponse
registered = record { status = succeeded; user_id = "u1" }

pub register_run : (register basic request no_entries).0 ≡ ret registered
unfolding register generate_salt
register_run = refl

abbrev expire : String → World → World
expire key s = record s { entries = λ j. if str_eq key j then none else s.entries j }

table-Expires : Expires table-Database expire
table-Expires = record {
  expire-IsUp = λ s key up. tt;
  expire-entries = λ s key k. refl;
  expire-users = λ s key id. refl;
}

abbrev Calls : Type 0
Calls = System toy_json toy_cache table

abbrev goes : Stage → World → Stage × World
goes = advance toy_json toy_cache table

-- A call for alice misses the cache; then bob is created; then alice is read, written into the
-- cache, and another entry expires.
abbrev missed : Stage × World
missed = goes (asks_cache "a") no_entries

abbrev read : Stage × World
read = goes missed.0 (insert (missed.1.by_id bob.id) bob missed.1).1

abbrev written : Stage × World
written = goes read.0 read.1

abbrev at_end : Calls
at_end = record { calls = written.0 ∷ []; state = expire "user:info:b" written.1 }

at_end_reached :
    Reach toy_json toy_cache table expire (record { calls = []; state = no_entries }) at_end
at_end_reached =
    next
      (next
        (next (next (next (next here (starts "a")) (goes_on 0 (asks_cache "a") refl)) (creates bob))
          (goes_on 0 missed.0 refl))
        (goes_on 0 read.0 refl))
      (expires "user:info:b")

ended_with_alice : written.0 ≡ done "a" (ret (value (some alice)))
unfolding advance user_key hit
ended_with_alice = refl

Reach-IsCoherent_example :
    Unit {0}
    × IsCoherent toy_json toy_json-laws toy_cache toy_cache_works table table-Database at_end.state
    × All
        (IsRight toy_json toy_json-laws toy_cache toy_cache_works table table-Database
          table-HasPrimaryKey at_end.state)
        at_end.calls
Reach-IsCoherent_example =
    Reach-IsCoherent toy_json toy_json-laws toy_cache toy_cache_works table table-Database
      table-HasPrimaryKey expire table-Expires no_entries at_end tt no_entries-IsCoherent
      at_end_reached
