-- ===== src/Repository/Users/Concurrent/Interleaved.antt =====
-- Calls of GetUserById that interleave with each other, with CreateUser, and with the expiry of
-- cache entries.
use photon_commerce.Base.{
  String, none, List, [], ◌∷◌, ◌≡◌, sym, ◌∙◌, inl, inr, ℕ, zero, suc, All, All-get_elem?,
  Bool-cases, if◌then◌else◌,
}
use photon_commerce.Domain.Json.{JsonLib, IsJsonLib}
use photon_commerce.Domain.Repositories.{UserRepository}
use photon_commerce.Domain.User.{User}
use photon_commerce.Repository.Cache.{Cache, IsCache}
use photon_commerce.Repository.Users.{user_key}
use photon_commerce.Repository.Users.CacheAside.{Database, IsCoherent}
use photon_commerce.Repository.Users.Concurrent.{
  Stage, System, put, Step, starts, goes_on, creates, expires, Reach, here, next,
}
use photon_commerce.Repository.Users.Concurrent.Coherence.{IsRight, Grows, All-Grows, advance-Keeps}
use photon_commerce.Repository.Users.Created.{HasPrimaryKey, IsInserted, create_user-IsCoherent}
use text.Mathlib.Text.{◌==◌ as str_eq}

-- An entry that expires is gone, and nothing else changes.
pub record Expires {S : Type 0} {cache : Cache S} {works : IsCache cache} {dao : UserRepository S}
    (database : Database works dao) (expire : String → S → S) : Type 0 where
  pub expire-IsUp : (s : S) (key : String) → works.IsUp s → works.IsUp (expire key s)
  pub expire-entries :
      (s : S) (key k : String)
      → works.entries (expire key s) k ≡ (if str_eq key k then none else works.entries s k)
  pub expire-users :
      (s : S) (key id : String) → database.users (expire key s) id ≡ database.users s id

module _ {S : Type 0} (J : JsonLib) (laws : IsJsonLib J) (cache : Cache S) (works : IsCache cache)
    (dao : UserRepository S) (database : Database works dao) (keyed : HasPrimaryKey database)
    (expire : String → S → S) (expiry : Expires database expire) where
  open works use {IsUp, entries}
  open database use {users}

  abbrev Coherent : S → Type 0
  Coherent = IsCoherent J laws cache works dao database

  IsInserted-Grows :
      (s t : S) (u : User)
      → IsInserted database s u t
      → Grows J laws cache works dao database keyed s t
  IsInserted-Grows s t u ins id v known = elim (Bool-cases (database.same_id u.id id)) [
    | inl own ↦ cc (ins.absent, database.same_id-users s u.id id own, known)
    | inr other ↦ ins.others id other ∙ known
  ]

  create_user-Grows :
      (s : S) (u : User) → Grows J laws cache works dao database keyed s (dao.create_user u s).1
  create_user-Grows s u = elim (keyed.create-users s u) [
    | inl ins ↦ IsInserted-Grows s _ u ins
    | inr same ↦ λ id v known. same id ∙ known
  ]

  put-IsRight :
      (s : S) (i : ℕ) (c : Stage) (cs : List Stage)
      → IsRight J laws cache works dao database keyed s c
      → All (IsRight J laws cache works dao database keyed s) cs
      → All (IsRight J laws cache works dao database keyed s) (put J cache dao i c cs)
  put-IsRight s i c [] v vs = tt
  put-IsRight s zero c (d ∷ cs) v (w, ws) = (v, ws)
  put-IsRight s (suc i) c (d ∷ cs) v (w, ws) = (w, put-IsRight s i c cs v ws)

  expire-IsCoherent : (s : S) (key : String) → Coherent s → Coherent (expire key s)
  expire-IsCoherent s key c id text u held read = elim (Bool-cases (str_eq key (user_key id))) [
    | inl gone ↦ cc (expiry.expire-entries s key (user_key id), held, gone)
    | inr kept ↦
        let there = rw kept at (expiry.expire-entries s key (user_key id)) in
        let (v, known, same) = c id text u (sym there ∙ held) read in
        (v, expiry.expire-users s key id ∙ known, same)
  ]

  abbrev IsSound : System J cache dao → Type 0
  IsSound t =
      IsUp t.state
      × Coherent t.state
      × All (IsRight J laws cache works dao database keyed t.state) t.calls

  Step-IsSound : {t t' : System J cache dao} → Step J cache dao expire t t' → IsSound t → IsSound t'
  Step-IsSound (starts id) (up, c, right) = (up, c, (tt, right))
  Step-IsSound {t} (goes_on i call e) (up, c, right) =
      let (up', c', g, mine) =
        advance-Keeps J laws cache works dao database keyed t.state call up c (
          All-get_elem? (IsRight J laws cache works dao database keyed t.state) t.calls i call right
            e) in
      (
        up',
        c',
        put-IsRight _ i _ t.calls mine
            (All-Grows J laws cache works dao database keyed t.state _ t.calls g right),
      )
  Step-IsSound {t} (creates u) (up, c, right) = (
    keyed.create-IsUp t.state u up,
    create_user-IsCoherent J laws cache works dao database keyed t.state u c,
    All-Grows J laws cache works dao database keyed t.state _ t.calls (create_user-Grows t.state u)
        right,
  )
  Step-IsSound {t} (expires key) (up, c, right) = (
    expiry.expire-IsUp t.state key up,
    expire-IsCoherent t.state key c,
    All-Grows J laws cache works dao database keyed t.state _ t.calls
        (λ id v known. expiry.expire-users t.state key id ∙ known) right,
  )

  -- However calls of GetUserById interleave, from one co_await to the next, with each other, with
  -- calls of CreateUser that succeed or fail, and with the expiry of entries, started from a state
  -- with the cache and the database up and the cache coherent, the id being a primary key: the cache
  -- stays up and coherent, what a call is about to write into it is in the database, and every call
  -- that has ended returned none, or a user that is in the database under the id it was called
  -- with, up to what the cache drops of it, or an error, this only if the database does not take the
  -- text it was called with for an id.
  pub Reach-IsCoherent :
      (s : S) (t : System J cache dao)
      → IsUp s
      → Coherent s
      → Reach J cache dao expire (record { calls = []; state = s }) t
      → IsUp t.state
        × Coherent t.state
        × All (IsRight J laws cache works dao database keyed t.state) t.calls
  Reach-IsCoherent s t up c here = (up, c, tt)
  Reach-IsCoherent s t up c (next {t = u} r st) = Step-IsSound st (Reach-IsCoherent s u up c r)
