-- ===== src/Postgres/Pool/Clients.antt =====
-- The coroutines around the pool, as a step relation: a coroutine asks for a connection; one that
-- holds a connection lets it go, which posts its return to the strand (ConnectionReleaser); the
-- strand runs the oldest posted return.
use mathlib.Core.List.{◌++◌}
use photon_commerce.Base.{ℕ, Option, none, some, List, [], ◌∷◌, ◌≡◌, Bool, true, false}
use photon_commerce.Postgres.Pool.Channel.{WaiterChannel}
use photon_commerce.Postgres.Pool.{Pool, get_connection, return_connection}

-- ConnectionReleaser: the return is posted, unless the pool is gone and the connection closes.
unfoldable pub release : Bool → ℕ → List ℕ → List ℕ
release true conn posted = posted ++ conn ∷ []
release false conn posted = posted

pub record Lease : Type 0 where
  pub holder : ℕ
  pub conn : ℕ

abbrev pub conns : List Lease → List ℕ
conns [] = []
conns (l ∷ ls) = l.conn ∷ conns ls

abbrev pub granted : Option ℕ → ℕ → List Lease
granted none w = []
granted (some conn) w = record { holder = w; conn = conn } ∷ []

abbrev pub resumed : Option ℕ → ℕ → List Lease
resumed none conn = []
resumed (some w) conn = record { holder = w; conn = conn } ∷ []

module _ (C : WaiterChannel) where
  pub record System : Type 0 where
    pub pool : Pool C
    pub lent : List Lease
    pub posted : List ℕ

  abbrev pub start : List ℕ → C.Chan → System
  start conns chan = record {
    pool = record { idle = conns; waiters = chan };
    lent = [];
    posted = [];
  }

  unfoldable pub asks : ℕ → System → System
  asks w s = record s {
    pool = (get_connection C w s.pool).1;
    lent = granted (get_connection C w s.pool).0 w ++ s.lent;
  }

  unfoldable pub runs : ℕ → List ℕ → System → System
  runs conn rest s = record {
    pool = (return_connection C conn s.pool).1;
    lent = resumed (return_connection C conn s.pool).0 conn ++ s.lent;
    posted = rest;
  }

  -- The pool outlives its coroutines here, so a release posts a return.
  pub data Step (s : System) : System → Type 0 where
    ask : (w : ℕ) → Step s (asks w s)
    let_go :
        (before after : List Lease) (l : Lease)
        → s.lent ≡ before ++ l ∷ after
        → Step s (record s { lent = before ++ after; posted = release true l.conn s.posted })
    run : (conn : ℕ) (rest : List ℕ) → s.posted ≡ conn ∷ rest → Step s (runs conn rest s)

  pub data Reach (s : System) : System → Type 0 where
    here : Reach s s
    next : {t u : System} → Reach s t → Step t u → Reach s u
