-- ===== src/Postgres/Pool/Version2.antt =====
-- The pool of old_version/v2, with a queue of waiters of its own, beside the one that uses a
-- channel.
use mathlib.Core.List.{◌++◌}
use photon_commerce.Base.{
  if◌then◌else◌, Outcome, ret, thrown, std_exception, Await, pure, ◌>>=◌, zero, suc, ℕ, Option,
  none, some, List, [], ◌∷◌, ◌≡◌, refl, ◌∙◌, sym, subst,
}
use photon_commerce.Postgres.Pool.Channel.{WaiterChannel}
use photon_commerce.Base.Int.{le_zero}
use photon_commerce.Postgres.Pool.{
  DbPoolConfig, Pool, get_connection, return_connection, take_idle, hand_over,
}

pub record Pool2 : Type 0 where
  pub idle : List ℕ
  pub waiters : List ℕ

-- The constructor.
unfoldable pub make_pool2 : DbPoolConfig → Outcome Pool2
make_pool2 config =
    if le_zero config.pool_size
    then thrown (std_exception "Pool size must be positive.")
    else ret (record { idle = []; waiters = [] })

-- `Init`, one connection a round: `connect` is `AsyncConnect` of a new PQConnection.
unfoldable pub init2 : {W : Type 0} → Await W ℕ → ℕ → Pool2 → Await W Pool2
init2 connect zero p = pure p
init2 connect (suc n) p =
    let later = init2 connect n in
    connect >>= λ conn. later (record p { idle = p.idle ++ conn ∷ [] })

take_idle2 : ℕ → List ℕ → Pool2 → Option ℕ × Pool2
take_idle2 w [] p = (none, record p { waiters = p.waiters ++ w ∷ [] })
take_idle2 w (conn ∷ rest) p = (some conn, record p { idle = rest })

-- `GetConnection`: WaitForConnectionAwaiter queues the coroutine where no connection is idle.
unfoldable pub get_connection2 : ℕ → Pool2 → Option ℕ × Pool2
unfolding take_idle2
get_connection2 w p = take_idle2 w p.idle p

resume_first : ℕ → List ℕ → Pool2 → Option ℕ × Pool2
resume_first conn [] p = (none, record p { idle = p.idle ++ conn ∷ [] })
resume_first conn (w ∷ ws) p = (some w, record p { waiters = ws })

-- What `ReturnConnection` runs on the strand.
unfoldable pub return_connection2 : ℕ → Pool2 → Option ℕ × Pool2
unfolding resume_first
return_connection2 conn p = resume_first conn p.waiters p

pub data Call : Type 0 where
  gets returns : ℕ → Call

abbrev pub call2 : Call → Pool2 → Option ℕ × Pool2
call2 (gets w) p = get_connection2 w p
call2 (returns conn) p = return_connection2 conn p

module _ (C : WaiterChannel) where
  abbrev pub call : Call → Pool C → Option ℕ × Pool C
  call (gets w) p = get_connection C w p
  call (returns conn) p = return_connection C conn p

  pub run_calls : List Call → Pool C → List (Option ℕ)
  run_calls [] p = []
  run_calls (c ∷ cs) p = (call c p).0 ∷ run_calls cs (call c p).1

  -- The channel holds the waiters of the queue.
  pub record Matches (p : Pool C) (q : Pool2) : Type 0 where
    pub idle : p.idle ≡ q.idle
    pub waiters : C.pending p.waiters ≡ q.waiters

  gets-Matches :
      (w : ℕ) (idle : List ℕ) (p : Pool C) (q : Pool2)
      → Matches p q
      → q.idle ≡ idle
      → ((take_idle C w idle p).0 ≡ (take_idle2 w idle q).0)
        × Matches (take_idle C w idle p).1 (take_idle2 w idle q).1
  unfolding take_idle take_idle2
  gets-Matches w [] p q m e =
      (refl, record { idle = m.idle; waiters = C.pending-async_receive w p.waiters ∙ rw m.waiters })
  gets-Matches w (conn ∷ rest) p q m e = (refl, record { idle = refl; waiters = m.waiters })

  returns-Matches :
      (conn : ℕ) (ws : List ℕ) (p : Pool C) (q : Pool2)
      → Matches p q
      → q.waiters ≡ ws
      → ((return_connection C conn p).0 ≡ (resume_first conn ws q).0)
        × Matches (return_connection C conn p).1 (resume_first conn ws q).1
  unfolding return_connection hand_over resume_first
  returns-Matches conn [] p q m e =
      let (failed, empty) = C.try_send-nil p.waiters (m.waiters ∙ e) in
      rw (failed, hand_over) (refl, record { idle = rw m.idle; waiters = empty ∙ sym e })
  returns-Matches conn (w ∷ ws) p q m e =
      let (sent, rest) = C.try_send-cons p.waiters w ws (m.waiters ∙ e) in
      rw (sent, hand_over) (refl, record { idle = m.idle; waiters = rest })

  call-Matches :
      (c : Call) (p : Pool C) (q : Pool2)
      → Matches p q
      → ((call c p).0 ≡ (call2 c q).0) × Matches (call c p).1 (call2 c q).1
  unfolding get_connection get_connection2 return_connection2
  call-Matches (gets w) p q m =
      subst
        (λ idle.
          ((take_idle C w idle p).0 ≡ (take_idle2 w q.idle q).0)
          × Matches (take_idle C w idle p).1 (take_idle2 w q.idle q).1)
        (sym m.idle) (gets-Matches w q.idle p q m refl)
  call-Matches (returns conn) p q m = returns-Matches conn q.waiters p q m refl

pub run_calls2 : List Call → Pool2 → List (Option ℕ)
run_calls2 [] q = []
run_calls2 (c ∷ cs) q = (call2 c q).0 ∷ run_calls2 cs (call2 c q).1

-- The two versions answer alike: from pools that match, any sequence of calls gets the same
-- answers, the same connections granted and the same coroutines suspended and resumed.
pub run_calls-run_calls2 :
    (C : WaiterChannel) (cs : List Call) (p : Pool C) (q : Pool2)
    → Matches C p q
    → run_calls C cs p ≡ run_calls2 cs q
unfolding run_calls run_calls2
run_calls-run_calls2 C [] p q m = refl
run_calls-run_calls2 C (c ∷ cs) p q m =
    let (same, m') = call-Matches C c p q m in
    cc (same, run_calls-run_calls2 C cs (call C c p).1 (call2 c q).1 m')
