-- ===== src/Server/ThreadPool/Phases.antt =====
-- The thread pool against a specification: whether it runs, and whether it was stopped before.
use mathlib.Core.List.{◌++◌}
use photon_commerce.Base.{
  ℕ, zero, suc, Option, some, Bool, true, false, not, ◌||◌, List, [], ◌∷◌, ◌+◌, ◌≡◌, refl, sym, ap,
  ◌∙◌, arith, length, length-append, if◌then◌else◌, and_then, All, Bool-cases, inl, inr,
}
use photon_commerce.Server.ThreadPool.{
  IoContext, Thread, AsioThreadPool, make_thread_pool, thread_count, emplace_threads, run, join_all,
  stop_context, stop,
}

pub data Call : Type 0 where
  runs stops : Call

pub record Phase : Type 0 where
  pub running : Bool
  pub was_stopped : Bool

abbrev pub fresh : Phase
fresh = record { running = false; was_stopped = false }

-- What a call makes of the phase.
abbrev pub next_phase : Call → Phase → Phase
next_phase runs p = record p { running = true }
next_phase stops p = record { running = false; was_stopped = p.was_stopped || p.running }

abbrev pub phase_after : List Call → Phase → Phase
phase_after [] p = p
phase_after (c ∷ cs) p = phase_after cs (next_phase c p)

abbrev AllJoinable : List Thread → Type 0
AllJoinable ts = All (λ t. t.joinable ≡ true) ts

or_left : (a b : Bool) → b ≡ false → (a || b) ≡ true → a ≡ true
or_left a true e h = cc
or_left true false e h = refl
or_left false false e h = cc

module _ (lib : IoContext) (hw_conc : ℕ) where
  abbrev pub run_call : Call → AsioThreadPool lib hw_conc → Option (AsioThreadPool lib hw_conc)
  run_call runs p = some (run lib hw_conc p)
  run_call stops p = stop lib hw_conc p

  unfoldable pub run_calls :
      List Call → AsioThreadPool lib hw_conc → Option (AsioThreadPool lib hw_conc)
  run_calls [] p = some p
  run_calls (c ∷ cs) p = and_then (run_call c p) (λ after. run_calls cs after)

  -- The pool is in this phase.
  pub record IsIn (phase : Phase) (p : AsioThreadPool lib hw_conc) : Type 0 where
    pub guarded : p.work_guard ≡ phase.running
    pub threads : length p.asio_threads ≡ (if phase.running then thread_count lib hw_conc else 0)
    pub joinable : All (λ t. t.joinable ≡ true) p.asio_threads
    pub stopped : phase.was_stopped ≡ true → lib.stopped p.ioc ≡ true

  All-append : (ts us : List Thread) → AllJoinable ts → AllJoinable us → AllJoinable (ts ++ us)
  All-append [] us h k = k
  All-append (t ∷ ts) us (j, h) k = (j, All-append ts us h k)

  join_all-returns :
      (ts : List Thread) (c : lib.Context)
      → AllJoinable ts
      → lib.stopped c ≡ true
      → (after : lib.Context) × (join_all lib hw_conc ts c ≡ some after)
        × (lib.stopped after ≡ true)
  unfolding join_all
  join_all-returns [] c j h = (c, refl, h)
  join_all-returns (t ∷ ts) c (j, js) h =
      let (mid, joined, still) = lib.join-stopped c h in
      let (after, rest, done) = join_all-returns ts mid js still in
      (after, rw (j, joined) rest, done)

  emplace_threads-IsIn :
      (n : ℕ) (phase : Phase) (k : ℕ) (p : AsioThreadPool lib hw_conc)
      → p.work_guard ≡ true
      → length p.asio_threads ≡ k
      → AllJoinable p.asio_threads
      → (phase.was_stopped ≡ true → lib.stopped p.ioc ≡ true)
      → k + n ≡ thread_count lib hw_conc
      → IsIn (record phase { running = true }) (emplace_threads lib hw_conc n p)
  unfolding emplace_threads
  emplace_threads-IsIn zero phase k p guarded counted j h e = record {
    guarded = guarded;
    threads = omega arith;
    joinable = j;
    stopped = h;
  }
  emplace_threads-IsIn (suc n) phase k p guarded counted j h e =
      emplace_threads-IsIn n phase (suc k)
        (record p {
          ioc = lib.start_run p.ioc;
          asio_threads = p.asio_threads ++ record { joinable = true } ∷ [];
        })
        guarded (omega (arith, length-append p.asio_threads (record { joinable = true } ∷ [])))
        (All-append p.asio_threads (record { joinable = true } ∷ []) j (refl, tt))
        (λ was. lib.stopped-start_run p.ioc (h was)) (omega arith)

  -- How many threads the phase says.
  abbrev threads_in : Bool → ℕ
  threads_in running = if running then thread_count lib hw_conc else 0

  pub run-IsIn :
      (phase : Phase) (p : AsioThreadPool lib hw_conc)
      → IsIn phase p
      → IsIn (record phase { running = true }) (run lib hw_conc p)
  unfolding run
  run-IsIn phase p v = elim (Bool-cases p.work_guard) [
    | inl on ↦ rw on record {
      guarded = refl;
      threads = v.threads ∙ ap threads_in (sym v.guarded ∙ on);
      joinable = v.joinable;
      stopped = v.stopped;
    }
    | inr off ↦ rw off (
        emplace_threads-IsIn (thread_count lib hw_conc) phase 0
          (record p { ioc = lib.make_work_guard p.ioc; work_guard = true }) refl
          (v.threads ∙ ap threads_in (sym v.guarded ∙ off)) v.joinable
          (λ was. lib.stopped-make_work_guard p.ioc ∙ v.stopped was) (omega arith))
  ]

  stop_context-stopped : (c : lib.Context) → lib.stopped (stop_context lib hw_conc c) ≡ true
  stop_context-stopped c = elim (Bool-cases (lib.stopped c)) [
    | inl yes_stopped ↦ rw (yes_stopped, yes_stopped) refl
    | inr not_stopped ↦ rw not_stopped (lib.stopped-stop c)
  ]

  pub stop-IsIn :
      (phase : Phase) (p : AsioThreadPool lib hw_conc)
      → IsIn phase p
      → (after : AsioThreadPool lib hw_conc) × (stop lib hw_conc p ≡ some after)
        × IsIn (next_phase stops phase) after
  unfolding stop
  stop-IsIn phase p v = elim (Bool-cases p.work_guard) [
    | inl on ↦
        let c = stop_context lib hw_conc (lib.reset_work_guard p.ioc) in
        let (after, joined, stopped) =
          join_all-returns p.asio_threads c v.joinable
            (stop_context-stopped (lib.reset_work_guard p.ioc)) in
        (
          record { ioc = after; work_guard = false; asio_threads = [] },
          rw (on, joined) refl,
          record { guarded = refl; threads = refl; joinable = tt; stopped = λ _. stopped },
        )
    | inr off ↦ (
      p,
      rw off refl,
      record {
        guarded = off;
        threads = v.threads ∙ ap threads_in (sym v.guarded ∙ off);
        joinable = v.joinable;
        stopped =
            λ was. v.stopped (or_left phase.was_stopped phase.running (sym v.guarded ∙ off) was);
      },
    )
  ]

  run_calls-IsIn :
      (cs : List Call) (phase : Phase) (p : AsioThreadPool lib hw_conc)
      → IsIn phase p
      → (after : AsioThreadPool lib hw_conc) × (run_calls cs p ≡ some after)
        × IsIn (phase_after cs phase) after
  unfolding run_calls
  run_calls-IsIn [] phase p v = (p, refl, v)
  run_calls-IsIn (runs ∷ cs) phase p v =
      run_calls-IsIn cs (record phase { running = true }) (run lib hw_conc p) (run-IsIn phase p v)
  run_calls-IsIn (stops ∷ cs) phase p v =
      let (mid, stopped, now) = stop-IsIn phase p v in
      let (after, rest, done) = run_calls-IsIn cs (next_phase stops phase) mid now in
      (after, rw stopped rest, done)

  stopped_or_not : (was now : Bool) → (was ≡ true → now ≡ true) → (not was || now) ≡ true
  stopped_or_not true now h = h refl
  stopped_or_not false now h = refl

  -- Any sequence of Run and Stop on a new thread pool returns, and leaves the pool in the phase
  -- that the specification names: it holds a work guard exactly while it runs, and then as many
  -- threads as there are cores, or two where their number is not known, and else none; and
  -- from the first Stop of a running pool on the io_context is stopped, also after a later Run.
  pub run_calls-make_thread_pool :
      (cs : List Call) (ioc : lib.Context)
      → (after : AsioThreadPool lib hw_conc) × (run_calls cs (make_thread_pool lib hw_conc ioc)
          ≡ some after)
        × (after.work_guard ≡ (phase_after cs fresh).running)
        × (length after.asio_threads
            ≡ (if (phase_after cs fresh).running then thread_count lib hw_conc else 0))
        × ((not (phase_after cs fresh).was_stopped || lib.stopped after.ioc) ≡ true)
  run_calls-make_thread_pool cs ioc =
      let (after, returned, v) =
        run_calls-IsIn cs fresh (make_thread_pool lib hw_conc ioc)
          (record { guarded = refl; threads = refl; joinable = tt; stopped = λ h. cc }) in
      (
        after,
        returned,
        v.guarded,
        v.threads,
        stopped_or_not (phase_after cs fresh).was_stopped (lib.stopped after.ioc) v.stopped,
      )
