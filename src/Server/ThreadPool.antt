-- ===== src/Server/ThreadPool.antt =====
-- UserService/infrastructure/asio_thread_pool: the threads that run the io_context. A call that
-- would never return, as it waits for a thread that does not end, is none.
pub mod Phases
use mathlib.Core.List.{◌++◌}
use photon_commerce.Base.{
  ℕ, zero, suc, Option, none, some, Bool, true, false, not, List, [], ◌∷◌, ◌≡◌, ◌==◌, if◌then◌else◌,
  and_then,
}

-- boost::asio::io_context: `start_run` starts a thread that calls `run()`, and `join` waits for
-- such a thread, where `run()` returns once the context is stopped.
pub record IoContext : Type 1 where
  pub Context : Type 0
  pub stopped : Context → Bool
  pub make_work_guard : Context → Context
  pub reset_work_guard : Context → Context
  pub stop : Context → Context
  pub start_run : Context → Context
  pub join : Context → Option Context
  pub stopped-make_work_guard : (c : Context) → stopped (make_work_guard c) ≡ stopped c
  pub stopped-reset_work_guard :
      (c : Context) → stopped c ≡ true → stopped (reset_work_guard c) ≡ true
  pub stopped-stop : (c : Context) → stopped (stop c) ≡ true
  pub stopped-start_run : (c : Context) → stopped c ≡ true → stopped (start_run c) ≡ true
  pub join-stopped :
      (c : Context)
      → stopped c ≡ true
      → (after : Context) × (join c ≡ some after) × (stopped after ≡ true)

pub record Thread : Type 0 where
  pub joinable : Bool

module _ (lib : IoContext) (hw_conc : ℕ) where
  -- `ioc` is set, since `Run` uses it without a test.
  pub record AsioThreadPool : Type 0 where
    pub ioc : lib.Context
    pub work_guard : Bool
    pub asio_threads : List Thread

  -- The constructor.
  abbrev pub make_thread_pool : lib.Context → AsioThreadPool
  make_thread_pool ioc = record { ioc = ioc; work_guard = false; asio_threads = [] }

  abbrev pub thread_count : ℕ
  thread_count = if hw_conc == 0 then 2 else hw_conc

  -- The loop of `Run` for this many threads.
  unfoldable pub emplace_threads : ℕ → AsioThreadPool → AsioThreadPool
  emplace_threads zero p = p
  emplace_threads (suc n) p = emplace_threads n (record p {
    ioc = lib.start_run p.ioc;
    asio_threads = p.asio_threads ++ record { joinable = true } ∷ [];
  })

  unfoldable pub run : AsioThreadPool → AsioThreadPool
  run p =
      if p.work_guard
      then p
      else emplace_threads thread_count
          (record p { ioc = lib.make_work_guard p.ioc; work_guard = true })

  -- The loop of `Stop` that waits for the threads.
  unfoldable pub join_all : List Thread → lib.Context → Option lib.Context
  join_all [] c = some c
  join_all (t ∷ ts) c =
      and_then (if t.joinable then lib.join c else some c) (λ after. join_all ts after)

  abbrev stop_context : lib.Context → lib.Context
  stop_context c = if not (lib.stopped c) then lib.stop c else c

  -- `Stop`, which the destructor calls too.
  unfoldable pub stop : AsioThreadPool → Option AsioThreadPool
  stop p =
      if not p.work_guard
      then some p
      else and_then (join_all p.asio_threads (stop_context (lib.reset_work_guard p.ioc)))
          (λ c. some (record { ioc = c; work_guard = false; asio_threads = [] }))
