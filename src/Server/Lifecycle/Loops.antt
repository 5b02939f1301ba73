-- ===== src/Server/Lifecycle/Loops.antt =====
-- The loops of the server, and its shut-down, in one step.
use mathlib.Core.List.{◌++◌, append-nil, append_assoc}
use photon_commerce.Base.{
  ℕ, zero, suc, some, true, List, [], ◌∷◌, Bool, and_then, ◌≡◌, refl, ap, ◌∙◌,
}
use photon_commerce.Server.Lifecycle.{
  Effect, worker_started, server_shut_down, cq_shut_down, worker_joined, taken, drained,
  UserServiceServer, did, start_workers, join, join_workers, drain, shut_down_server, shut_down_cq,
  recover, shutdown,
}
use photon_commerce.Server.ThreadPool.{Thread}

abbrev pub times : {A : Type 0} → ℕ → A → List A
times zero e = []
times (suc n) e = e ∷ times n e

abbrev pub thread : Thread
thread = record { joinable = true }

-- More effects, and more threads.
abbrev pub grown : UserServiceServer → List Thread → List Effect → UserServiceServer
grown s threads effects = record s {
  worker_threads = s.worker_threads ++ threads;
  effects = s.effects ++ effects;
}

abbrev pub did_all : UserServiceServer → List Effect → UserServiceServer
did_all s effects = record s { effects = s.effects ++ effects }

pub start_workers-grown :
    (n : ℕ) (s : UserServiceServer)
    → start_workers n s ≡ grown s (times n thread) (times n worker_started)
unfolding start_workers
start_workers-grown zero s = rw (append-nil s.worker_threads, append-nil s.effects) refl
start_workers-grown (suc n) s =
    start_workers-grown n (grown s (thread ∷ []) (worker_started ∷ []))
    ∙ rw
        (
          append_assoc s.worker_threads (thread ∷ []) (times n thread),
          append_assoc s.effects (worker_started ∷ []) (times n worker_started),
        )
        refl

joined :
    (s : UserServiceServer) → s.cq_closed ≡ true → join true thread s ≡ some (did worker_joined s)
joined s closed = rw closed refl

pub join_workers-did_all :
    (n : ℕ) (s : UserServiceServer)
    → s.cq_closed ≡ true
    → join_workers true (times n thread) s ≡ some (did_all s (times n worker_joined))
unfolding join_workers
join_workers-did_all zero s closed = rw (append-nil s.effects) refl
join_workers-did_all (suc n) s closed =
    ap (λ o. and_then o (join_workers true (times n thread))) (joined s closed)
    ∙ join_workers-did_all n (did worker_joined s) closed
    ∙ rw (append_assoc s.effects (worker_joined ∷ []) (times n worker_joined)) refl

pub drain-did_all :
    (left : ℕ) (s : UserServiceServer)
    → s.cq_closed ≡ true
    → drain left s ≡ some (did_all s (times left taken ++ drained ∷ []))
unfolding drain
drain-did_all zero s closed = rw closed refl
drain-did_all (suc left) s closed =
    drain-did_all left (did taken s) closed
    ∙ rw (append_assoc s.effects (taken ∷ []) (times left taken ++ drained ∷ [])) refl

-- Both are shut down, the server first.
abbrev pub both_shut_down : UserServiceServer → UserServiceServer
both_shut_down s = record (did cq_shut_down (did server_shut_down s)) { cq_closed = true }

pub shutdown-recover :
    (emptied : Bool) (left cq server : ℕ) (threads : List Thread) (s : UserServiceServer)
    → s.worker_threads ≡ threads
    → s.cq ≡ some cq
    → s.server ≡ some server
    → shutdown emptied left s ≡ recover emptied threads left (both_shut_down s)
unfolding shutdown
shutdown-recover emptied left cq server threads s same has_cq has_server =
    ap (λ ts. recover emptied ts left (shut_down_cq s.cq (shut_down_server s.server s))) same
    ∙ ap (λ p. recover emptied threads left (shut_down_cq p (shut_down_server s.server s))) has_cq
    ∙ ap (λ p. recover emptied threads left (shut_down_cq (some cq) (shut_down_server p s)))
        has_server
