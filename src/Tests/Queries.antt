-- ===== src/Tests/Queries.antt =====
-- A connection that answers a query after two further rounds, with two results.
use photon_commerce.Base.{
  ℕ, zero, suc, String, Option, none, some, true, List, [], ◌∷◌, ◌≡◌, refl, ap, arith, ret, pure,
}
use photon_commerce.Postgres.Connection.{
  c_str, PqLib, polling_ok, tuples_ok, map_result_to_expected, async_exec_params,
}
use photon_commerce.Postgres.Connection.Drain.{
  Results, Answers, complete, more, async_exec_params-drained,
}

pub record Line : Type 0 where
  pub busy : ℕ
  pub results : List String

abbrev ask : ℕ → List String → ℕ × Line
ask zero rs = (0, record { busy = 0; results = rs })
ask (suc b) rs = (1, record { busy = b; results = rs })

abbrev take_from : List String → ℕ → Option String × Line
take_from [] b = (none, record { busy = b; results = [] })
take_from (r ∷ rs) b = (some r, record { busy = b; results = rs })

abbrev toy_pq : PqLib Line
toy_pq = record {
  Result = String;
  connect_start = λ conn_str w. (true, w);
  connect_poll = λ w. (polling_ok, w);
  wait_write = pure tt;
  wait_read = pure tt;
  send_query_params = λ query params w. (1, record { busy = 2; results = "first" ∷ "second" ∷ [] });
  consume_input = λ w. (1, w);
  is_busy = λ w. ask w.busy w.results;
  get_result = λ w. take_from w.results w.busy;
  error_message = λ w. "";
  result_status = λ r. tuples_ok;
  result_error_message = λ r. "";
  result_sql_state = λ r. none;
}

abbrev toy_results : Results toy_pq
toy_results = record {
  pending = λ w. w.results;
  get_result-nil =
      λ w e. (ap (λ rs. (take_from rs w.busy).0) e, ap (λ rs. (take_from rs w.busy).1.results) e);
  get_result-cons =
      λ w r rs e. (ap (λ l. (take_from l w.busy).0) e, ap (λ l. (take_from l w.busy).1.results) e);
}

abbrev idle : Line
idle = record { busy = 0; results = [] }

abbrev ready : Line
ready = record { busy = 0; results = "first" ∷ "second" ∷ [] }

abbrev waiting : ℕ → Line
waiting n = record { busy = n; results = "first" ∷ "second" ∷ [] }

ready_after : Answers toy_pq (toy_pq.send_query_params "SELECT" [] idle).1 2 ready
ready_after =
    more (waiting 2) 0 0 refl refl refl
      (more (waiting 1) 0 0 refl refl refl (complete (waiting 0) 0 refl refl refl))

async_exec_params-drained_example :
    (w : Line) × (async_exec_params toy_pq 3 "SELECT" [] idle
      ≡ some (ret (map_result_to_expected toy_pq (some "first")), w))
    × (toy_results.pending w ≡ [])
async_exec_params-drained_example =
    async_exec_params-drained toy_pq toy_results 3 2 0 "SELECT" [] idle ready refl ready_after
      (omega arith) (omega arith)

c_str_test : c_str "ab\0c" ≡ "ab"
c_str_test = refl
