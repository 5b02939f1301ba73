-- ===== src/Tests/Objects.antt =====
-- The first version of RegisterCallData: one request comes in.
use photon_commerce.Base.{none, some, [], ◌∷◌, ◌≡◌, refl, length}
use photon_commerce.Adapter.Version1.{
  RegisterCallData, process, Server, construct, proceed, init, handle_create, handle_process,
  handle_status,
}
use photon_commerce.Adapter.Version1.Lifetimes.{
  Event, deliver, logic_ends, handle, Reach, here, next, IsUsed, processed, take_request,
}
use photon_commerce.Adapter.Version1.Serving.{empty_server, handle-returns, started}
use photon_commerce.Service.Model.{RegisterRequest}

abbrev blank : RegisterRequest
blank = record { username = ""; password = ""; phone_number = ""; code = "" }

abbrev hello : RegisterRequest
hello = record { username = "alice"; password = "pw"; phone_number = "777"; code = "222222" }

abbrev begun : Server
begun = started blank 7

init_run : init blank 2 (empty_server 7) ≡ some begun
unfolding init proceed handle_status handle_create construct
init_run = refl

abbrev asked : RegisterCallData
asked = record { status = process; request = hello; reply = "" }

abbrev running : Server
running = processed blank 7 asked (take_request hello 7 [] begun)

request_run : proceed blank 2 7 (take_request hello 7 [] begun) ≡ some running
unfolding proceed handle_status handle_process handle_create construct
request_run = refl

running_reached : Reach blank begun running
running_reached = next here (deliver hello 7 [] [] refl) request_run

abbrev logic_done : Event running
logic_done = logic_ends none 7 [] [] refl

handle-returns_example :
    (u : Server) × (handle blank logic_done ≡ some u) × (length u.requested ≡ 1) × IsUsed 7 u
handle-returns_example = handle-returns blank 7 7 init_run running_reached logic_done

-- The object at 8 waits for the next request while the logic of 7 runs.
running_test : (running.requested ≡ 8 ∷ []) × (running.spawned ≡ 7 ∷ [])
running_test = (refl, refl)
