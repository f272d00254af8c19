-- ===== src/Server/Accounting/Tests.antt =====
-- Calls that raise an incident, on the mock.
use governed_mcp_server.Common.{◌≡◌, List, refl, ℕ, ◌+◌, ◌≤◌, [], ◌∷◌, length}
use governed_mcp_server.Middleware.Flow.{Context, Next}
use governed_mcp_server.Audit.{Line}
use governed_mcp_server.ServiceNow.Mock.{MockServiceNow}
use governed_mcp_server.Server.Authority.Tests.{running, env, fresh}
use governed_mcp_server.Server.Accounting.Count.{approvals}
use governed_mcp_server.Server.Accounting.{Running, admitted, Reachable, start, arrive, run}
use governed_mcp_server.Server.Serving.{run_request, run_target}
use governed_mcp_server.Server.Serving.Counting.{served_incidents_are_approved, mock-IsCounting}
use governed_mcp_server.Server.Serving.SmallSdk.{sdk, shipments, now, clock, backend}
use governed_mcp_server.Server.Serving.Tests.{again}

abbrev opened : MockServiceNow → ℕ
opened store = length store.incidents

abbrev serve : Next MockServiceNow
serve = run_request sdk shipments backend clock

abbrev Reaches : Running MockServiceNow → Type 0
Reaches = Reachable env serve [] fresh.inner

-- Two approved calls arrive, and the handler of the first one runs before that of the second.
abbrev log_of : List Context → List Line
log_of [] = []
log_of (ctx ∷ earlier) = (admitted env ctx (log_of earlier) earlier).log

abbrev one_arrived : Running MockServiceNow
one_arrived = record { log = log_of (again ∷ []); store = fresh.inner; waiting = again ∷ [] }

abbrev two_arrived : Running MockServiceNow
two_arrived = record {
  log = log_of (again ∷ again ∷ []);
  store = fresh.inner;
  waiting = again ∷ again ∷ [];
}

abbrev one_run : Running MockServiceNow
one_run = record two_arrived { store = (serve again fresh.inner).1; waiting = again ∷ [] }

reached : Reaches one_run
unfolding running
reached = run two_arrived.log fresh.inner (again ∷ []) again [] (
    arrive again one_arrived
      (arrive again (record { log = []; store = fresh.inner; waiting = [] }) start))

served_incidents_are_approved_example :
    opened one_run.store + approvals [] ≤ opened fresh.inner + approvals one_run.log
served_incidents_are_approved_example =
    served_incidents_are_approved opened sdk shipments backend clock
      (λ ctx. mock-IsCounting (now ctx)) env [] fresh.inner one_run reached

-- Both approvals are in the log, and one incident is opened so far.
counts : (opened one_run.store ≡ 2) × (opened fresh.inner ≡ 1) × (approvals one_run.log ≡ 2)
unfolding running run_request run_target
counts = (refl, refl, refl)
