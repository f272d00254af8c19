-- ===== src/Server/Accounting.antt =====
-- The governed server under concurrent requests: incidents against approvals in the audit log. A
-- request arrives, and the middleware decides on it; where it passes the request on, the handler
-- runs later, while other requests arrive and run.
pub mod Count
pub mod Handling
pub mod Splitting
pub mod Tests
use governed_mcp_server.Common.{
  ◌≡◌, refl, ℕ, suc, ◌+◌, ◌≤◌, List, [], ◌∷◌, ◌++◌, if◌then◌else◌, arith, Bool-cases, inl, inr,
}
use governed_mcp_server.Audit.{Line}
use governed_mcp_server.Middleware.Flow.{Context, World, Environment, Next}
use governed_mcp_server.Middleware.Guards.{handle}
use governed_mcp_server.Server.Authority.{shipped}
use governed_mcp_server.Server.Accounting.Count.{approvals, raises, IsServing, noting}
use governed_mcp_server.Server.Accounting.Handling.{handle-IsAccounted}

pub record Running (S : Type 0) : Type 0 where
  pub log : List Line
  pub store : S
  pub waiting : List Context

-- The log and the requests that wait for their handler, after a request has arrived.
abbrev pub admitted : Environment → Context → List Line → List Context → World (List Context)
admitted env ctx log waiting =
    (handle env shipped noting ctx (record { log = log; inner = waiting })).1

-- The states that requests lead to, in any interleaving.
pub data Reachable {S : Type 0} (env : Environment) (call_next : Next S) (log : List Line)
    (store : S) : Running S → Type 0 where
  start : Reachable env call_next log store (record { log = log; store = store; waiting = [] })
  arrive :
      (ctx : Context) (now : Running S)
      → Reachable env call_next log store now
      → Reachable env call_next log store (record {
        log = (admitted env ctx now.log now.waiting).log;
        store = now.store;
        waiting = (admitted env ctx now.log now.waiting).inner;
      })
  run :
      (log' : List Line) (store' : S) (earlier : List Context) (ctx : Context)
      → (later : List Context)
      → Reachable env call_next log store
          (record { log = log'; store = store'; waiting = earlier ++ ctx ∷ later })
      → Reachable env call_next log store
          (record { log = log'; store = (call_next ctx store').1; waiting = earlier ++ later })

-- the waiting calls that may raise an incident
abbrev pending : List Context → ℕ
pending [] = 0
pending (ctx ∷ waiting) = let rest = pending waiting in if raises ctx then suc rest else rest

pending-middle :
    (earlier : List Context) (ctx : Context) (later : List Context)
    → pending (earlier ++ ctx ∷ later)
      ≡ (if raises ctx then suc (pending (earlier ++ later)) else pending (earlier ++ later))
pending-middle [] ctx later = refl
pending-middle (c ∷ earlier) ctx later = ground (arith, pending-middle earlier ctx later)

noting-IsServing : IsServing pending noting
noting-IsServing = record {
  keeps = λ ctx passed other. rw other refl;
  opens_one = λ ctx passed. ground arith;
}

module _ {S : Type 0} (opened : S → ℕ) (env : Environment) (call_next : Next S)
    (serving : IsServing opened call_next) (log : List Line) (store : S) where
  run-opened :
      (ctx : Context) (s : S)
      → opened (call_next ctx s).1 ≤ (if raises ctx then suc (opened s) else opened s)
  run-opened ctx s =
      let one = serving.opens_one ctx s in
      elim (Bool-cases (raises ctx)) [
        | inl call ↦ rw call (omega (arith, one))
        | inr other ↦ let same = serving.keeps ctx s other in rw other (omega (arith, same))
      ]

  Reachable-covered :
      (now : Running S)
      → Reachable env call_next log store now
      → opened now.store + pending now.waiting + approvals log ≤ opened store + approvals now.log
  Reachable-covered _ start = omega arith
  Reachable-covered _ (arrive ctx now reached) =
      let earlier = Reachable-covered now reached in
      let step =
        handle-IsAccounted pending env noting noting-IsServing ctx
          (record { log = now.log; inner = now.waiting }) in
      omega (arith, earlier, step)
  Reachable-covered _ (run log' store' earlier ctx later reached) =
      let before =
        Reachable-covered (record { log = log'; store = store'; waiting = earlier ++ ctx ∷ later })
          reached in
      let middle = pending-middle earlier ctx later in
      let opens = run-opened ctx store' in ground (arith, before, middle, opens)

  -- Behind the enforced shipped policy, after requests of any methods, callers and contents, and
  -- however their handlers interleave, the incidents opened since the start are at most as many
  -- as the lines that the audit log has gained about an incident that a human approved. The
  -- handlers are assumed to open at most one incident per call of `raise_shipment_incident`, and
  -- none for another request.
  pub incidents_are_approved :
      (now : Running S)
      → Reachable env call_next log store now
      → opened now.store + approvals log ≤ opened store + approvals now.log
  incidents_are_approved now reached =
      let covered = Reachable-covered now reached in omega (arith, covered)
