-- ===== src/Server/Accounting/Count.antt =====
-- What is counted: approvals in the audit log, calls that may raise an incident, and incidents.
use governed_mcp_server.Common.{
  ◌≡◌, refl, ℕ, suc, ◌+◌, ◌≤◌, String, Bool, true, false, some, none, Option, List, [], ◌∷◌, ◌++◌,
  ◌==◌, ◌&&◌, if◌then◌else◌, arith, eq_iff,
}
use governed_mcp_server.Common.Value.{null}
use governed_mcp_server.Policy.Model.{Decision}
use governed_mcp_server.Audit.{Line, entry_for}
use governed_mcp_server.Middleware.Flow.{Context, Next, returned, wire}
use governed_mcp_server.Middleware.Guards.{tool_of}

-- A line about a human's approval of an incident.
abbrev pub is_approval : Line → Bool
is_approval line =
    line.event.method == "approval"
    && (line.event.outcome == "allow" && line.event.target == "raise_shipment_incident")

abbrev pub approvals : List Line → ℕ
approvals [] = 0
approvals (line ∷ log) = let rest = approvals log in if is_approval line then suc rest else rest

pub approvals-append : (xs ys : List Line) → approvals (xs ++ ys) ≡ approvals xs + approvals ys
approvals-append [] ys = omega arith
approvals-append (x ∷ xs) ys = ground (arith, approvals-append xs ys)

pub one_more :
    (log : List Line) (l a : Line)
    → is_approval a ≡ true
    → suc (approvals log) ≤ approvals ((log ++ l ∷ []) ++ a ∷ [])
one_more log l a e =
    let inner = approvals-append log (l ∷ []) in
    let outer = approvals-append (log ++ l ∷ []) (a ∷ []) in
    let counts : approvals (a ∷ []) ≡ 1 = rw e refl in omega (arith, inner, outer, counts)

pub approval_line :
    (now principal : String) (decision : Decision)
    → decision.target ≡ "raise_shipment_incident"
    → is_approval (entry_for now principal "approval" decision none null (some "allow")) ≡ true
unfolding entry_for
approval_line now principal decision named =
    (eq_iff decision.target "raise_shipment_incident").1 named

abbrev pub is_tool_call : Option String → Bool
is_tool_call none = false
is_tool_call (some method) = method == "tools/call"

-- a call of the tool that raises an incident
abbrev pub raises : Context → Bool
raises ctx = is_tool_call ctx.method && tool_of ctx == "raise_shipment_incident"

-- What is relied on of the handlers, where `opened` counts the incidents of a store: other requests
-- open none, and a call of the tool opens one at most.
pub record IsServing {S : Type 0} (opened : S → ℕ) (call_next : Next S) : Type 0 where
  pub keeps : (ctx : Context) (s : S) → raises ctx ≡ false → opened (call_next ctx s).1 ≡ opened s
  pub opens_one : (ctx : Context) (s : S) → opened (call_next ctx s).1 ≤ opened s + 1

-- The handlers of a server that only notes which requests are passed on to them.
abbrev pub noting : Next (List Context)
noting ctx passed = (returned (wire null), ctx ∷ passed)
