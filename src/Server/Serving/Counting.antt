-- ===== src/Server/Serving/Counting.antt =====
-- Incidents against approvals in the audit log, with the functions that the server registers.
use governed_mcp_server.Common.{
  ◌≡◌, refl, ap, ℕ, ◌+◌, ◌≤◌, String, true, Option, none, some, List, [], ◌∷◌, length,
  length-append, arith, Bool-cases, inl, inr,
}
use governed_mcp_server.Common.Dict.{Dict, lookup}
use governed_mcp_server.Common.Result.{Result, ok, err}
use governed_mcp_server.Audit.{Line}
use governed_mcp_server.Middleware.Flow.{Context, Environment}
use governed_mcp_server.ServiceNow.Model.{ConfigurationItem, Fault}
use governed_mcp_server.ServiceNow.Mock
use governed_mcp_server.ServiceNow.Mock.{MockServiceNow}
use governed_mcp_server.ServiceNow.Backend.{ServiceNow, mock_backend}
use governed_mcp_server.Server.Model.{Shipment, summarise}
use governed_mcp_server.Server.Tools.{
  raise_shipment_incident, raise_for, is_urgency, ◌>>=◌, pure, short_description_of, description_of,
}
use governed_mcp_server.Server.Accounting.{Running, Reachable, incidents_are_approved}
use governed_mcp_server.Server.Accounting.Count.{approvals, raises, IsServing}
use governed_mcp_server.Server.Serving.{Sdk, an_incident, run_target, run_request}
use governed_mcp_server.Server.Serving.Effects.{
  IsReading, Writes, returning-inner, run_request-cases, Writes-named,
}

-- A backend of whose operations one opens an incident, and one at most.
pub record IsCounting {S : Type 0} (opened : S → ℕ) (service_now : ServiceNow S) : Type 0 where
  pub reads : IsReading service_now
  pub opens_one :
      (short_description configuration_item urgency description : String) (s : S)
      → opened
          (service_now.create_incident short_description configuration_item urgency description s).1
        ≤ opened s + 1

state_after :
    {S A B : Type 0} (f : A → B) (result : Result Fault A) (s before : S)
    → (((λ _. (result, s)) >>= λ a. pure (f a)) before).1 ≡ s
state_after f (ok a) s before = refl
state_after f (err e) s before = refl

module _ {S : Type 0} (opened : S → ℕ) (service_now : ServiceNow S)
    (counting : IsCounting opened service_now) (shipments : Dict Shipment)
    (shipment_id urgency : String) (s : S) where
  raise_for-opens_one :
      (shipment : Option Shipment)
      → opened (raise_for service_now shipment_id urgency shipment s).1 ≤ opened s + 1
  raise_for-opens_one none = omega arith
  raise_for-opens_one (some shipment) =
      let (result, after) =
        service_now.create_incident (short_description_of shipment) shipment.ci urgency
          (description_of shipment) s in
      let ends = ap opened (state_after summarise result after s) in
      let one =
        counting.opens_one (short_description_of shipment) shipment.ci urgency
          (description_of shipment) s in
      elim (Bool-cases (is_urgency urgency)) [
        | inl valid ↦ rw valid (omega (arith, ends, one))
        | inr bad ↦ rw bad (omega arith)
      ]

  pub raise-opens_one :
      opened (raise_shipment_incident service_now shipments shipment_id urgency s).1 ≤ opened s + 1
  unfolding raise_shipment_incident
  raise-opens_one = raise_for-opens_one (lookup shipment_id shipments)

raises_written : (sdk : Sdk) (ctx : Context) → Writes (sdk.target_of ctx) → raises ctx ≡ true
raises_written sdk ctx writes =
    let (method, named) = Writes-named sdk ctx writes in rw (method, named) refl

module _ {S : Type 0} (opened : S → ℕ) (sdk : Sdk) (shipments : Dict Shipment)
    (service_now : Context → ServiceNow S) (clock : Context → ℕ)
    (counting : (ctx : Context) → IsCounting opened (service_now ctx)) where
  reading : (ctx : Context) → IsReading (service_now ctx)
  reading ctx = (counting ctx).reads

  run_written :
      (ctx : Context) (s : S) (writes : Writes (sdk.target_of ctx))
      → opened (run_request sdk shipments service_now clock ctx s).1 ≤ opened s + 1
  unfolding run_request run_target
  run_written ctx s writes =
      let one =
        raise-opens_one opened (service_now ctx) (counting ctx) shipments writes.shipment_id
          writes.urgency s in
      let same =
        returning-inner an_incident (
          raise_shipment_incident (service_now ctx) shipments writes.shipment_id writes.urgency
            s) in
      rw (run_request, writes.calls) (omega (arith, one, ap opened same))

  run_request-IsServing : IsServing opened (run_request sdk shipments service_now clock)
  run_request-IsServing = record {
    keeps = λ ctx s other. elim (run_request-cases sdk shipments service_now clock reading ctx s) [
      | inl writes ↦ cc (raises_written sdk ctx writes)
      | inr same ↦ ap opened same
    ];
    opens_one = λ ctx s. elim (run_request-cases sdk shipments service_now clock reading ctx s) [
      | inl writes ↦ run_written ctx s writes
      | inr same ↦ let kept = ap opened same in omega (arith, kept)
    ];
  }

  -- On a server behind the enforced shipped policy, after requests of any methods, callers and
  -- contents, and however their tools interleave, the incidents opened since the start are at
  -- most as many as the lines that the audit log has gained about an incident that a human
  -- approved. The backend is assumed to open an incident with its `create_incident` only, and one
  -- at most; of the SDK, that it runs a tool by its name only.
  pub served_incidents_are_approved :
      (env : Environment) (log : List Line) (store : S) (now : Running S)
      → Reachable env (run_request sdk shipments service_now clock) log store now
      → opened now.store + approvals log ≤ opened store + approvals now.log
  served_incidents_are_approved env log store now reached =
      incidents_are_approved opened env (run_request sdk shipments service_now clock)
        run_request-IsServing log store now reached

-- The mock counts its incidents.
module _ (now : String) where
  created :
      (item : Option ConfigurationItem) (a b c : String) (store : MockServiceNow)
      → length (Mock.create_for item now a b c store).1.incidents ≤ length store.incidents + 1
  created none a b c store = omega arith
  created (some item) a b c store =
      let counts =
        length-append store.incidents (Mock.new_incident now a b c (store.counter + 1) ∷ []) in
      omega (arith, counts)

  pub mock-IsCounting : IsCounting (λ store. length store.incidents) (mock_backend now)
  unfolding Mock.create_incident
  mock-IsCounting = record {
    reads = record { find_reads = λ name s. refl; search_reads = λ item active limit s. refl };
    opens_one = λ a b c d store. created (lookup b store.configuration_items) a b c store;
  }
