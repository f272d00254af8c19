-- ===== src/Middleware/Flow.antt =====
-- What a request carries, what a call returns or raises, and the state that calls pass on: the
-- audit log and the state `S` of the handlers behind the middleware.
use governed_mcp_server.Common.{ℕ, String, Bool, Option, List, [], ◌∷◌, ◌++◌, length}
use governed_mcp_server.Common.Value.{ℤ, negsuc, Value, Entries}
use governed_mcp_server.Policy.Model.{Policy, Decision}
use governed_mcp_server.Audit.{Line, entry_for}
use governed_mcp_server.Verifier.Tokens.{AccessToken}

-- The request context; `token` is what the SDK's `get_access_token` answers during the request.
pub record Context : Type 0 where
  pub method : Option String
  pub params : Value
  pub protocol_version : Value
  pub token : Option AccessToken

pub record PolicyEnforcementMiddleware : Type 0 where
  pub policy : Policy
  pub enforce : Bool

-- A tool as the SDK's model of it.
pub record Tool : Type 0 where
  pub name : String
  pub rest : Value

-- The parts of an `InputRequiredResult` that vary: the question and the state to send back.
pub record InputRequired : Type 0 where
  pub key : String
  pub message : String
  pub description : String
  pub request_state : String

-- A `ListToolsResult`, any other value, or a request for input.
pub data Answer : Type 0 where
  listing : List Tool → Value → Answer
  wire : Value → Answer
  input_required : InputRequired → Answer

pub data ErrorData : Type 0 where
  target_only : (target : String) → ErrorData
  denial :
      (target : String) (required_roles : List String) (classification : Option String) → ErrorData

-- `MCPError`
pub record McpError : Type 0 where
  pub code : ℤ
  pub message : String
  pub detail : ErrorData

-- -32003
abbrev pub authorization_denied : ℤ
authorization_denied = negsuc 32002

-- What the middleware raises, and any exception of a handler.
pub data Failure : Type 0 where
  mcp_error : McpError → Failure
  handler_failure : String → Failure

pub data Outcome (A : Type 0) : Type 0 where
  returned : A → Outcome A
  raised : Failure → Outcome A

pub record World (S : Type 0) : Type 0 where
  pub log : List Line
  pub inner : S

-- The clock's reading and the nonce drawn when the log has so many lines.
pub record Environment : Type 0 where
  pub now : ℕ → String
  pub nonce : ℕ → String

-- The rest of the middleware chain and the handler.
abbrev pub Next : Type 0 → Type 0
Next S = Context → S → Outcome Answer × S

abbrev pub Flow : Type 0 → Type 0 → Type 0
Flow S A = World S → Outcome A × World S

module _ {S A : Type 0} where
  abbrev pub pure : A → Flow S A
  pure a w = (returned a, w)

  abbrev pub raise : Failure → Flow S A
  raise e w = (raised e, w)

infixl 5 ◌>>=◌ ◌>>◌
abbrev pub ◌>>=◌ : {S A B : Type 0} → Flow S A → (A → Flow S B) → Flow S B
◌>>=◌ m f w = let (r, w') = m w in elim r [ returned a ↦ f a w' | raised e ↦ (raised e, w') ]

abbrev pub ◌>>◌ : {S A B : Type 0} → Flow S A → Flow S B → Flow S B
m >> k = m >>= λ _. k

-- `await call_next(ctx)`
abbrev pub forward : {S : Type 0} → Next S → Context → Flow S Answer
forward call_next ctx w =
    let (r, s) = call_next ctx w.inner in (r, record { log = w.log; inner = s })

-- `audit.record(…)`
abbrev pub record_decision :
    {S : Type 0}
    → Environment
    → (principal method : String) → Decision
    → Option Entries
    → Value
    → Option String
    → Flow S (Unit {0})
record_decision env principal method decision arguments protocol_version outcome w = (
  returned tt,
  record {
    log =
        w.log
        ++ entry_for (env.now (length w.log)) principal method decision arguments protocol_version
            outcome
          ∷ [];
    inner = w.inner;
  },
)
