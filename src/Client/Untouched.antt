-- ===== src/Client/Untouched.antt =====
-- client.py on a server: what the demonstration's requests do behind it.
use governed_mcp_server.Common.{
  ◌≡◌, ◌≢◌, refl, sym, ap, ◌∙◌, ℕ, String, false, none, some, inl, inr, ◌==◌, Bool-cases,
  Option-cases, eq_iff,
}
use governed_mcp_server.Common.Dict.{Dict}
use governed_mcp_server.Common.Result.{Result, ok, err}
use governed_mcp_server.Common.Value.{Entries}
use governed_mcp_server.Middleware.Flow.{Context, Answer, World, Environment, Next, Flow}
use governed_mcp_server.Middleware.Guards.{tool_of}
use governed_mcp_server.Middleware.Untouched.{handle-inner}
use governed_mcp_server.ServiceNow.Backend.{ServiceNow}
use governed_mcp_server.Server.Model.{Shipment}
use governed_mcp_server.Server.Start.{McpServer, StartError}
use governed_mcp_server.Server.Globals.{Attribute, Globals, read_attribute}
use governed_mcp_server.Server.Serving.{Sdk, run_request, served}
use governed_mcp_server.Server.Serving.Effects.{IsReading, run_request-cases, Writes-named}
use governed_mcp_server.Client.{
  Client, Run, ◌>>=◌, exercise, Target, at_url, in_memory, Arguments, mode_of, ran, imported, main,
}

-- Requests that a server answers one after the other, each with what `Asks` says of it.
pub data Asked {S : Type 0} (serve : Context → Flow S Answer) (Asks : Context → Type 0)
    : World S → World S → Type 0 where
  nothing : {w : World S} → Asked serve Asks w w
  request :
      {w w' : World S} (ctx : Context)
      → Asks ctx
      → Asked serve Asks (serve ctx w).1 w'
      → Asked serve Asks w w'

-- a request that calls no tool but this one
abbrev pub CallsOnly : String → Context → Type 0
CallsOnly name ctx = ctx.method ≡ some "tools/call" → tool_of ctx ≡ name

abbrev pub CallsNothing : Context → Type 0
CallsNothing ctx = ctx.method ≢ some "tools/call"

-- What is relied on of the SDK's client: it acts on the server by requests only, and calls the tool
-- that it is asked to call, or none.
pub record IsConnected {S : Type 0} (serve : Context → Flow S Answer) (client : Client (World S))
    : Type 0 where
  pub lists : (w : World S) → Asked serve CallsNothing w (client.list_tools w).1
  pub calls :
      (name : String) (arguments : Entries) (w : World S)
      → Asked serve (CallsOnly name) w (client.call_tool name arguments w).1
  pub reads :
      (uri : String) (w : World S) → Asked serve CallsNothing w (client.read_resource uri w).1

not_equal : {a b : String} → (a == b) ≡ false → a ≢ b
not_equal {a} {b} other e = let same = (eq_iff a b).1 e in cc

Asked-inner :
    {S : Type 0} {serve : Context → Flow S Answer} {Asks : Context → Type 0}
    → ((ctx : Context) → Asks ctx → (w : World S) → (serve ctx w).1.inner ≡ w.inner)
    → {w w' : World S} → Asked serve Asks w w'
    → w'.inner ≡ w.inner
Asked-inner keeps nothing = refl
Asked-inner keeps (request {w} ctx asks more) = Asked-inner keeps more ∙ keeps ctx asks w

served-inner :
    {Key S : Type 0} (server : McpServer Key) (env : Environment) (call_next : Next S)
    → (ctx : Context) (w : World S) → (call_next ctx w.inner).1 ≡ w.inner
    → (served server env call_next ctx w).1.inner ≡ w.inner
unfolding served
served-inner server env call_next ctx w reads = elim (Option-cases server.middleware) [
  | inl ungoverned ↦ rw ungoverned reads
  | inr (mw, governed) ↦ rw governed (handle-inner env mw call_next ctx w reads)
]

-- a call that keeps the state behind the server, and then a run that does
step :
    {S A : Type 0} {s : S}
    → (call : Result String A × World S) (next : A → World S → Run (World S)) → call.1.inner ≡ s
    → ((a : A) (w : World S) → w.inner ≡ s → (next a w).state.inner ≡ s)
    → (call >>= next).state.inner ≡ s
unfolding ◌>>=◌
step (ok a, w) next kept rest = rest a w kept
step (err e, w) next kept rest = kept

module _ {Key S : Type 0} (env : Environment) (sdk : Sdk) (shipments : Dict Shipment)
    (service_now : Context → ServiceNow S) (clock : Context → ℕ)
    (reading : (ctx : Context) → IsReading (service_now ctx)) where
  abbrev answers : McpServer Key → Context → Flow S Answer
  answers server = served server env (run_request sdk shipments service_now clock)

  -- A request that calls no tool, or one that reads, leaves the state of the backend alone.
  answers-inner :
      (server : McpServer Key) (ctx : Context)
      → (ctx.method ≡ some "tools/call" → tool_of ctx ≢ "raise_shipment_incident")
      → (w : World S) → (answers server ctx w).1.inner ≡ w.inner
  answers-inner server ctx other w =
      served-inner server env _ ctx w
        (elim (run_request-cases sdk shipments service_now clock reading ctx w.inner) [
          | inl writes ↦
              let (method, named) = Writes-named sdk ctx writes in absurd (other method named)
          | inr same ↦ same
        ])

  module _ (server : McpServer Key) (client : Client (World S))
      (connected : IsConnected (answers server) client) where
    reading_call-inner :
        (name : String) (arguments : Entries)
        → (name == "raise_shipment_incident") ≡ false
        → (w : World S) → (client.call_tool name arguments w).1.inner ≡ w.inner
    reading_call-inner name arguments other w =
        Asked-inner
          (λ ctx only. answers-inner server ctx (λ m e. not_equal other (sym (only m) ∙ e)))
          (connected.calls name arguments w)

    quiet-inner : {w w' : World S} → Asked (answers server) CallsNothing w w' → w'.inner ≡ w.inner
    quiet-inner =
        Asked-inner (λ ctx calls_none. answers-inner server ctx (λ m. absurd (calls_none m)))

    exercise-inner : (w : World S) → (exercise client w).state.inner ≡ w.inner
    unfolding exercise
    exercise-inner w = step _ _ (quiet-inner (connected.lists w)) (λ listed w1 k1.
        step _ _ (reading_call-inner _ _ refl w1 ∙ k1) (λ status w2 k2.
          step _ _ (reading_call-inner _ _ refl w2 ∙ k2) (λ delayed w3 k3.
            step _ _ (quiet-inner (connected.reads _ w3) ∙ k3) (λ contents w4 k4. k4))))

  module _ (server_at : Target Key → McpServer Key)
      (connect : Target Key → (mode : String) → Client (World S))
      (connected : (target : Target Key) (mode : String)
        → IsConnected (answers (server_at target)) (connect target mode))
      (create : Globals Key → Result StartError (McpServer Key) × Globals Key) where
    imported-inner :
        (attribute : Attribute Key) (mode : String) (w : World S) (run : Run (World S))
        → imported connect create attribute mode w ≡ ran run
        → run.state.inner ≡ w.inner
    imported-inner (some (ok server)) mode w run e =
        let target = in_memory server in
        let client = connect target mode in
        let same : exercise client w ≡ run = cc e in
        sym (ap (λ r. r.state.inner) same)
        ∙ exercise-inner (server_at target) client (connected target mode) w
    imported-inner (some (err f)) mode w run e = cc
    imported-inner none mode w run e = cc

    -- The demonstration, with any options and against any server, with authentication or without,
    -- leaves the state of the backend as it was, whatever its requests are answered and even if one
    -- of them raises. The backend's find and search are assumed to change nothing; of the SDK,
    -- that a server runs a tool by its name only, and that a client acts on the server by requests
    -- only and calls no tool but the one that it is asked to call.
    pub demonstration-inner :
        (arguments : Arguments) (globals : Globals Key) (w : World S) (run : Run (World S))
        → main connect create arguments globals w ≡ ran run
        → run.state.inner ≡ w.inner
    unfolding main
    demonstration-inner arguments globals w run e = elim (Bool-cases arguments.http) [
      | inl remote ↦
          let target = at_url arguments.url in
          let client = connect target (mode_of arguments) in
          let same : exercise client w ≡ run = cc (remote, e) in
          sym (ap (λ r. r.state.inner) same)
          ∙ exercise-inner (server_at target) client (connected target (mode_of arguments)) w
      | inr local ↦
          imported-inner (read_attribute create "mcp" globals).0 (mode_of arguments) w run
            (cc (local, e))
    ]
