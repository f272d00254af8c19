-- ===== src/Lib.antt =====
-- A model of the governed MCP server, and what is proved of it.
--
-- The server (server.py) offers six tools and a resource about shipments, and every request for
-- them passes a middleware (governance/middleware.py) that asks the policy (governance/policy.py)
-- whether the roles in the caller's token (governance/verifier.py) allow it, writes the decision to
-- the audit trail (governance/audit.py), and holds a call of a tool that the policy marks
-- `requires_approval` until a human agrees (governance/approval.py). The tools act on ServiceNow
-- through one of two backends (governance/servicenow.py).
--
-- Which file models what:
--   Common        texts, dicts, results, numbers in base ten, floats, points of time, shell
--                 patterns (`fnmatchcase`), the values of YAML and JSON documents, `str`, `repr`
--                 and `json.dumps`
--   Policy        policy.py: Model has the classes, Loading `load` and `from_mapping`, Deciding
--                 `decide_tool`, `decide_resource` and `visible_tools`; Document is policy.yaml
--   Audit         audit.py: `record`, as the line that it logs; Text has its JSON, Stream
--                 `configure`
--   Approval      approval.py: `check`, `is_affirmative`, `new_pending_state`
--   Verifier      verifier.py: Checking has `EntraTokenVerifier` and the static key set, Tokens
--                 `roles_from_token` and `describe_principal`, Keys `JwksEndpoint`
--   DevIdp        devidp.py: Provider has the key, its file and what is published, Issuing `issue`
--                 and `expired`; Trust says which tokens count, and what is relied on of the JWT
--                 library
--   RequestState  request_state.py: `generate_key`, `load_keys` and `build`, over base64; Rotation is
--                 the rollout in docs/runbooks/rotate-request-state-key.md
--   Middleware    middleware.py: Flow has the state that a request passes on, Listing, Approving
--                 and Guards the methods, with `__call__` as `handle`
--   ServiceNow    servicenow.py: Mock and Live are the backends, Backend the interface and `build`
--   Server        server.py: Model has the shipments and results, Tools the tools, Start
--                 `create_server`, Globals what a start does to the module and the attribute `mcp`,
--                 Main the command line, Serving a request on the server that is put together
--   Client        client.py: what the demonstration asks and prints
-- The other files below these are the proofs, named for what they show, and the tests.
--
-- Code that changes state takes the state as an argument and returns it with its result: `World`
-- for the middleware, the incidents for the mock, a type of the client's own for the live backend.
-- An exception is a value. The rest of the middleware chain, the HTTP client, the YAML parser,
-- the JWT and cryptography libraries, the SDK and the clock are parameters, and so are random nonces
-- and keys. The files that a process finds are a dict by path.
--
-- The middleware awaits nothing but the rest of the chain, so what it does before is one step. In
-- Server/Accounting a request arrives in such a step and its handler runs later, in one step too,
-- while others arrive and run; elsewhere a request is handled from its start to its end.
--
-- Recursion is structural, but for three functions on fuel. The digits of n have fuel n + 1, which is
-- more than n has digits. The scale of a float is looked for with fuel 1100, more than any float has
-- (Common/Double/Rounding). A pattern is read with its length as fuel, of which each step takes at
-- least one character, so that all of it is read (Common/Glob/Decides).
--
-- Not modelled: log messages other than the audit trail; the headers and the timeout of an HTTP
-- request; the texts of a PolicyError; a policy file that is there but cannot be read or decoded;
-- floats in `json.dumps`, for which no audit line has a place; which characters above the Latin-1 controls `repr` takes for
-- printable; floats that are negative or 2^53 and above, which no lateness in hours needs; the SDK,
-- which reads a request's tool and arguments, checks bearer tokens with the server's verifier and
-- seals request states; argparse, which reads the command line, and uvicorn, which serves; the mode
-- of the key file.
pub mod Common
pub mod Policy
pub mod Audit
pub mod Approval
pub mod Verifier
pub mod Middleware
pub mod ServiceNow
pub mod DevIdp
pub mod RequestState
pub mod Server
pub mod Client
