-- ===== src/Middleware/ResourceReads.antt =====
-- governance/middleware.py: `_guard_resource_read`, in full.
use governed_mcp_server.Common.{
  ◌≡◌, ◌⊎◌, ◌↔◌, ◌∙◌, refl, sym, ap, subst, String, Bool, true, false, none, some, List, [], ◌∷◌,
  ◌++◌, Bool-cases, Option-cases, inl, inr,
}
use governed_mcp_server.Policy.Model.{Policy, Decision}
use governed_mcp_server.Policy.Deciding.{decide_resource, resource_rule}
use governed_mcp_server.Audit.{Line, entry_for, allow_or_deny}
use governed_mcp_server.Verifier.Tokens.{roles_from_token, describe_principal}
use governed_mcp_server.Middleware.Flow.{
  Context, PolicyEnforcementMiddleware, Answer, Outcome, raised, World, Environment, Next,
}
use governed_mcp_server.Middleware.Guards.{handle, guard_resource_read, denied_error, uri_of}
use governed_mcp_server.Middleware.Enforcement.{resource_decision, resource_line}
use governed_mcp_server.Middleware.Trail.{
  guard_resource_read-denied, guard_resource_read-allowed, guard_resource_read-shadow,
  handle-resource_read,
}

decide_resource-target :
    (policy : Policy) (uri : String) (roles : List String)
    → (decide_resource policy uri roles).target ≡ uri
unfolding decide_resource
decide_resource-target policy uri roles = elim (Option-cases (resource_rule policy uri)) [
  | inl missing ↦ rw missing refl
  | inr (rule, found) ↦ rw found refl
]

allow_iff :
    {outcome : String} (allowed : Bool)
    → outcome ≡ allow_or_deny allowed
    → (outcome ≡ "allow") ↔ (allowed ≡ true)
allow_iff true e = (λ _. refl, λ _. e)
allow_iff false e = (λ same. cc, λ h. cc)

module _ {S : Type 0} (env : Environment) (mw : PolicyEnforcementMiddleware) (call_next : Next S)
    (ctx : Context) (w : World S) where
  -- What a resource read comes to, by the policy's decision on the URI for the caller's roles.
  pub data ResourceRead (result : Outcome Answer × World S) : Type 0 where
    passed :
        (mw.enforce ≡ false)
          ⊎ ((decide_resource mw.policy (uri_of ctx) (roles_from_token ctx.token)).allowed ≡ true)
        → result.0 ≡ (call_next ctx w.inner).0
        → result.1.inner ≡ (call_next ctx w.inner).1
        → ResourceRead result
    stopped :
        (decision : Decision)
        → mw.enforce ≡ true
        → decision ≡ decide_resource mw.policy (uri_of ctx) (roles_from_token ctx.token)
        → decision.allowed ≡ false
        → result.0 ≡ raised (denied_error decision)
        → result.1.inner ≡ w.inner
        → ResourceRead result

  -- The log has grown by one line about the read: who, what, and whether the policy allows it.
  pub record IsReadLogged (result : Outcome Answer × World S) : Type 0 where
    pub line : Line
    pub grown : result.1.log ≡ w.log ++ line ∷ []
    pub method : line.event.method ≡ "resources/read"
    pub principal : line.event.principal ≡ describe_principal ctx.token
    pub target : line.event.target ≡ uri_of ctx
    pub outcome :
        (line.event.outcome ≡ "allow")
        ↔ ((decide_resource mw.policy (uri_of ctx) (roles_from_token ctx.token)).allowed ≡ true)
    pub arguments : line.event.arguments ≡ none

  guard_resource_read-ResourceRead : ResourceRead (guard_resource_read env mw call_next ctx w)
  guard_resource_read-ResourceRead =
      elim (Bool-cases (resource_decision env mw call_next ctx w).allowed) [
        | inl allowed ↦
            let e = guard_resource_read-allowed env mw call_next ctx w allowed in
            passed (inr allowed) (ap (λ r. r.0) e) (ap (λ r. r.1.inner) e)
        | inr refused ↦ elim (Bool-cases mw.enforce) [
          | inl on ↦
              let e = guard_resource_read-denied env mw call_next ctx w on refused in
              stopped _ on refl refused (ap (λ r. r.0) e) (ap (λ r. r.1.inner) e)
          | inr off ↦
              let e = guard_resource_read-shadow env mw call_next ctx w off in
              passed (inl off) (ap (λ r. r.0) e) (ap (λ r. r.1.inner) e)
        ]
      ]

  read_line :
      let line = resource_line env mw call_next ctx w in
      (line.event.method ≡ "resources/read")
      × (line.event.principal ≡ describe_principal ctx.token)
      × (line.event.arguments ≡ none)
  unfolding entry_for
  read_line = (refl, refl, refl)

  read_line_outcome :
      (resource_line env mw call_next ctx w).event.outcome
      ≡ allow_or_deny (resource_decision env mw call_next ctx w).allowed
  unfolding entry_for
  read_line_outcome = refl

  read_target : (resource_line env mw call_next ctx w).event.target ≡ uri_of ctx
  unfolding entry_for
  read_target = decide_resource-target mw.policy (uri_of ctx) (roles_from_token ctx.token)

  guard_resource_read-log :
      (guard_resource_read env mw call_next ctx w).1.log
      ≡ w.log ++ resource_line env mw call_next ctx w ∷ []
  guard_resource_read-log = elim (Bool-cases (resource_decision env mw call_next ctx w).allowed) [
    | inl allowed ↦ ap (λ r. r.1.log) (guard_resource_read-allowed env mw call_next ctx w allowed)
    | inr refused ↦ elim (Bool-cases mw.enforce) [
      | inl on ↦ ap (λ r. r.1.log) (guard_resource_read-denied env mw call_next ctx w on refused)
      | inr off ↦ ap (λ r. r.1.log) (guard_resource_read-shadow env mw call_next ctx w off)
    ]
  ]

  -- A resource read, in either mode, leaves one line in the audit log, with the caller, the URI and
  -- the outcome `allow` exactly if the policy allows it, and without the arguments. In shadow mode,
  -- or if the policy allows it, it then ends as the handler does, with the handler's effect; if
  -- not, it raises the denial, and the state behind the middleware is left alone.
  pub handle-ResourceRead :
      ctx.method ≡ some "resources/read"
      → ResourceRead (handle env mw call_next ctx w) × IsReadLogged (handle env mw call_next ctx w)
  handle-ResourceRead m =
      let e = sym (handle-resource_read env mw call_next ctx w m) in
      (
        subst ResourceRead e guard_resource_read-ResourceRead,
        record {
          line = resource_line env mw call_next ctx w;
          grown = ap (λ r. r.1.log) (sym e) ∙ guard_resource_read-log;
          method = read_line.0;
          principal = read_line.1;
          target = read_target;
          outcome = allow_iff _ read_line_outcome;
          arguments = read_line.2;
        },
      )
