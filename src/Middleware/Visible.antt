-- ===== src/Middleware/Visible.antt =====
-- What a caller sees of the list of tools.
use governed_mcp_server.Common.{
  ◌≡◌, ◌≢◌, ◌∙◌, refl, sym, ap, String, Bool, true, some, List, [], ◌∷◌, arith, map, keep, length,
  length-keep-le, Bool-cases, inl, inr, eqb, if◌then◌else◌, not,
}
use governed_mcp_server.Common.Order.{contains}
use governed_mcp_server.Common.Value.{
  Value, null, list, mapping, Entries, end, entry, get, get_or, items, list_items,
}
use mathlib.Core.Path.{fun_ext}
use governed_mcp_server.Policy.Deciding.{decide_tool, visible_tools}
use governed_mcp_server.Policy.WellFormed.{IsWellFormed}
use governed_mcp_server.Policy.Decisions.{visible_tools-decide_tool}
use governed_mcp_server.Verifier.Tokens.{roles_from_token}
use governed_mcp_server.Middleware.Guards.{handle, filter_tool_list}
use governed_mcp_server.Middleware.Flow.{
  Answer, listing, wire, input_required, Context, PolicyEnforcementMiddleware, World, Environment,
  Next, Outcome, returned, raised,
}
use governed_mcp_server.Middleware.Listing.{
  filter_answer, filter_tools, kept_tools, replace, tool_name,
}

abbrev names_in : Value → List String
names_in (list tools) = map tool_name (items tools)
names_in _ = []

abbrev wire_names : Value → List String
wire_names (mapping m) = names_in (get "tools" m)
wire_names _ = []

-- the names of the tools that an answer lists
abbrev pub tool_names : Answer → List String
tool_names (listing tools _) = map (λ t. t.name) tools
tool_names (wire v) = wire_names v
tool_names (input_required _) = []

module _ {ℓ} {A : Type ℓ} where
  keep_full : (p : A → Bool) (xs : List A) → length (keep p xs) ≡ length xs → keep p xs ≡ xs
  keep_full p [] e = refl
  keep_full p (x ∷ xs) e = ground (arith, keep_full p xs, length-keep-le p xs)

  map-keep :
      (p : String → Bool) (f : A → String) (xs : List A)
      → map f (keep (λ x. p (f x)) xs) ≡ keep p (map f xs)
  map-keep p f [] = refl
  map-keep p f (x ∷ xs) = ground (arith, map-keep p f xs)

items-list_items : (vs : List Value) → items (list_items vs) ≡ vs
items-list_items [] = refl
items-list_items (v ∷ vs) = ap (λ r. v ∷ r) (items-list_items vs)

get_or-replace :
    (name : String) (default v : Value) (m : Entries)
    → get_or name default m ≢ default
    → get_or name default (replace name v m) ≡ v
unfolding get_or replace
get_or-replace name default v end h = absurd (h refl)
get_or-replace name default v (entry k x m) h = ground (arith, get_or-replace name default v m)

filter_tools-names :
    (visible : List String) (m : Entries) (tools : Value)
    → get "tools" m ≡ tools
    → tool_names (filter_tools visible m tools) ≡ keep (contains visible) (names_in tools)
filter_tools-names visible m (list tools) e =
    elim (Bool-cases (eqb (length (kept_tools visible (items tools))) (length (items tools)))) [
      | inl full ↦
          rw (full, e)
            (sym (
                ap (map tool_name)
                  (keep_full (λ t. contains visible (tool_name t)) (items tools) (ground arith)))
              ∙ map-keep (contains visible) tool_name (items tools))
      | inr some_gone ↦ rw some_gone (
          rw
            (
              get_or-replace "tools" null (list (list_items (kept_tools visible (items tools)))) m
                  (λ n. cc),
              items-list_items,
            )
            (map-keep (contains visible) tool_name (items tools)))
    ]
filter_tools-names visible m _ e = rw e refl

filter_answer-names :
    (visible : List String) (answer : Answer)
    → tool_names (filter_answer visible answer) ≡ keep (contains visible) (tool_names answer)
unfolding filter_answer
filter_answer-names visible (listing tools rest) =
    elim (Bool-cases (eqb (length (keep (λ t. contains visible t.name) tools)) (length tools))) [
      | inl full ↦ rw full (
          sym
            (ap (map (λ t. t.name)) (keep_full (λ t. contains visible t.name) tools (ground arith)))
          ∙ map-keep (contains visible) (λ t. t.name) tools)
      | inr some_gone ↦ rw some_gone (map-keep (contains visible) (λ t. t.name) tools)
    ]
filter_answer-names visible (wire (mapping m)) = filter_tools-names visible m (get "tools" m) refl
filter_answer-names visible (wire _) = refl
filter_answer-names visible (input_required _) = refl

keep_congr :
    (p q : String → Bool) (xs : List String) → ((x : String) → p x ≡ q x) → keep p xs ≡ keep q xs
keep_congr p q xs h = ap (λ r. keep r xs) (fun_ext h)

module _ {S : Type 0} (env : Environment) (mw : PolicyEnforcementMiddleware) (call_next : Next S)
    (ctx : Context) (w : World S) where
  handle-tool_list :
      ctx.method ≡ some "tools/list"
      → handle env mw call_next ctx w ≡ filter_tool_list env mw call_next ctx w
  unfolding handle
  handle-tool_list m = rw m

  -- what follows the handler's result
  abbrev after_call : Outcome Answer × S → Outcome Answer × World S
  after_call (r, s) = elim r [
    | returned answer ↦ (
      returned (
          if not mw.enforce
          then answer
          else filter_answer (visible_tools mw.policy (roles_from_token ctx.token)) answer),
      record { log = w.log; inner = s },
    )
    | raised e ↦ (raised e, record { log = w.log; inner = s })
  ]

  filter_tool_list-enforced :
      {answer : Answer} {s : S}
      → mw.enforce ≡ true
      → call_next ctx w.inner ≡ (returned answer, s)
      → filter_tool_list env mw call_next ctx w ≡ (
        returned (filter_answer (visible_tools mw.policy (roles_from_token ctx.token)) answer),
        record { log = w.log; inner = s },
      )
  unfolding filter_tool_list
  filter_tool_list-enforced e c = ap after_call c ∙ rw e

  -- Under enforcement of a well-formed policy, a list of tools names exactly those tools of the
  -- handler's list, in its order, that the caller would be allowed to call.
  pub tool_list_is_callable :
      (answer : Answer) (s : S)
      → IsWellFormed mw.policy
      → ctx.method ≡ some "tools/list"
      → mw.enforce ≡ true
      → call_next ctx w.inner ≡ (returned answer, s)
      → (shown : Answer) × (handle env mw call_next ctx w
          ≡ (returned shown, record { log = w.log; inner = s }))
        × (tool_names shown
            ≡ keep
                (λ tool. (decide_tool mw.policy tool (roles_from_token ctx.token)).allowed)
                (tool_names answer))
  tool_list_is_callable answer s h m e c =
      let roles = roles_from_token ctx.token in
      let visible = visible_tools mw.policy roles in
      (
        filter_answer visible answer,
        handle-tool_list m ∙ filter_tool_list-enforced e c,
        filter_answer-names visible answer
            ∙ keep_congr (contains visible) _ (tool_names answer)
                (λ tool. visible_tools-decide_tool mw.policy tool roles h),
      )
