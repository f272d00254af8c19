-- ===== src/Policy/Resources.antt =====
-- Which rule is selected for a resource.
use governed_mcp_server.Common.{
  ◌≡◌, ◌≢◌, ◌↔◌, refl, sym, subst, ◌≤◌, String, true, false, none, some, List, [], ◌∷◌, ◌==◌, ◌||◌,
  eq_iff, arith, Bool-cases, inl, inr,
}
use governed_mcp_server.Common.Glob.{codes, text_length, fnmatchcase}
use governed_mcp_server.Common.Glob.Matching.{Matches}
use governed_mcp_server.Common.Glob.Decides.{fnmatchcase_iff}
use governed_mcp_server.Common.Order.{contains}
use governed_mcp_server.Common.Dict.{Dict, lookup, keys}
use governed_mcp_server.Policy.Model.{Policy, Rule}
use governed_mcp_server.Policy.Deciding.{
  insert_by_length, longest_first, first_match, resource_rule,
}
use governed_mcp_server.Policy.WellFormed.{IsSound, AreSound, IsWellFormed}

-- no text of the list is longer
abbrev NoneLonger : String → List String → Type 0
NoneLonger p [] = Unit
NoneLonger p (q ∷ qs) = (text_length q ≤ text_length p) × NoneLonger p qs

abbrev IsDescending : List String → Type 0
IsDescending [] = Unit
IsDescending (p ∷ ps) = NoneLonger p ps × IsDescending ps

NoneLonger-trans :
    (p q : String) (qs : List String)
    → text_length q ≤ text_length p
    → NoneLonger q qs
    → NoneLonger p qs
NoneLonger-trans p q [] h k = tt
NoneLonger-trans p q (r ∷ qs) h (l, k) = (omega arith, NoneLonger-trans p q qs h k)

NoneLonger-insert :
    (p q : String) (qs : List String)
    → text_length q ≤ text_length p
    → NoneLonger p qs
    → NoneLonger p (insert_by_length q qs)
unfolding insert_by_length
NoneLonger-insert p q [] h k = (h, tt)
NoneLonger-insert p q (r ∷ qs) h (l, k) = ground (arith, NoneLonger-insert p q qs h k)

insert-IsDescending :
    (p : String) (qs : List String) → IsDescending qs → IsDescending (insert_by_length p qs)
unfolding insert_by_length
insert-IsDescending p [] h = (tt, tt)
insert-IsDescending p (q ∷ qs) (k, h) =
    ground (arith, NoneLonger-trans p q qs, NoneLonger-insert q p qs, insert-IsDescending p qs h)

longest_first-IsDescending : (ps : List String) → IsDescending (longest_first ps)
unfolding longest_first
longest_first-IsDescending [] = tt
longest_first-IsDescending (p ∷ ps) =
    insert-IsDescending p (longest_first ps) (longest_first-IsDescending ps)

contains-insert_by_length :
    (p q : String) (qs : List String)
    → contains (insert_by_length p qs) q ≡ (q == p || contains qs q)
unfolding insert_by_length
contains-insert_by_length p q [] = refl
contains-insert_by_length p q (r ∷ qs) = ground (arith, contains-insert_by_length p q qs)

contains-longest_first :
    (ps : List String) (q : String) → contains (longest_first ps) q ≡ contains ps q
unfolding longest_first
contains-longest_first [] q = refl
contains-longest_first (p ∷ ps) q =
    ground (arith, contains-insert_by_length p q (longest_first ps), contains-longest_first ps q)

NoneLonger-contains :
    (p q : String) (qs : List String)
    → NoneLonger p qs
    → contains qs q ≡ true
    → text_length q ≤ text_length p
NoneLonger-contains p q [] k e = cc
NoneLonger-contains p q (r ∷ qs) (l, k) e = ground (arith, eq_iff q r, NoneLonger-contains p q qs k)

IsKeyed : Dict Rule → List String → Type 0
IsKeyed rules ps = (p : String) → contains ps p ≡ true → lookup p rules ≢ none

IsKeyed-tail :
    (rules : Dict Rule) (p : String) (ps : List String) → IsKeyed rules (p ∷ ps) → IsKeyed rules ps
unfolding IsKeyed
IsKeyed-tail rules p ps h q e = h q (ground arith)

-- The pattern that `first_match` stops at.
record IsFirst (rules : Dict Rule) (uri : String) (ps : List String) (rule : Rule) : Type 0 where
  pattern : String
  matched : fnmatchcase uri pattern ≡ true
  stored : lookup pattern rules ≡ some rule
  longest :
      (q : String)
      → contains ps q ≡ true
      → fnmatchcase uri q ≡ true
      → text_length q ≤ text_length pattern

first_match-IsFirst :
    (rules : Dict Rule) (uri : String) (ps : List String) (rule : Rule)
    → IsDescending ps
    → first_match rules uri ps ≡ some rule
    → IsFirst rules uri ps rule
unfolding first_match
first_match-IsFirst rules uri [] rule d e = cc
first_match-IsFirst rules uri (p ∷ ps) rule (k, d) e = elim (Bool-cases (fnmatchcase uri p)) [
  | inl here ↦ record {
    pattern = p;
    matched = here;
    stored = ground arith;
    longest = λ q c m. ground (arith, eq_iff q p, NoneLonger-contains p q ps k);
  }
  | inr other ↦
      let rest = first_match-IsFirst rules uri ps rule d (ground arith) in
      record {
        pattern = rest.pattern;
        matched = rest.matched;
        stored = rest.stored;
        longest = λ q c m. rest.longest q (ground (arith, eq_iff q p)) m;
      }
]

first_match-none :
    (rules : Dict Rule) (uri : String) (ps : List String) (q : String)
    → IsKeyed rules ps
    → first_match rules uri ps ≡ none
    → contains ps q ≡ true
    → fnmatchcase uri q ≡ false
unfolding first_match IsKeyed
first_match-none rules uri [] q h e c = cc
first_match-none rules uri (p ∷ ps) q h e c = ground (
  arith,
  eq_iff q p,
  eq_iff p p,
  h p,
  first_match-none rules uri ps q (IsKeyed-tail rules p ps h),
)

pub contains-keys :
    (rules : Dict Rule) (p : String) → (contains (keys rules) p ≡ true) ↔ (lookup p rules ≢ none)
unfolding lookup
contains-keys [] p = (λ e. cc, λ h. absurd (h refl))
contains-keys ((k, r) ∷ rules) p = ground (arith, eq_iff p k, eq_iff k p, contains-keys rules p)

lookup-IsSound :
    (declared : List String) (rules : Dict Rule) (p : String) (rule : Rule)
    → AreSound declared rules
    → lookup p rules ≡ some rule
    → IsSound declared p rule
unfolding lookup
lookup-IsSound declared [] p rule h e = cc
lookup-IsSound declared ((k, r) ∷ rules) p rule (s, fresh, h) e =
    ground (arith, eq_iff k p, lookup-IsSound declared rules p rule h)

-- A URI that a pattern of the shell matches, in the words of `Matches`.
abbrev pub Fits : (uri pattern : String) → Type 0
Fits uri pattern = Matches (codes pattern) (codes uri)

-- A rule whose pattern matches, and no pattern that matches is longer.
pub record IsLongestMatch (policy : Policy) (uri : String) (rule : Rule) : Type 0 where
  pub matched : Fits uri rule.pattern
  pub stored : lookup rule.pattern policy.resources ≡ some rule
  pub longest :
      (pattern : String)
      → lookup pattern policy.resources ≢ none
      → Fits uri pattern
      → text_length pattern ≤ text_length rule.pattern

-- In a well-formed policy the rule selected for a URI is one whose pattern matches it and is as
-- long as any that does, and none is selected only if no pattern matches. A text matches a
-- pattern if its characters are taken, from left to right, each by the character, the question
-- mark or the set that stands for it, and any run of them by a star.
pub resource_rule_longest :
    (policy : Policy) (uri : String)
    → IsWellFormed policy
    → ((rule : Rule) → resource_rule policy uri ≡ some rule → IsLongestMatch policy uri rule)
      × (resource_rule policy uri ≡ none
          → (pattern : String) → lookup pattern policy.resources ≢ none
          → ¬ Fits uri pattern)
unfolding resource_rule
resource_rule_longest policy uri h =
    let patterns = keys policy.resources in
    let listed : (p : String)
        → lookup p policy.resources ≢ none
        → contains (longest_first patterns) p ≡ true =
      λ p e. rw contains-longest_first ((contains-keys policy.resources p).1 e) in
    (
      λ rule e.
          let first =
            first_match-IsFirst policy.resources uri (longest_first patterns) rule
              (longest_first-IsDescending patterns) e in
          let named =
            (lookup-IsSound policy.declared_roles policy.resources first.pattern rule h.resources
              first.stored).named in
          record {
            matched = (fnmatchcase_iff uri rule.pattern).0 (rw named first.matched);
            stored = subst (λ p. lookup p policy.resources ≡ some rule) (sym named) first.stored;
            longest = λ p stored m.
                rw named (first.longest p (listed p stored) ((fnmatchcase_iff uri p).1 m));
          },
      λ e p stored m.
          let fails =
            first_match-none policy.resources uri (longest_first patterns) p
              (unfold IsKeyed in
                λ q c. (contains-keys policy.resources q).0 (rw contains-longest_first at c))
              e (listed p stored) in
          let holds = (fnmatchcase_iff uri p).1 m in cc,
    )
