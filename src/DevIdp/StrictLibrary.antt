-- ===== src/DevIdp/StrictLibrary.antt =====
-- A small JWT library that also looks at the token, the key and the algorithms.
use governed_mcp_server.Common.{
  ◌≡◌, refl, sym, ◌∙◌, subst, ℕ, ◌+◌, ◌≤◌, String, Bool, true, List, [], ◌∷◌, arith, ◌==◌, ◌&&◌,
  eq_iff, all, if◌then◌else◌, Bool-cases, inl, inr,
}
use governed_mcp_server.Common.Order.{contains}
use governed_mcp_server.Common.Result.{Result, ok, err}
use governed_mcp_server.Common.Value.{Entries}
use governed_mcp_server.Verifier.Tokens.{string_list}
use governed_mcp_server.Verifier.Checking.{Decoding, DecodeError, invalid_token}
use governed_mcp_server.Verifier.Genuine.{IsAhead, IsChecked}
use governed_mcp_server.DevIdp.Trust.{IsValid}
use governed_mcp_server.DevIdp.Accepted.{int-injective, pos-injective}
use governed_mcp_server.DevIdp.SmallLibrary.{idp, claims, passes, decode, IsValid-passes}

-- The library signs one token, with the provider's key, for RS256.
abbrev pub Signed : (token key algorithm : String) → Entries → Type 0
Signed token key algorithm found =
    (token ≡ idp.key_id) × (key ≡ idp.private_key) × (algorithm ≡ "RS256")

all-contains :
    (p : String → Bool) (xs : List String)
    → all p xs ≡ true
    → (x : String) → contains xs x ≡ true
    → p x ≡ true
all-contains p [] h x e = cc
all-contains p (y ∷ ys) h x e = elim (Bool-cases (y == x)) [
  | inl same ↦ subst (λ z. p z ≡ true) ((eq_iff y x).0 same) (ground arith)
  | inr other ↦ all-contains p ys (ground arith) x (ground (arith, eq_iff x y, eq_iff y x))
]

module _ (subject : String) (roles : List String) (issued_at clock : ℕ) where
  abbrev is_signed : Decoding String → Bool
  is_signed d = d.token == idp.key_id && (d.key == idp.private_key && contains d.algorithms "RS256")

  abbrev pub strict : Decoding String → Result DecodeError Entries
  strict d =
      if is_signed d
      then decode subject roles issued_at clock d
      else err (invalid_token "bad signature")

  IsValid-IsChecked :
      (d : Decoding String)
      → is_signed d ≡ true
      → IsValid clock d (claims subject roles issued_at clock)
      → IsChecked Signed clock d (claims subject roles issued_at clock)
  unfolding string_list
  IsValid-IsChecked d signed v = record {
    required = all-contains _ d.options.require v.required;
    signature = λ on. (
      "RS256",
      ground arith,
      (
        (eq_iff d.token idp.key_id).0 (ground arith),
        (eq_iff d.key idp.private_key).0 (ground arith),
        refl,
      ),
    );
    issuer = λ on. v.issuer;
    audience = λ on. rw v.audience (ground (arith, eq_iff d.audience d.audience));
    issued =
        λ on t e. subst (λ u. u ≤ clock + d.leeway) (pos-injective (sym v.issued.1 ∙ e)) v.issued.2;
    begun =
        λ on t e. subst (λ u. u ≤ clock + d.leeway) (pos-injective (sym v.begun.1 ∙ e)) v.begun.2;
    ahead = λ on t e.
        subst (λ u. IsAhead u clock d.leeway) (int-injective (sym v.ahead.1 ∙ e)) v.ahead.2;
  }

  pub strict-IsChecked :
      (d : Decoding String) (found : Entries) → strict d ≡ ok found → IsChecked Signed clock d found
  strict-IsChecked d found e =
      let signed : is_signed d ≡ true = ground arith in
      let passed : passes subject roles issued_at clock d ≡ true = ground arith in
      let same : claims subject roles issued_at clock ≡ found = ground arith in
      subst (IsChecked Signed clock d) same
        (IsValid-IsChecked d signed (IsValid-passes subject roles issued_at clock d passed))
