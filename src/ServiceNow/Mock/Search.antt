-- ===== src/ServiceNow/Mock/Search.antt =====
-- What a search of the store finds, before and after an incident is created.
use governed_mcp_server.Common.{
  ◌≡◌, ◌≢◌, ◌∙◌, zero, suc, refl, sym, ap, ℕ, ◌+◌, ◌≤◌, ◌<◌, String, Bool, true, none, some, List,
  [], ◌∷◌, ◌++◌, keep, length, take, arith, length-keep-le, length-append, ◌==◌, eq_refl,
  if◌then◌else◌, Option-cases, Bool-cases, inl, inr,
}
use mathlib.Core.List.{append-nil}
use governed_mcp_server.Common.Result.{ok, err}
use governed_mcp_server.Common.Dict.{lookup}
use governed_mcp_server.Common.Value.{pos}
use governed_mcp_server.ServiceNow.Model.{Incident, no_configuration_item}
use governed_mcp_server.ServiceNow.Mock.{
  MockServiceNow, selects, search_incidents, create_incident, new_incident, find_configuration_item,
}

module _ {ℓ} {A : Type ℓ} where
  keep-append : (p : A → Bool) (xs ys : List A) → keep p (xs ++ ys) ≡ keep p xs ++ keep p ys
  keep-append p [] ys = refl
  keep-append p (x ∷ xs) ys = ground (arith, keep-append p xs ys)

  pub take_all : (n : ℕ) (xs : List A) → length xs ≤ n → take n xs ≡ xs
  take_all zero [] h = refl
  take_all zero (x ∷ xs) h = absurd (omega arith)
  take_all (suc n) [] h = refl
  take_all (suc n) (x ∷ xs) h = ap (λ r. x ∷ r) (take_all n xs (omega arith))

-- the open incidents of one configuration item, as many as there are
abbrev pub open_for : String → MockServiceNow → List Incident
open_for name store = keep (selects (some name) true) store.incidents

-- A limit that is no less than the number of incidents cuts nothing.
search-open_for :
    (name : String) (n : ℕ) (store : MockServiceNow)
    → length store.incidents ≤ n
    → search_incidents (some name) true (pos n) store ≡ open_for name store
unfolding search_incidents
search-open_for name n store h =
    take_all n (open_for name store)
      (omega (arith, length-keep-le (selects (some name) true) store.incidents))

module _ (now short_description configuration_item urgency description : String)
    (store : MockServiceNow) where
  abbrev created : Incident
  created = new_incident now short_description configuration_item urgency (store.counter + 1)

  abbrev pub grown : MockServiceNow
  grown = record store { incidents = store.incidents ++ created ∷ []; counter = store.counter + 1 }

  -- Creating an incident succeeds exactly when the store has its configuration item; if not, it
  -- raises and leaves the store as it was.
  pub create_incident_lem :
      let result =
        create_incident now short_description configuration_item urgency description store in
      ((find_configuration_item configuration_item store ≢ none) → result ≡ (ok created, grown))
      × (find_configuration_item configuration_item store ≡ none
          → result ≡ (err (no_configuration_item configuration_item), store))
  unfolding create_incident find_configuration_item
  create_incident_lem = elim (Option-cases (lookup configuration_item store.configuration_items)) [
    | inl missing ↦ (λ h. absurd (h missing), λ _. rw missing)
    | inr (item, found) ↦ (λ _. rw found, λ e. cc)
  ]

  open_for-grown :
      (name : String)
      → open_for name grown ≡ (
          if configuration_item == name
          then open_for name store ++ created ∷ []
          else open_for name store)
  open_for-grown name =
      keep-append (selects (some name) true) store.incidents (created ∷ [])
      ∙ elim (Bool-cases (configuration_item == name)) [
        | inl same ↦ ground arith
        | inr other ↦ ground (arith, append-nil (open_for name store))
      ]

-- the first of a list, or else another
abbrev pub first_or : {A : Type 0} → A → List A → A
first_or y [] = y
first_or y (x ∷ xs) = x

pub take-first_or :
    {A : Type 0} (n : ℕ) (xs : List A) (y : A)
    → (rest : List A) × (take (suc n) (xs ++ y ∷ []) ≡ first_or y xs ∷ rest)
take-first_or n [] y = (take n [], refl)
take-first_or n (x ∷ xs) y = (take n (xs ++ y ∷ []), refl)

-- After an incident is created for an item, a search for this item answers the first, up to the
-- limit, of the open ones that there were and then the new one.
pub search-grown :
    (now short_description configuration_item urgency description : String)
    → (store : MockServiceNow) → (n : ℕ)
    → search_incidents
        (some configuration_item)
        true
        (pos n)
        (grown now short_description configuration_item urgency description store)
      ≡ take n (
          open_for configuration_item store
          ++ new_incident now short_description configuration_item urgency (store.counter + 1) ∷ [])
unfolding search_incidents
search-grown now short item urgency description store n =
    let incident = new_incident now short item urgency (store.counter + 1) in
    ap (take n) (
      open_for-grown now short item urgency description store item
      ∙ ap (λ b. if b then open_for item store ++ incident ∷ [] else open_for item store)
          (eq_refl item))

-- Creating an incident for a configuration item of the store and then searching it round trips:
-- with a limit that the incidents there are do not reach, an open search for that item finds
-- what it found before and then the new incident, and one for any other item what it found before.
pub search-create_incident :
    (now short_description configuration_item urgency description : String)
    → (store : MockServiceNow) → (name : String) (n : ℕ)
    → (find_configuration_item configuration_item store ≢ none)
    → length store.incidents < n
    → let (result, after) =
        create_incident now short_description configuration_item urgency description store in
      let before = search_incidents (some name) true (pos n) store in
      let incident =
        new_incident now short_description configuration_item urgency (store.counter + 1) in
      (result ≡ ok incident)
      × (search_incidents (some name) true (pos n) after
          ≡ (if configuration_item == name then before ++ incident ∷ [] else before))
search-create_incident now short item urgency description store name n known h =
    let result = (create_incident_lem now short item urgency description store).0 known in
    let after = grown now short item urgency description store in
    (
      ap (λ r. r.0) result,
      ap (λ r. search_incidents (some name) true (pos n) r.1) result
          ∙ search-open_for name n after (
              omega (
                arith,
                length-append store.incidents
                    (new_incident now short item urgency (store.counter + 1) ∷ []),
              ))
          ∙ open_for-grown now short item urgency description store name
          ∙ ap
              (λ found.
                if item == name
                then found ++ new_incident now short item urgency (store.counter + 1) ∷ []
                else found)
              (sym (search-open_for name n store (omega arith))),
    )
