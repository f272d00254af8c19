-- ===== src/ServiceNow/Live/Active.antt =====
-- Searches for closed incidents, on an instance and on the mock.
use governed_mcp_server.Common.{
  ◌≡◌, refl, ap, ◌∙◌, ℕ, ◌≤◌, ◌<◌, Bool, true, false, none, some, List, [], ◌∷◌, keep, any, length,
  length-keep-le, arith, ◌==◌, ◌||◌, Bool-cases, inl, inr,
}
use governed_mcp_server.Common.Text.{join}
use governed_mcp_server.Common.Dict.{lookup}
use governed_mcp_server.Common.Value.{pos}
use governed_mcp_server.ServiceNow.Model.{Incident}
use governed_mcp_server.ServiceNow.Mock
use governed_mcp_server.ServiceNow.Mock.{MockServiceNow, selects}
use governed_mcp_server.ServiceNow.Mock.Search.{take_all}
use governed_mcp_server.ServiceNow.Live.{LiveServiceNow, Client, search_incidents}
use governed_mcp_server.ServiceNow.Live.ReadBack.{search_request}

-- resolved or closed
abbrev pub is_closed : Incident → Bool
is_closed incident = incident.state == "6" || incident.state == "7"

keep_all : (xs : List Incident) → keep (selects none false) xs ≡ xs
keep_all [] = refl
keep_all (x ∷ xs) = ap (λ r. x ∷ r) (keep_all xs)

fewer_open :
    (xs : List Incident)
    → any is_closed xs ≡ true
    → length (keep (selects none true) xs) < length xs
fewer_open [] h = cc
fewer_open (x ∷ xs) h = elim (Bool-cases (is_closed x)) [
  | inl closed ↦ rw closed (let le = length-keep-le (selects none true) xs in omega (arith, le))
  | inr unresolved ↦
      rw unresolved (let less = fewer_open xs (ground (arith, h)) in omega (arith, less))
]

module _ {S : Type 0} (client : Client S) (live : LiveServiceNow) where
  -- Without a configuration item, a search of an instance asks it for `active=true` whether open
  -- incidents only are wanted or all, and so has the same answer and effect. On the mock, with a
  -- limit that is no less than the number of its incidents, the search for all answers every one of
  -- them, and the search for open ones fewer, if there is a resolved or closed one.
  pub closed_differ :
      (n : ℕ) (s : S) (store : MockServiceNow)
      → length store.incidents ≤ n
      → any is_closed store.incidents ≡ true
      → (search_incidents client live none false (pos n) s
          ≡ search_incidents client live none true (pos n) s)
        × (lookup "sysparm_query" (search_request client live none false (pos n)).params
            ≡ some "active=true")
        × (Mock.search_incidents none false (pos n) store ≡ store.incidents)
        × (length (Mock.search_incidents none true (pos n) store)
            < length (Mock.search_incidents none false (pos n) store))
  unfolding search_incidents join Mock.search_incidents lookup
  closed_differ n s store enough closed =
      let few = length-keep-le (selects none true) store.incidents in
      let all_kept = keep_all store.incidents in
      let open_ones : Mock.search_incidents none true (pos n) store
          ≡ keep (selects none true) store.incidents =
        take_all n (keep (selects none true) store.incidents) (omega (arith, few, enough)) in
      let every : Mock.search_incidents none false (pos n) store ≡ store.incidents =
        take_all n (keep (selects none false) store.incidents)
          (omega (arith, ap length all_kept, enough))
        ∙ all_kept in
      let less = fewer_open store.incidents closed in
      (refl, refl, every, omega (arith, ap length open_ones, ap length every, less))
