-- ===== src/ServiceNow/Live/Requests.antt =====
-- What a reply of the instance makes of a request.
use governed_mcp_server.Common.{◌≡◌, ◌↔◌, refl, ℕ, ◌<◌, String, Option, none, some, arith}
use governed_mcp_server.Common.Text.{◌+++◌}
use governed_mcp_server.Common.Dict.{Dict}
use governed_mcp_server.Common.Result.{ok}
use governed_mcp_server.Common.Value.{Value, Entries, mapping, get_or, list, nil}
use governed_mcp_server.ServiceNow.Live.{
  LiveServiceNow, Client, Method, Reply, http_error, response, read_reply, request, base_url,
}

-- A reply that has a status under 400 and a JSON object for a body.
abbrev pub Carries : Reply → Value → Type 0
Carries reply result =
    (status : ℕ) × (body : Entries) × (reply ≡ response status (some (mapping body)))
    × (status < 400)
    × (get_or "result" (list nil) body ≡ result)

read_reply_iff :
    (table : String) (reply : Reply) (result : Value)
    → (read_reply table reply ≡ ok result) ↔ Carries reply result
read_reply_iff table (http_error exception) result = (λ h. cc, λ (status, body, e, _, _). cc)
read_reply_iff table (response status none) result = (λ h. ground arith, λ (n, body, e, _, _). cc)
read_reply_iff table (response status (some (mapping body))) result =
    (λ h. (status, body, refl, ground arith, ground arith), λ (n, b, e, lt, g). ground arith)
read_reply_iff table (response status (some body)) result =
    (λ h. ground arith, λ (n, b, e, _, _). cc)

module _ {S : Type 0} (client : Client S) (live : LiveServiceNow) where
  -- A request has a result exactly when the reply has a status under 400 and a JSON object for a
  -- body; it is then the field `result` of that body, or the empty list where there is none.
  pub request_iff :
      (method : Method) (table : String) (params : Dict String) (json : Option Entries)
      → (s : S) (result : Value)
      → let reply =
          (client
            (record {
              method = method;
              url = base_url live +++ ("/" +++ table);
              auth = (live.user, live.password);
              params = params;
              json = json;
            })
            s).0 in
        ((request client live method table params json s).0 ≡ ok result) ↔ Carries reply result
  unfolding request
  request_iff method table params json s result =
      read_reply_iff table
        (client
          (record {
            method = method;
            url = base_url live +++ ("/" +++ table);
            auth = (live.user, live.password);
            params = params;
            json = json;
          })
          s).0
        result
