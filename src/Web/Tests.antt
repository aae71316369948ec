-- ===== src/Web/Tests.antt =====
-- Witnesses: a request with a token, and the stop of the only component.
use peer_deploy.Prelude.{
  String, ◌⊎◌, ◌+◌, refl, true, false, none, some, [], ◌∷◌, str_eq, if◌then◌else◌,
}
use peer_deploy.Prelude.Dict
use peer_deploy.Prelude.Dict.{Dict}
use peer_deploy.Prelude.Outcome.{ok}
use peer_deploy.Metrics.{new_metrics}
use peer_deploy.Supervisor.{new_supervisor, set_desired}
use peer_deploy.Deploy.Crypto.{Crypto}
use peer_deploy.Deploy.State.{empty_manifest, trim, trim_start, trim_end, is_whitespace}
use peer_deploy.Deploy.Push.{Node}
use peer_deploy.Deploy.Samples.{crypto, dir, web_spec}
use peer_deploy.Web.Sessions.{
  Session, Request, auth_middleware, authorize_bearer_header, bearer_token, without_scheme,
  validate_bearer, retain_live, is_expired, admit,
}
use peer_deploy.Web.Sessions.Guard.{IsOpen, Presents, auth_middleware-Admits}
use peer_deploy.Web.Sessions.Retained.{Admits}

abbrev sessions : Dict Session
sessions =
    ("t0", record { id = "t0"; last_active = 0; authenticated = true })
    ∷ ("t1", record { id = "t1"; last_active = 2000000000000; authenticated = true })
    ∷ []

abbrev request : Request
request = record {
  options = false;
  path = "/api/jobs";
  auth_header = some (some "Bearer t1 ");
  query = none;
}

auth_middleware-Admits_example :
    IsOpen request
    ⊎ ((token : String) × Presents request token × Admits (λ i. 2000000000000 + i) sessions token)
unfolding auth_middleware authorize_bearer_header bearer_token without_scheme validate_bearer
    retain_live is_expired admit trim trim_start trim_end is_whitespace Dict.get
auth_middleware-Admits_example =
    auth_middleware-Admits (λ i. 2000000000000 + i) request sessions (refl, (refl, tt)) refl

-- Of the manifests, the empty one is written, as the empty text; any other text is that of one component.
abbrev one_component : Crypto
one_component = record crypto {
  parse_manifest = λ text.
      if str_eq text ""
      then ok empty_manifest
      else ok (record { components = ("web", web_spec) ∷ [] });
  print_manifest = λ manifest. elim manifest.components [ [] ↦ some "" | c ∷ rest ↦ none ];
}

abbrev serving : Node
serving = record {
  dir = record dir { desired_manifest = some "[components.web]" };
  supervisor =
      set_desired
        (("web", record { name = "web"; path = "web-0123456789abcdef.wasm"; spec = web_spec }) ∷ [])
        (new_supervisor new_metrics);
}
