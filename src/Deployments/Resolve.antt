-- ===== src/Deployments/Resolve.antt =====
-- app/deployments.py: `resolve_deployment` and `reject_wrong_protocol`. What a refusal says is kept
-- as a constructor with the names in it. `claims`, `grant` and `stamp` are those of Credentials.
use inference_proxy.Prelude.{
  ℕ, String, Bool, true, false, ◌&&◌, ◌||◌, not, Option, none, some, List, ◌==◌, if◌then◌else◌,
  first, ltb,
}
use inference_proxy.Prelude.Int.{ℤ}
use inference_proxy.Json.{Fields}
use inference_proxy.Credentials.World.{
  World, Credential, CredentialError, crash, Result, ok, err, has_text,
}
use inference_proxy.Credentials.Files.{Reply}
use inference_proxy.Credentials.Resolve.{text_or_empty, resolve_secret}
use inference_proxy.Deployments.Registry.{
  Wire, anthropic_messages, openai_responses, chat_completions, systemone, Provider, Model,
  visible_to,
}
use inference_proxy.Deployments.Target.{
  DeploymentTarget, is_anthropic_messages, is_openai_responses, is_native_chat_completions,
}
use inference_proxy.Deployments.Wires.{judged_harness, resolve_target_uri}

pub data ErrorKind : Type 0 where
  openai anthropic : ErrorKind

pub data Message : Type 0 where
  missing_model : Message
  not_registered no_upstream unknown_harness : String → Message
  not_messages not_responses not_chat : String → Message
  unavailable : String → CredentialError → Message

pub record Refusal : Type 0 where
  pub kind : ErrorKind
  pub status : ℕ
  pub error_type : String
  pub message : Message

pub data Outcome (A : Type 0) : Type 0 where
  found : A → Outcome A
  refused : Refusal → Outcome A
  raised : Outcome A

-- `_raise`
unfoldable pub refuse : {A : Type 0} → ErrorKind → ℕ → Message → Outcome A
refuse kind status message = refused (record {
  kind = kind;
  status = status;
  error_type = if ltb status 500 then "invalid_request_error" else "api_error";
  message = message;
})

abbrev pub is_row : String → Model → Bool
is_row name row = (row.deployment_name == name) && row.enabled

abbrev enabled_provider : Option Provider → Option Provider
enabled_provider none = none
enabled_provider (some p) = if p.enabled then some p else none

abbrev provider_credential : Option Provider → Option Credential
provider_credential none = none
provider_credential (some p) = p.credential

abbrev own_or_providers : Option Credential → Option Provider → Option Credential
own_or_providers none p = provider_credential p
own_or_providers (some c) p = some c

abbrev pub credential_for : Model → Option Credential
credential_for row = own_or_providers row.credential (enabled_provider row.provider)

abbrev provider_version : Option Provider → Option String
provider_version none = none
provider_version (some p) = p.api_version

abbrev kind_of : Option Credential → String
kind_of none = "static"
kind_of (some c) = c.kind

abbrev pub target_for : Model → String → String → DeploymentTarget
target_for row uri secret = record {
  name = row.deployment_name;
  target_uri = uri;
  api_key = secret;
  api_version =
      if has_text row.api_version
      then row.api_version
      else provider_version (enabled_provider row.provider);
  auth_scheme = row.auth_scheme;
  credential_kind = kind_of (credential_for row);
}

abbrev pub hidden_from : Option String → Model → Bool
hidden_from none row = false
hidden_from (some harness) row = not (visible_to row harness)

module _ (claims : String → Fields) (grant : String → Reply) (stamp : ℤ → String) where
  abbrev pub with_secret :
      ErrorKind → String → Model → String → Result String → Outcome DeploymentTarget
  with_secret kind name row uri (ok secret) = found (target_for row uri secret)
  with_secret kind name row uri (err crash) = raised
  with_secret kind name row uri (err e) = refuse kind 503 (unavailable name e)

  abbrev pub secret_or_error :
      ErrorKind → String → Model → String → World → Outcome DeploymentTarget × World
  secret_or_error kind name row uri w =
      let (r, w') = resolve_secret claims grant stamp (credential_for row) w in
      (with_secret kind name row uri r, w')

  abbrev pub serve_row :
      ErrorKind
      → Bool
      → Option Wire
      → Option String
      → String
      → Model
      → World
      → Outcome DeploymentTarget × World
  serve_row kind is_admin wire declared name row w =
      if row.admin_only && not is_admin
      then (refuse kind 404 (not_registered name), w)
      else if hidden_from (judged_harness wire declared) row
      then (refuse kind 404 (not_registered name), w)
      else if not (has_text (resolve_target_uri row wire))
      then (refuse kind 503 (no_upstream name), w)
      else secret_or_error kind name row (text_or_empty (resolve_target_uri row wire)) w

  abbrev serve_found :
      ErrorKind
      → Bool
      → Option Wire
      → Option String
      → String
      → Option Model
      → World
      → Outcome DeploymentTarget × World
  serve_found kind is_admin wire declared name none w = (refuse kind 404 (not_registered name), w)
  serve_found kind is_admin wire declared name (some row) w =
      serve_row kind is_admin wire declared name row w

  -- `rows` is the models table, in which the query finds the enabled row of that name.
  unfoldable pub resolve_deployment :
      List Model
      → Option String
      → ErrorKind
      → Bool
      → Option Wire
      → Option String
      → World
      → Outcome DeploymentTarget × World
  unfolding refuse visible_to judged_harness resolve_target_uri resolve_secret
  resolve_deployment rows name kind is_admin wire declared w =
      if has_text name
      then serve_found kind is_admin wire declared (text_or_empty name)
          (first (is_row (text_or_empty name)) rows) w
      else (refuse kind 400 missing_model, w)

abbrev pub check : ErrorKind → Bool → Message → Option Refusal
check kind true message = none
check kind false message =
    some (record {
      kind = kind;
      status = 400;
      error_type = "invalid_request_error";
      message = message;
    })

-- `reject_wrong_protocol`, by the wire of the route; the decision wire has no such check there
unfoldable pub reject_wrong_protocol : ErrorKind → DeploymentTarget → Wire → Option Refusal
unfolding is_anthropic_messages is_openai_responses is_native_chat_completions
reject_wrong_protocol kind target anthropic_messages =
    check kind (is_anthropic_messages target.target_uri) (not_messages target.name)
reject_wrong_protocol kind target openai_responses =
    check kind (is_openai_responses target.target_uri) (not_responses target.name)
reject_wrong_protocol kind target chat_completions =
    check kind
      (is_openai_responses target.target_uri
        || is_native_chat_completions target.target_uri
        || is_anthropic_messages target.target_uri)
      (not_chat target.name)
reject_wrong_protocol kind target systemone = none
