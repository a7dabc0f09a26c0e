-- ===== src/Messages/Entry.antt =====
-- app/proxy/anthropic.py: `anthropic_messages`, from the caller's headers and body to the call
-- upstream. `post` is that call: the URL, the headers, the body, and whether it streams.
-- `asked_for` is the name that the database compares where the model is no text.
use inference_proxy.Prelude.{
  ℕ, String, Bool, false, Option, none, some, List, ◌==◌, if◌then◌else◌, Map,
}
use inference_proxy.Prelude.Int.{ℤ}
use inference_proxy.Json.{Value, str, obj, Fields, get, truthy}
use inference_proxy.Auth.{Cache, validate_api_key, resolve_principal, resolve_requester_role}
use inference_proxy.Credentials.World.{World}
use inference_proxy.Credentials.Files.{Reply}
use inference_proxy.Deployments.Registry.{anthropic_messages, Model}
use inference_proxy.Deployments.Target.{DeploymentTarget, upstream_url}
use inference_proxy.Deployments.Resolve.{
  anthropic, Outcome, found, refused, raised, Refusal, reject_wrong_protocol,
}
use inference_proxy.Messages.Bytes.{Bytes}
use inference_proxy.Messages.Alias.{resolve_anthropic_deployment}
use inference_proxy.Messages.Headers.{extract_api_key, forward_headers}
use inference_proxy.Messages.Body.{upstream_body}
use inference_proxy.Messages.Route.{
  Posted, Upstream, not_served, raised_error, crashed, Principal, Answer, forward,
}

pub record Request : Type 0 where
  pub authorization : Option String
  pub x_api_key : Option String
  pub headers : List (String × String)
  pub body : Option Value

-- what the route knows and calls
pub record Setting : Type 0 where
  pub sha256 : String → String
  pub claims : String → Fields
  pub grant : String → Reply
  pub stamp : ℤ → String
  pub decimal : ℕ → String
  pub loads : Bytes → Option Value
  pub float_sum : Value → Value → Value
  pub error_event : Bytes
  pub asked_for : Value → Option String
  pub post : String → Map String → Fields → Bool → Posted Upstream
  pub cache : Cache
  pub rows : List Model

module _ (s : Setting) where
  abbrev model_name : Value → Option String
  model_name (str name) = some name
  model_name v = if truthy v then s.asked_for v else none

  abbrev sent_on : Principal → DeploymentTarget → Fields → Option (Map String) → Answer
  unfolding upstream_url forward
  sent_on principal target body none = (crashed, none)
  sent_on principal target body (some headers) =
      forward s.decimal s.loads s.float_sum s.error_event principal (truthy (get "stream" body))
        (s.post (upstream_url target) headers body (truthy (get "stream" body)))

  abbrev prepared : Principal → Request → DeploymentTarget → Bool → Fields → Option Refusal → Answer
  unfolding sent_on upstream_body forward_headers
  prepared principal request target rewrite body (some r) = (not_served r, none)
  prepared principal request target rewrite body none =
      sent_on principal target (upstream_body target rewrite body)
        (forward_headers s.claims request.headers target)

  abbrev to_target : Principal → Request → Fields → Outcome (DeploymentTarget × Bool) → Answer
  unfolding prepared reject_wrong_protocol
  to_target principal request body (refused r) = (not_served r, none)
  to_target principal request body raised = (crashed, none)
  to_target principal request body (found (target, rewrite)) =
      prepared principal request target rewrite body
        (reject_wrong_protocol anthropic target anthropic_messages)

  abbrev is_admin : Option String → Bool
  is_admin none = false
  is_admin (some role) = role == "admin"

  abbrev admitted : Option String → Request → Option Value → World → Answer × World
  unfolding to_target resolve_anthropic_deployment resolve_principal resolve_requester_role get
  admitted auth request none w = ((raised_error 400 "Invalid JSON in request body", none), w)
  admitted auth request (some (obj body)) w =
      let (o, w') =
        resolve_anthropic_deployment s.claims s.grant s.stamp s.rows
          (is_admin (resolve_requester_role s.sha256 s.cache auth none))
          (model_name (get "model" body)) w in
      (to_target (resolve_principal s.sha256 s.cache auth none) request body o, w')
  admitted auth request (some v) w = ((crashed, none), w)

  unfoldable pub answer_messages : Request → World → Answer × World
  unfolding admitted extract_api_key validate_api_key
  answer_messages request w =
      let auth = extract_api_key request.authorization request.x_api_key in
      if validate_api_key s.sha256 s.cache auth none
      then admitted auth request request.body w
      else ((raised_error 401 "Invalid API key", none), w)
