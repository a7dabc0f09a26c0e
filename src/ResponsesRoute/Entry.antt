-- ===== src/ResponsesRoute/Entry.antt =====
-- app/proxy/responses.py: `responses_passthrough`. `post` is the call upstream: the URL, the headers,
-- the body and whether it streams. `asked_for` is the name that the database compares where the model
-- is no text.
use inference_proxy.Prelude.{
  ℕ, String, Bool, false, not, ◌||◌, Option, none, some, List, ◌==◌, if◌then◌else◌, Map,
}
use inference_proxy.Prelude.Int.{ℤ}
use inference_proxy.Json.{Value, bool, str, obj, Fields, get, has, put, keep_keys, truthy}
use inference_proxy.Auth.{Cache, validate_api_key, resolve_principal, resolve_requester_role}
use inference_proxy.Credentials.World.{World, has_text}
use inference_proxy.Credentials.Files.{Reply}
use inference_proxy.Deployments.Registry.{openai_responses, Model}
use inference_proxy.Deployments.Target.{DeploymentTarget, upstream_url, build_upstream_headers}
use inference_proxy.Deployments.Resolve
use inference_proxy.Deployments.Resolve.{
  openai, Outcome, found, refused, raised, resolve_deployment, reject_wrong_protocol,
}
use inference_proxy.Upstream.Strip.{strip_unsupported_input_fields, sanitize_stream_options}
use inference_proxy.Completions.Answers.{raised_error, not_served, crashed, Principal}
use inference_proxy.Completions.Entry.{Posted}
use inference_proxy.ResponsesRoute.Handlers.{
  answer, Handled, handle_streaming, handle_non_streaming,
}

pub record Request : Type 0 where
  pub authorization : Option String
  pub api_key : Option String
  pub harness : Option String
  pub body : Option Value

-- what the route knows and calls
pub record Setting : Type 0 where
  pub sha256 : String → String
  pub claims : String → Fields
  pub grant : String → Reply
  pub stamp : ℤ → String
  pub decimal : ℕ → String
  pub loads : String → Option Value
  pub asked_for : Value → Option String
  pub post : String → Map String → Fields → Bool → Posted
  pub cache : Cache
  pub rows : List Model

-- `setdefault("store", False)`
unfoldable pub with_store : Fields → Fields
unfolding has put
with_store body = if has "store" body then body else put "store" (bool false) body

-- the body that goes upstream; `none` is an exception
unfoldable pub azure_body : Fields → Option Fields
unfolding with_store keep_keys strip_unsupported_input_fields sanitize_stream_options
azure_body body =
    elim (sanitize_stream_options
      (strip_unsupported_input_fields (keep_keys (λ k. not (k == "type")) (with_store body))).0) [
        | none ↦ none
        | some (cleaned, dropped) ↦ some cleaned
      ]

module _ (s : Setting) where
  abbrev handled :
      Principal → DeploymentTarget → Bool → Option Fields → Option (Map String) → Handled
  unfolding upstream_url handle_streaming handle_non_streaming
  handled principal target streams (some body) (some headers) =
      let post = λ (sent : Fields). s.post (upstream_url target) headers sent streams in
      if streams
      then (handle_streaming s.loads s.decimal post principal body).handled
      else handle_non_streaming s.loads s.decimal post principal body
  handled principal target streams body headers = (answer crashed, none)

  abbrev guarded : Principal → DeploymentTarget → Fields → Option Resolve.Refusal → Handled
  unfolding handled azure_body build_upstream_headers get
  guarded principal target body (some r) = (answer (not_served r), none)
  guarded principal target body none =
      handled principal target (truthy (get "stream" body)) (azure_body body)
        (build_upstream_headers s.claims target)

  abbrev to_target : Principal → Fields → Outcome DeploymentTarget → Handled
  unfolding guarded reject_wrong_protocol
  to_target principal body (refused r) = (answer (not_served r), none)
  to_target principal body raised = (answer crashed, none)
  to_target principal body (found target) =
      guarded principal target body (reject_wrong_protocol openai target openai_responses)

  abbrev pub model_name : Value → Option String
  model_name (str name) = some name
  model_name v = if truthy v then s.asked_for v else none

  abbrev pub is_admin : Option String → Bool
  is_admin none = false
  is_admin (some role) = role == "admin"

  abbrev admitted : Request → Option Value → World → Handled × World
  unfolding to_target resolve_deployment resolve_principal resolve_requester_role get
  admitted request none w = ((answer (raised_error 400 "Invalid JSON in request body"), none), w)
  admitted request (some (obj body)) w =
      let (o, w') =
        resolve_deployment s.claims s.grant s.stamp s.rows (model_name (get "model" body)) openai
          (is_admin (resolve_requester_role s.sha256 s.cache request.authorization request.api_key))
          (some openai_responses) request.harness w in
      (
        to_target (resolve_principal s.sha256 s.cache request.authorization request.api_key) body o,
        w',
      )
  admitted request (some v) w = ((answer crashed, none), w)

  abbrev pub refused_status : Request → ℕ
  refused_status request =
      if has_text request.authorization || has_text request.api_key then 403 else 401

  unfoldable pub responses_passthrough : Request → World → Handled × World
  unfolding admitted validate_api_key
  responses_passthrough request w =
      if validate_api_key s.sha256 s.cache request.authorization request.api_key
      then admitted request request.body w
      else ((answer (raised_error (refused_status request) "Invalid API key"), none), w)
