-- ===== src/Completions/Entry.antt =====
-- app/proxy/chat_completions.py: `_handle_completions`, which the three routes call. `post` is the
-- call upstream: the URL, the headers, what is sent and whether it streams. `asked_for` is the name
-- that the database compares where the model is no text.
use inference_proxy.Prelude.{
  ℕ, String, Bool, false, from_option, ◌||◌, Option, none, some, List, ◌==◌, if◌then◌else◌, Map,
}
use inference_proxy.Prelude.Int.{ℤ}
use inference_proxy.Json.{Value, bool, str, obj, Fields, end, field, get, lookup, put, truthy}
use inference_proxy.Auth.{Cache, validate_api_key, resolve_principal, resolve_requester_role}
use inference_proxy.Metering.{Scheduled, schedule}
use inference_proxy.Credentials.World.{World, has_text}
use inference_proxy.Credentials.Files.{Reply}
use inference_proxy.Deployments.Registry.{chat_completions, Model}
use inference_proxy.Deployments.Target.{
  DeploymentTarget, upstream_url, is_anthropic_messages, is_openai_responses, is_anthropic_oauth,
  build_upstream_headers,
}
use inference_proxy.Deployments.Resolve
use inference_proxy.Deployments.Resolve.{
  openai, Outcome, found, refused, raised, resolve_deployment, reject_wrong_protocol,
}
use inference_proxy.Anthropic.Request.Result.{Refusal, Result, ok, err, crash}
use inference_proxy.Anthropic.Request.Body.{Body, transform_to_anthropic_messages}
use inference_proxy.Messages.Headers.{anthropic_upstream_headers}
use inference_proxy.Responses.Body.{transform_to_responses_format}
use inference_proxy.Completions.Answers.{
  replied, raised_error, not_served, crashed, Principal, Answer, Upstream,
}
use inference_proxy.Completions.Native.{with_stream_options, post_native, stream_native}
use inference_proxy.Completions.Handlers.{
  post_via_responses, stream_via_responses, post_via_anthropic, stream_via_anthropic,
}

-- What goes upstream. The flag says that the identity prompt of app/proxy/anthropic.py is put in
-- front of the system prompt.
pub data Sent : Type 0 where
  to_messages : Body → Bool → Sent
  as_dict : Fields → Sent

pub data Posted : Type 0 where
  no_connection timed_out broke : Posted
  answered : Upstream → Posted

-- what the route knows and calls
pub record Setting : Type 0 where
  pub sha256 : String → String
  pub claims : String → Fields
  pub grant : String → Reply
  pub stamp : ℤ → String
  pub decimal : ℕ → String
  pub loads : String → Option Value
  pub dumps : Value → String
  pub render : Value → String
  pub mint : ℕ → ℕ → String
  pub fresh : String
  pub created : Value
  pub asked_for : Value → Option String
  -- the text of an `UntranslatableRequest`, with the model's name
  pub explain : String → Refusal → String
  pub post : String → Map String → Sent → Bool → Posted
  pub enable_streaming : Bool
  pub cache : Cache
  pub rows : List Model

pub record Request : Type 0 where
  pub authorization : Option String
  pub api_key : Option String
  pub deployment_override : Option String
  pub harness : Option String
  pub body : Option Value

unfoldable pub failed_row : Principal → ℕ → String → Option Scheduled
unfolding schedule
failed_row principal status error = some (schedule principal status (some (str error)) end)

-- the `except` clauses of the HTTP client
unfoldable pub on_posted : Principal → Posted → (Upstream → Answer) → Answer
unfolding failed_row
on_posted principal no_connection k =
    (raised_error 502 "Failed to reach upstream", failed_row principal 502 "connect_error")
on_posted principal timed_out k =
    (raised_error 504 "Upstream timed out", failed_row principal 504 "timeout")
on_posted principal broke k = (crashed, none)
on_posted principal (answered reply) k = k reply

-- `body.get("stream", False) and config.enable_streaming`
abbrev pub streaming_of : Bool → Value → Value
streaming_of enabled v = if truthy v then bool enabled else v

module _ (s : Setting) where
  unfoldable pub untranslatable : Principal → String → Refusal → Answer
  unfolding failed_row
  untranslatable principal name r = (
    replied 400 (
        obj (
          field "error"
            (obj (
              field "message" (str (s.explain name r))
                (field "type" (str "invalid_request_error") end)))
            end)),
    failed_row principal 400 "untranslatable_request",
  )

  unfoldable pub on_translated :
      {A : Type 0} → Principal → String → Result A → (A → Answer) → Answer
  unfolding untranslatable
  on_translated principal name (err crash) k = (crashed, none)
  on_translated principal name (err r) k = untranslatable principal name r
  on_translated principal name (ok a) k = k a

  -- a call with the headers, where building them raises for an unknown scheme
  unfoldable pub call :
      Principal
      → DeploymentTarget
      → Option (Map String)
      → Sent
      → Bool
      → (Upstream → Answer)
      → Answer
  unfolding on_posted upstream_url
  call principal target none sent streams k = (crashed, none)
  call principal target (some headers) sent streams k =
      on_posted principal (s.post (upstream_url target) headers sent streams) k

  unfoldable pub messages_handler : Principal → DeploymentTarget → Bool → Upstream → Answer
  unfolding stream_via_anthropic post_via_anthropic
  messages_handler principal target streams =
      if streams
      then stream_via_anthropic s.loads s.dumps s.render s.decimal s.fresh s.created target.name
          principal
      else post_via_anthropic s.loads s.dumps s.render s.decimal s.fresh s.created target.name
          principal

  unfoldable pub responses_handler : Principal → DeploymentTarget → Bool → Upstream → Answer
  unfolding stream_via_responses post_via_responses
  responses_handler principal target streams =
      if streams
      then stream_via_responses s.loads s.dumps s.render s.decimal s.fresh s.created target.name
          principal
      else post_via_responses s.loads s.dumps s.render s.decimal s.fresh s.created target.name
          principal

  unfoldable pub native_handler : Principal → Bool → Upstream → Answer
  unfolding stream_native post_native
  native_handler principal streams =
      if streams
      then stream_native s.loads s.decimal principal
      else post_native s.loads s.decimal principal

  abbrev pub native_body : Fields → Value → String → Fields
  unfolding with_stream_options put
  native_body body streaming name =
      let sent = put "stream" streaming (put "model" (str name) body) in
      if truthy streaming then with_stream_options sent else sent

  -- the three ways upstream
  unfoldable pub dispatch : Principal → DeploymentTarget → Fields → Value → Answer
  unfolding on_translated call messages_handler responses_handler native_handler native_body
      is_anthropic_messages is_openai_responses is_anthropic_oauth transform_to_anthropic_messages
      transform_to_responses_format anthropic_upstream_headers build_upstream_headers
  dispatch principal target body streaming =
      if is_anthropic_messages target.target_uri
      then on_translated principal target.name
          (transform_to_anthropic_messages s.dumps s.loads s.mint body streaming target.name)
          (λ sent.
            call principal target (anthropic_upstream_headers s.claims target)
              (to_messages sent (is_anthropic_oauth target)) (truthy streaming)
              (messages_handler principal target (truthy streaming)))
      else if is_openai_responses target.target_uri
      then on_translated principal target.name
          (transform_to_responses_format s.dumps s.render body streaming target.name)
          (λ sent.
            call principal target (build_upstream_headers s.claims target) (as_dict sent)
              (truthy streaming) (responses_handler principal target (truthy streaming)))
      else call principal target (build_upstream_headers s.claims target)
          (as_dict (native_body body streaming target.name)) (truthy streaming)
          (native_handler principal (truthy streaming))

  -- the headers are built before the `try`
  unfoldable pub with_headers : Principal → DeploymentTarget → Fields → Option (Map String) → Answer
  unfolding dispatch lookup
  with_headers principal target body none = (crashed, none)
  with_headers principal target body (some headers) =
      dispatch principal target body
        (streaming_of s.enable_streaming (from_option (bool false) (lookup "stream" body)))

  unfoldable pub guarded : Principal → DeploymentTarget → Fields → Option Resolve.Refusal → Answer
  unfolding with_headers build_upstream_headers
  guarded principal target body (some r) = (not_served r, none)
  guarded principal target body none =
      with_headers principal target body (build_upstream_headers s.claims target)

  unfoldable pub to_target : Principal → Fields → Outcome DeploymentTarget → Answer
  unfolding guarded reject_wrong_protocol
  to_target principal body (refused r) = (not_served r, none)
  to_target principal body raised = (crashed, none)
  to_target principal body (found target) =
      guarded principal target body (reject_wrong_protocol openai target chat_completions)

  abbrev model_value : Value → Option String
  model_value (str name) = some name
  model_value v = if truthy v then s.asked_for v else none

  -- `deployment_override or body.get("model")`
  unfoldable pub model_name : Option String → Fields → Option String
  unfolding get
  model_name override body = if has_text override then override else model_value (get "model" body)

  abbrev is_admin : Option String → Bool
  is_admin none = false
  is_admin (some role) = role == "admin"

  abbrev pub or_crash : Option Resolve.Refusal → Answer
  or_crash none = (crashed, none)
  or_crash (some r) = (not_served r, none)

  -- a body that is no dict raises where the route asks it whether to stream
  unfoldable pub without_body : Outcome DeploymentTarget → Answer
  unfolding reject_wrong_protocol
  without_body (refused r) = (not_served r, none)
  without_body raised = (crashed, none)
  without_body (found target) = or_crash (reject_wrong_protocol openai target chat_completions)

  unfoldable pub resolved : Request → Option String → World → Outcome DeploymentTarget × World
  unfolding resolve_deployment resolve_requester_role
  resolved request name w =
      resolve_deployment s.claims s.grant s.stamp s.rows name openai
        (is_admin (resolve_requester_role s.sha256 s.cache request.authorization request.api_key))
        (some chat_completions) request.harness w

  unfoldable pub admitted : Request → Option Value → World → Answer × World
  unfolding to_target resolved resolve_principal model_name without_body
  admitted request none w = ((raised_error 400 "Invalid JSON in request body", none), w)
  admitted request (some (obj body)) w =
      let (o, w') = resolved request (model_name request.deployment_override body) w in
      (
        to_target (resolve_principal s.sha256 s.cache request.authorization request.api_key) body o,
        w',
      )
  admitted request (some v) w =
      if has_text request.deployment_override
      then (let (o, w') = resolved request request.deployment_override w in (without_body o, w'))
      else ((crashed, none), w)

  abbrev refused_status : Request → ℕ
  refused_status request =
      if has_text request.authorization || has_text request.api_key then 403 else 401

  unfoldable pub handle_completions : Request → World → Answer × World
  unfolding admitted validate_api_key
  handle_completions request w =
      if validate_api_key s.sha256 s.cache request.authorization request.api_key
      then admitted request request.body w
      else ((raised_error (refused_status request) "Invalid API key", none), w)
