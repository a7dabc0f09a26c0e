-- ===== src/Relay/Entry.antt =====
-- app/proxy/websocket.py: `responses_websocket` from the client's key to the usage row. The handshake,
-- the close codes and the wait for the client to go are left out.
use inference_proxy.Prelude.{
  ℕ, String, Bool, true, false, not, Option, none, some, List, ◌==◌, if◌then◌else◌, Map,
}
use inference_proxy.Prelude.Int.{ℤ}
use inference_proxy.Json.{Value, bool, str, obj, Fields, end, get, put, keep_keys, truthy}
use inference_proxy.Auth.{Cache, validate_api_key, resolve_principal, resolve_requester_role}
use inference_proxy.Metering.{Scheduled, schedule}
use inference_proxy.Credentials.World.{World, has_text}
use inference_proxy.Credentials.Files.{Reply}
use inference_proxy.Deployments.Registry.{openai_responses, Model}
use inference_proxy.Deployments.Target.{DeploymentTarget, upstream_url, build_upstream_headers}
use inference_proxy.Deployments.Resolve
use inference_proxy.Deployments.Resolve.{
  openai, Outcome, found, refused, raised, resolve_deployment, reject_wrong_protocol,
}
use inference_proxy.Upstream.Strip.{strip_unsupported_input_fields, sanitize_stream_options}
use inference_proxy.ResponsesRoute.Entry.{with_store}
use inference_proxy.Relay.Attempts
use inference_proxy.Relay.Attempts.{State, relay, relay_row}

-- what the client connects with, and its first message
pub record Connection : Type 0 where
  pub authorization : Option String
  pub api_key_header : Option String
  pub api_key : Option String
  pub raw : String

-- How a connection ends: with one of the errors that are sent before the attempts (`none` is the text
-- of an exception), by an exception before them, or after the attempts.
pub data Session : Type 0 where
  invalid_key missing_model : Session
  unresolved : Option Resolve.Refusal → Session
  broke : Session
  relayed : State → Session

pub record Setting : Type 0 where
  pub sha256 : String → String
  pub claims : String → Fields
  pub grant : String → Reply
  pub stamp : ℤ → String
  pub loads : String → Option Value
  pub asked_for : Value → Option String
  pub exception : Value
  pub upstream : String → Map String → ℕ → Fields → Attempts.Reply
  pub cache : Cache
  pub rows : List Model

-- the row of the `finally`, which is left out where the body names no model
abbrev Ended : Type 0
Ended = Session × Option Scheduled

abbrev cleaned : Option (Fields × List String) → Option Fields
cleaned none = none
cleaned (some (body, dropped)) = some body

-- the body that goes upstream; `none` is an exception
unfoldable pub relay_body : Fields → Option Fields
unfolding with_store put keep_keys strip_unsupported_input_fields sanitize_stream_options
relay_body body = cleaned (
    sanitize_stream_options
      (strip_unsupported_input_fields
        (keep_keys (λ k. not (k == "type")) (put "stream" (bool true) (with_store body)))).0)

module _ (s : Setting) where
  abbrev broken : Option (ℕ × ℕ) → Ended
  unfolding schedule
  broken principal = (broke, some (schedule principal 500 (some s.exception) end))

  abbrev relayed_to :
      Option (ℕ × ℕ) → DeploymentTarget → Option Fields → Option (Map String) → Ended
  unfolding relay relay_row upstream_url broken
  relayed_to principal target (some body) (some headers) =
      let final = relay s.loads s.exception (s.upstream (upstream_url target) headers) body in
      (relayed final, some (relay_row principal final))
  relayed_to principal target body headers = broken principal

  -- the `return` runs the `finally` with no error
  abbrev no_target : Option (ℕ × ℕ) → Option Resolve.Refusal → Ended
  unfolding schedule
  no_target principal why = (unresolved why, some (schedule principal 200 none end))

  abbrev guarded : Option (ℕ × ℕ) → Fields → DeploymentTarget → Option Resolve.Refusal → Ended
  unfolding relayed_to no_target relay_body build_upstream_headers
  guarded principal body target (some r) = no_target principal (some r)
  guarded principal body target none =
      relayed_to principal target (relay_body body) (build_upstream_headers s.claims target)

  abbrev to_target : Option (ℕ × ℕ) → Fields → Outcome DeploymentTarget → Ended
  unfolding guarded no_target reject_wrong_protocol
  to_target principal body (refused r) = no_target principal (some r)
  to_target principal body raised = no_target principal none
  to_target principal body (found target) =
      guarded principal body target (reject_wrong_protocol openai target openai_responses)

  abbrev model_name : Value → Option String
  model_name (str name) = some name
  model_name v = s.asked_for v

  abbrev is_admin : Option String → Bool
  is_admin none = false
  is_admin (some role) = role == "admin"

  -- `api_key_header or api_key`
  abbrev pub key_of : Connection → Option String
  key_of c = if has_text c.api_key_header then c.api_key_header else c.api_key

  abbrev received : Connection → Option Value → World → Ended × World
  unfolding to_target resolve_deployment resolve_principal resolve_requester_role get
  received c (some (obj body)) w =
      if truthy (get "model" body)
      then (let (o, w') =
            resolve_deployment s.claims s.grant s.stamp s.rows (model_name (get "model" body))
              openai (is_admin (resolve_requester_role s.sha256 s.cache c.authorization (key_of c)))
              (some openai_responses) none w in
          (to_target (resolve_principal s.sha256 s.cache c.authorization (key_of c)) body o, w'))
      else ((missing_model, none), w)
  received c body w = ((broke, none), w)

  unfoldable pub responses_websocket : Connection → World → Ended × World
  unfolding received validate_api_key
  responses_websocket c w =
      if validate_api_key s.sha256 s.cache c.authorization (key_of c)
      then received c (s.loads c.raw) w
      else ((invalid_key, none), w)
