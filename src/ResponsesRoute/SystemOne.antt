-- ===== src/ResponsesRoute/SystemOne.antt =====
-- app/proxy/systemone.py: `systemone`, the decision route. `post` is the call upstream: the URL, the
-- headers and the body.
use inference_proxy.Prelude.{
  ℕ, String, Bool, false, ◌&&◌, ◌||◌, Option, none, some, List, ◌==◌, if◌then◌else◌, Map,
}
use inference_proxy.Prelude.Int.{ℤ}
use inference_proxy.Json.{Value, str, obj, Fields, end, field, get, put, truthy, is_object}
use inference_proxy.Auth.{Cache, validate_api_key, resolve_principal, resolve_requester_role}
use inference_proxy.Metering.{schedule}
use inference_proxy.Credentials.World.{World, has_text}
use inference_proxy.Credentials.Files.{Reply}
use inference_proxy.Deployments.Registry.{systemone, Model}
use inference_proxy.Deployments.Target.{DeploymentTarget, upstream_url, build_upstream_headers}
use inference_proxy.Deployments.Resolve.{
  openai, Outcome, found, refused, raised, resolve_deployment,
}
use inference_proxy.Completions.Answers.{
  Served, replied, raised_error, not_served, crashed, Principal, Answer,
}
use inference_proxy.ResponsesRoute.Entry.{Request}

-- a reply with its body as JSON, an error of the HTTP client with its text, or another exception
pub data Decided : Type 0 where
  decided : ℕ → Option Value → Decided
  unreachable : String → Decided
  broke : Decided

pub record Setting : Type 0 where
  pub sha256 : String → String
  pub claims : String → Fields
  pub grant : String → Reply
  pub stamp : ℤ → String
  pub asked_for : Value → Option String
  pub post : String → Map String → Fields → Decided
  pub cache : Cache
  pub rows : List Model

abbrev non_json : Value
non_json = obj (
    field "error"
      (obj (
        field "message" (str "decision model returned a non-JSON body")
          (field "type" (str "api_error") end)))
      end)

abbrev payload_reply : ℕ → Option Value → Served
payload_reply status none = replied 502 non_json
payload_reply status (some payload) = replied status payload

-- the row is asked for before the body is read
unfoldable pub on_decided : Principal → Decided → Answer
unfolding schedule
on_decided principal (decided status payload) =
    (payload_reply status payload, some (schedule principal status none end))
on_decided principal (unreachable why) = (
  raised_error 502 (Prim.Native.String.◌++◌ "decision model unreachable: " why),
  some (schedule principal 502 (some (str "upstream_unreachable")) end),
)
on_decided principal broke = (crashed, none)

-- a non-empty dict
abbrev pub has_questions : Fields → Bool
unfolding get
has_questions body = is_object (get "questions" body) && truthy (get "questions" body)

module _ (s : Setting) where
  abbrev forwarded : Principal → DeploymentTarget → Fields → Option (Map String) → Answer
  unfolding on_decided upstream_url put
  forwarded principal target body none = (crashed, none)
  forwarded principal target body (some headers) =
      on_decided principal
        (s.post (upstream_url target) headers (put "model" (str target.name) body))

  abbrev to_target : Principal → Fields → Outcome DeploymentTarget → Answer
  unfolding forwarded build_upstream_headers
  to_target principal body (refused r) = (not_served r, none)
  to_target principal body raised = (crashed, none)
  to_target principal body (found target) =
      forwarded principal target body (build_upstream_headers s.claims target)

  abbrev model_name : Value → Option String
  model_name (str name) = some name
  model_name v = if truthy v then s.asked_for v else none

  abbrev is_admin : Option String → Bool
  is_admin none = false
  is_admin (some role) = role == "admin"

  abbrev admitted : Request → Option Value → World → Answer × World
  unfolding to_target resolve_deployment resolve_principal resolve_requester_role get has_questions
  admitted request none w = ((raised_error 400 "Invalid JSON in request body", none), w)
  admitted request (some (obj body)) w =
      if has_questions body
      then (let (o, w') =
            resolve_deployment s.claims s.grant s.stamp s.rows (model_name (get "model" body))
              openai
              (is_admin
                (resolve_requester_role s.sha256 s.cache request.authorization request.api_key))
              (some systemone) none w in
          (
            to_target (resolve_principal s.sha256 s.cache request.authorization request.api_key)
                body o,
            w',
          ))
      else ((raised_error 400 "At least one entry in 'questions' is required", none), w)
  admitted request (some v) w = ((crashed, none), w)

  abbrev refused_status : Request → ℕ
  refused_status request =
      if has_text request.authorization || has_text request.api_key then 403 else 401

  unfoldable pub answer_systemone : Request → World → Answer × World
  unfolding admitted validate_api_key
  answer_systemone request w =
      if validate_api_key s.sha256 s.cache request.authorization request.api_key
      then admitted request request.body w
      else ((raised_error (refused_status request) "Invalid API key", none), w)
