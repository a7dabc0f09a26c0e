-- ===== src/Completions/Guards.antt =====
-- What has held of a request of app/proxy/chat_completions.py that leaves a usage row.
use inference_proxy.Prelude.{Bool, true, false, Option, none, some, ◌≡◌, refl, ◌≢◌, if◌then◌else◌}
use inference_proxy.Json.{Value, obj, Fields}
use inference_proxy.Auth.{validate_api_key, resolve_principal}
use inference_proxy.Metering.{Scheduled}
use inference_proxy.Credentials.World.{World, has_text}
use inference_proxy.Deployments.Registry.{chat_completions}
use inference_proxy.Deployments.Target.{DeploymentTarget}
use inference_proxy.Deployments.Resolve
use inference_proxy.Deployments.Resolve.{
  openai, Outcome, found, refused, raised, reject_wrong_protocol,
}
use inference_proxy.Completions.Answers.{Principal, Answer, crashed}
use inference_proxy.Completions.Entry.{
  Setting, Request, guarded, to_target, model_name, resolved, or_crash, without_body, admitted,
  handle_completions,
}

module _ (s : Setting) where
  -- the target is found, and the chat route takes its protocol
  abbrev pub IsTaken : Outcome DeploymentTarget → Type 0
  unfolding reject_wrong_protocol
  IsTaken o =
      (target : DeploymentTarget) × (o ≡ found target)
      × (reject_wrong_protocol openai target chat_completions ≡ none)

  guarded-row :
      (principal : Principal) (target : DeploymentTarget) (body : Fields)
      (r : Option Resolve.Refusal) (row : Scheduled)
      → (guarded s principal target body r).1 ≡ some row
      → r ≡ none
  unfolding guarded
  guarded-row principal target body none row h = refl
  guarded-row principal target body (some r) row h = cc

  to_target-row :
      (principal : Principal) (body : Fields) (o : Outcome DeploymentTarget) (row : Scheduled)
      → (to_target s principal body o).1 ≡ some row
      → IsTaken o
  unfolding to_target IsTaken
  to_target-row principal body (found target) row h = (
    target,
    refl,
    guarded-row principal target body (reject_wrong_protocol openai target chat_completions) row h,
  )
  to_target-row principal body (refused r) row h = cc
  to_target-row principal body raised row h = cc

  or_crash-row : (r : Option Resolve.Refusal) → (or_crash s r).1 ≡ none
  or_crash-row none = refl
  or_crash-row (some r) = refl

  without_body-row : (o : Outcome DeploymentTarget) → (without_body s o).1 ≡ none
  unfolding without_body
  without_body-row (refused r) = refl
  without_body-row raised = refl
  without_body-row (found target) =
      or_crash-row (reject_wrong_protocol openai target chat_completions)

  -- the body is a dict, and its model has a target
  abbrev pub IsResolved : Request → World → Type 0
  unfolding IsTaken resolved model_name
  IsResolved request w =
      (body : Fields) × (request.body ≡ some (obj body))
      × IsTaken (resolved s request (model_name s request.deployment_override body) w).0

  abbrev row_of : Answer × World → Option Scheduled
  row_of (answer, w) = answer.1

  odd_body-row :
      (t : Bool) (o : Outcome DeploymentTarget) (w w' : World)
      → row_of (if t then (without_body s o, w') else ((crashed, none), w)) ≡ none
  odd_body-row true o w w' = without_body-row o
  odd_body-row false o w w' = refl

  no_row : (o : Option Scheduled) (row : Scheduled) → o ≡ none → o ≢ some row
  no_row o row absent there = cc (absent, there)

  admitted-row :
      (request : Request) (body : Option Value) (w : World) (row : Scheduled)
      → request.body ≡ body
      → (admitted s request body w).0.1 ≡ some row
      → IsResolved request w
  unfolding admitted IsResolved
  admitted-row request none w row same h = cc
  admitted-row request (some (obj body)) w row same h =
      let name = model_name s request.deployment_override body in
      (
        body,
        same,
        to_target-row (resolve_principal s.sha256 s.cache request.authorization request.api_key)
            body (resolved s request name w).0 row h,
      )
  admitted-row request (some v) w row same h =
      elim (no_row _ row
        (odd_body-row (has_text request.deployment_override)
          (resolved s request request.deployment_override w).0 w
          (resolved s request request.deployment_override w).1)
        h) [ ]

  checked-row :
      (t : Bool) (request : Request) (w : World) (refusal : Answer) (row : Scheduled)
      → refusal.1 ≡ none
      → row_of (if t then admitted s request request.body w else (refusal, w)) ≡ some row
      → (t ≡ true) × IsResolved request w
  checked-row true request w refusal row none_there h =
      (refl, admitted-row request request.body w row refl h)
  checked-row false request w refusal row none_there h =
      elim (no_row refusal.1 row none_there h) [ ]

  -- A request leaves a usage row only if its key is valid, its body is an object, and its model has
  -- a target that speaks a protocol of the chat route.
  pub handle_completions-row :
      (request : Request) (w : World) (row : Scheduled)
      → (handle_completions s request w).0.1 ≡ some row
      → (validate_api_key s.sha256 s.cache request.authorization request.api_key ≡ true)
        × IsResolved request w
  unfolding handle_completions
  handle_completions-row request w row h =
      checked-row (validate_api_key s.sha256 s.cache request.authorization request.api_key) request
        w _ row refl h
