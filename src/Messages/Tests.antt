-- ===== src/Messages/Tests.antt =====
-- A stream, a few requests and two targets for app/proxy/anthropic.py.
use inference_proxy.Prelude.{
  ℕ, String, true, false, Option, none, some, List, [], ◌∷◌, ◌++◌, ◌≡◌, ◌≢◌, ◌⊎◌, ◌==◌, refl, Map,
  value_at,
}
use inference_proxy.Prelude.Int.{ℤ, pos}
use inference_proxy.Json.{Value, null, int, str, obj, Fields, end, field, get, list}
use inference_proxy.Credentials.World.{World, Credential, missing}
use inference_proxy.Credentials.Files.{Reply, token_reply}
use inference_proxy.Deployments.Registry.{Model}
use inference_proxy.Deployments.Target.{DeploymentTarget, is_anthropic_oauth}
use inference_proxy.Deployments.Resolve.{found}
use inference_proxy.Messages.Bytes.{Bytes}
use inference_proxy.Messages.Sniff.{waiting, unfinished, passthrough_stream, drain}
use inference_proxy.Messages.Chunking.{passthrough_stream_ends}
use inference_proxy.Messages.Alias.{
  base_model_from_dated_alias, base_model_from_bracket_variant, resolve,
  resolve_anthropic_deployment,
}
use inference_proxy.Messages.Aliases.{Reached, alias_only_without_row}
use inference_proxy.Messages.Headers.{forward_headers, is_foundry}
use inference_proxy.Messages.Betas.{Sends, forward_headers-foundry, forward_headers-oauth}
use inference_proxy.Messages.Body.{oauth_system_identity, text_block, apply_oauth_system_prompt}
use inference_proxy.Messages.Identity.{callers, IsDeclared, identity_comes_first}
use inference_proxy.Messages.Route.{Principal, Upstream, answered, passthrough, forward}
use inference_proxy.Messages.Metered.{IsMetered, forward-IsMetered, same_bytes_same_row}

dated_names : base_model_from_dated_alias "claude-haiku-4-5-20251001" ≡ some "claude-haiku-4-5"
unfolding base_model_from_dated_alias
dated_names = refl

too_short : base_model_from_dated_alias "claude-2025" ≡ none
unfolding base_model_from_dated_alias
too_short = refl

bracket_names : base_model_from_bracket_variant "claude-fable-5[1m]" ≡ some "claude-fable-5"
unfolding base_model_from_bracket_variant
bracket_names = refl

last_bracket : base_model_from_bracket_variant "a[b[c]" ≡ some "a[b"
unfolding base_model_from_bracket_variant
last_bracket = refl

-- data: {}
abbrev event : Bytes
event = 100 ∷ 97 ∷ 116 ∷ 97 ∷ 58 ∷ 32 ∷ 123 ∷ 125 ∷ 10 ∷ 10 ∷ []

-- reads every payload as a `message_delta` of seven tokens
abbrev delta : Bytes → Option Value
delta payload = some (
    obj (
      field "type" (str "message_delta")
        (field "usage" (obj (field "output_tokens" (int (pos 7)) end)) end)))

abbrev counted : Fields
counted = field "output_tokens" (int (pos 7)) end

reads_the_event : drain delta (event ++ 100 ∷ []) end ≡ waiting counted (100 ∷ [])
unfolding drain
reads_the_event = refl

abbrev pieces : List Bytes
pieces = (100 ∷ 97 ∷ 116 ∷ []) ∷ [] ∷ (97 ∷ 58 ∷ 32 ∷ 123 ∷ 125 ∷ 10 ∷ []) ∷ (10 ∷ []) ∷ []

passthrough_stream_ends_example : (passthrough_stream delta pieces [] end).state ≢ unfinished
passthrough_stream_ends_example = passthrough_stream_ends delta pieces end

abbrev decimal : ℕ → String
decimal n = "500"

abbrev float_sum : Value → Value → Value
float_sum a b = null

abbrev in_pieces : Upstream
in_pieces = record { chunks = pieces; died = some "ReadTimeout"; body = none }

abbrev in_one : Upstream
in_one = record { chunks = event ∷ []; died = some "ReadTimeout"; body = none }

abbrev caller : Principal
caller = some (3, 5)

same_bytes_same_row_example :
    (passthrough decimal delta float_sum [] caller in_pieces).1
    ≡ (passthrough decimal delta float_sum [] caller in_one).1
same_bytes_same_row_example =
    same_bytes_same_row decimal delta float_sum [] caller in_pieces in_one refl refl

forward-IsMetered_example :
    IsMetered caller (forward decimal delta float_sum [] caller true (answered 200 in_pieces))
forward-IsMetered_example =
    forward-IsMetered decimal delta float_sum [] caller true (answered 200 in_pieces)

abbrev foundry : DeploymentTarget
foundry = record {
  name = "haiku";
  target_uri = "https://box/anthropic/v1/messages";
  api_key = "sk";
  api_version = none;
  auth_scheme = "bearer";
  credential_kind = "static";
}

abbrev subscription : DeploymentTarget
subscription = record foundry { credential_kind = "anthropic_oauth" }

abbrev client_headers : List (String × String)
client_headers = ("Anthropic-Beta", "tools-1, cache-2") ∷ ("accept", "*/*") ∷ []

abbrev no_claims : String → Fields
no_claims token = end

abbrev base_headers : Map String
base_headers =
    ("Authorization", "Bearer sk")
    ∷ ("Content-Type", "application/json")
    ∷ ("anthropic-version", "2023-06-01")
    ∷ []

forward_headers-foundry_example : value_at "anthropic-beta" base_headers ≡ none
unfolding forward_headers is_foundry
forward_headers-foundry_example =
    forward_headers-foundry no_claims client_headers foundry base_headers refl refl

abbrev with_flags : Map String
with_flags =
    ("Authorization", "Bearer sk")
    ∷ ("Content-Type", "application/json")
    ∷ ("anthropic-version", "2023-06-01")
    ∷ ("anthropic-beta", "oauth-2025-04-20,tools-1,cache-2")
    ∷ []

forward_headers-oauth_example : Sends client_headers with_flags
unfolding forward_headers is_anthropic_oauth
forward_headers-oauth_example =
    forward_headers-oauth no_claims client_headers subscription with_flags refl refl

abbrev asked : Fields
asked = field "model" (str "haiku") (field "system" (str "Be brief.") end)

identity_comes_first_example :
    (((apply_oauth_system_prompt asked ≡ asked) × IsDeclared (callers (get "system" asked)))
      ⊎ (get "system" (apply_oauth_system_prompt asked)
          ≡ list (text_block oauth_system_identity ∷ callers (get "system" asked))))
    × ((name : String)
        → ("system" == name) ≡ false
        → get name (apply_oauth_system_prompt asked) ≡ get name asked)
identity_comes_first_example = identity_comes_first asked

abbrev grants : String → Reply
grants token = token_reply 500 none

abbrev stamped : ℤ → String
stamped t = "now"

abbrev key : Credential
key = record {
  id = 1;
  name = "key";
  kind = "static";
  secret = some "sk";
  source_path = none;
  access_token = none;
  expires_at = none;
  refreshed_at = none;
}

abbrev haiku : Model
haiku = record {
  deployment_name = "haiku";
  label = none;
  description = none;
  target_uri = some "https://box/anthropic/v1/messages";
  credential = some key;
  provider = none;
  harnesses = none;
  api_version = none;
  auth_scheme = "bearer";
  enabled = true;
  admin_only = false;
  context_window = some (pos 200000);
  rotation_threshold_percent = pos 80;
  accepts_images = none;
  effort_levels = none;
}

abbrev world : World
world = record {
  now = pos 0;
  rows = λ i. key;
  files = λ p. missing;
  posted = [];
  writes = true;
  commits = true;
}

alias_only_without_row_example :
    (((resolve no_claims grants stamped (haiku ∷ []) false (some "haiku-20251001") world).0
        ≡ found foundry)
      × (true ≡ false))
    ⊎ Reached no_claims grants stamped (haiku ∷ []) false (some "haiku-20251001") foundry true
unfolding resolve_anthropic_deployment
alias_only_without_row_example =
    alias_only_without_row no_claims grants stamped (haiku ∷ []) false (some "haiku-20251001") world
      foundry true refl
