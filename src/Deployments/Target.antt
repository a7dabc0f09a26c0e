-- ===== src/Deployments/Target.antt =====
-- app/deployments.py: `DeploymentTarget`, and the headers of an upstream call.
use Prim.Native.String
use inference_proxy.Prelude.{
  String, Bool, ◌&&◌, ◌||◌, not, Option, none, some, List, [], ◌∷◌, ◌++◌, ◌==◌, if◌then◌else◌,
}
use inference_proxy.Text.{contains, strip_end_slash, ends_with}
use inference_proxy.Json.{Fields, is_empty_text}
use inference_proxy.Credentials.Files.{codex_account_id}

pub record DeploymentTarget : Type 0 where
  pub name : String
  pub target_uri : String
  pub api_key : String
  pub api_version : Option String
  pub auth_scheme : String
  pub credential_kind : String

unfoldable pub is_anthropic_oauth : DeploymentTarget → Bool
is_anthropic_oauth target = target.credential_kind == "anthropic_oauth"

abbrev joined_version : String → String → String
joined_version uri version =
    String.◌++◌ uri
      (String.◌++◌ (if contains "?" uri then "&" else "?") (String.◌++◌ "api-version=" version))

abbrev versioned : String → Option String → String
versioned uri none = uri
versioned uri (some version) = if is_empty_text version then uri else joined_version uri version

unfoldable pub upstream_url : DeploymentTarget → String
unfolding contains
upstream_url target = versioned target.target_uri target.api_version

-- The shapes are read off the target URI.
unfoldable pub is_anthropic_messages : String → Bool
unfolding contains strip_end_slash ends_with
is_anthropic_messages uri =
    if contains "api.anthropic.com" uri
    then contains "/messages" uri
    else (contains "/anthropic/" uri && contains "/messages" uri)
      || ends_with (strip_end_slash uri) "/v1/messages"

unfoldable pub is_codex_backend : String → Bool
unfolding contains
is_codex_backend uri = contains "chatgpt.com" uri

unfoldable pub is_openai_responses : String → Bool
unfolding contains strip_end_slash ends_with is_codex_backend
is_openai_responses uri =
    if contains "api.openai.com" uri || is_codex_backend uri
    then contains "/responses" uri
    else contains "/openai/responses" uri || ends_with (strip_end_slash uri) "/v1/responses"

unfoldable pub is_native_chat_completions : String → Bool
unfolding contains
is_native_chat_completions uri =
    contains "/chat/completions" uri && not (contains "/openai/responses" uri)

abbrev Header : Type 0
Header = String × String

abbrev pub account_header : Option String → List Header
account_header none = []
account_header (some account) = ("chatgpt-account-id", account) ∷ []

-- `build_upstream_headers`; `none` is the `ValueError` of an unknown scheme. `claims` is the decoded
-- payload of a token.
unfoldable pub build_upstream_headers : (String → Fields) → DeploymentTarget → Option (List Header)
unfolding is_codex_backend codex_account_id
build_upstream_headers claims target =
    if target.auth_scheme == "bearer"
    then some (
        ("Authorization", String.◌++◌ "Bearer " target.api_key)
        ∷ ("Content-Type", "application/json")
        ∷ (if is_codex_backend target.target_uri
            then account_header (codex_account_id claims target.api_key)
              ++ ("OpenAI-Beta", "responses=experimental") ∷ ("originator", "codex_cli_rs") ∷ []
            else []))
    else if target.auth_scheme == "x_api_key"
    then some (("x-api-key", target.api_key) ∷ ("Content-Type", "application/json") ∷ [])
    else if target.auth_scheme == "api_key_header"
    then some (("api-key", target.api_key) ∷ ("Content-Type", "application/json") ∷ [])
    else none
