-- ===== src/Messages/Body.antt =====
-- app/proxy/anthropic.py: what the route changes in a body before it sends it, and what it reads of
-- a reply. The log lines are left out.
use inference_proxy.Prelude.{
  String, Bool, false, not, ◌&&◌, Option, none, some, List, [], ◌∷◌, ◌==◌, if◌then◌else◌,
}
use inference_proxy.Json.{
  Value, null, str, arr, obj, Fields, end, field, items, list, get, put, keep_keys, or_value,
  is_text,
}
use inference_proxy.Metering.{anthropic_usage_to_azure_usage}
use inference_proxy.Deployments.Target.{DeploymentTarget, is_anthropic_oauth}

abbrev pub oauth_system_identity : String
oauth_system_identity = "You are Claude Code, Anthropic's official CLI for Claude."

abbrev pub text_block : String → Value
text_block s = obj (field "type" (str "text") (field "text" (str s) end))

-- the system prompt as blocks
unfoldable pub blocks_of : Value → List Value
blocks_of null = []
blocks_of (str s) = text_block s ∷ []
blocks_of (arr vs) = items vs
blocks_of v = v ∷ []

abbrev pub is_identity : Value → Bool
is_identity (obj fs) = is_text oauth_system_identity (get "text" fs)
is_identity _ = false

unfoldable pub declares_identity : List Value → Bool
unfolding get
declares_identity [] = false
declares_identity (block ∷ blocks) = is_identity block

unfoldable pub apply_oauth_system_prompt : Fields → Fields
unfolding get put blocks_of declares_identity
apply_oauth_system_prompt body =
    if declares_identity (blocks_of (get "system" body))
    then body
    else put "system" (list (text_block oauth_system_identity ∷ blocks_of (get "system" body))) body

-- `UNSUPPORTED_FOUNDRY_BODY_FIELDS` holds this one name
abbrev pub is_supported : String → Bool
is_supported name = not (name == "context_management")

-- `_strip_unsupported_foundry_fields`
unfoldable pub strip_unsupported_foundry_fields : Fields → Fields
unfolding keep_keys
strip_unsupported_foundry_fields body = keep_keys is_supported body

-- `model != target.name`, for a model that the table has found
abbrev is_other : String → Value → Bool
is_other name model = not (is_text name model)

abbrev pub rewritten : Bool → String → Fields → Fields
rewritten rewrite name body =
    if rewrite && is_other name (get "model" body) then put "model" (str name) body else body

abbrev pub with_identity : Bool → Fields → Fields
with_identity oauth body = if oauth then apply_oauth_system_prompt body else body

-- the body that goes upstream
unfoldable pub upstream_body : DeploymentTarget → Bool → Fields → Fields
unfolding apply_oauth_system_prompt strip_unsupported_foundry_fields is_anthropic_oauth put get
upstream_body target rewrite body =
    with_identity (is_anthropic_oauth target)
      (strip_unsupported_foundry_fields (rewritten rewrite target.name body))

abbrev usage_of : Value → Option Fields
usage_of (obj usage) = some (anthropic_usage_to_azure_usage usage)
usage_of _ = none

-- `_usage_from_anthropic`, which reads the fields as `_anthropic_usage_to_azure_usage` of
-- app/proxy/chat_completions.py does. `none` is the exception where the reply or its usage is no dict.
unfoldable pub usage_from_anthropic : Value → Option Fields
unfolding get anthropic_usage_to_azure_usage
usage_from_anthropic (obj payload) = usage_of (or_value (get "usage" payload) (obj end))
usage_from_anthropic _ = none
