-- ===== src/Messages/Headers.antt =====
-- app/proxy/anthropic.py: the headers of an upstream Messages call. `claims` is the decoded payload
-- of a token. The names that the proxy sets keep their case, those of the client come in lower case.
use Prim.Native.String
use inference_proxy.Prelude.{
  String, Bool, ◌&&◌, not, Option, none, some, List, [], ◌∷◌, map, ◌==◌, if◌then◌else◌, any, keep,
  from_option, Map, value_at, set_at,
}
use inference_proxy.Text.{lower, split, strip, starts_with}
use inference_proxy.Json.{Fields, is_empty_text}
use inference_proxy.Deployments.Target.{
  DeploymentTarget, is_anthropic_oauth, build_upstream_headers,
}

abbrev pub oauth_beta_flag : String
oauth_beta_flag = "oauth-2025-04-20"

-- `_extract_api_key_from_anthropic_headers`
unfoldable pub extract_api_key : Option String → Option String → Option String
extract_api_key authorization none = authorization
extract_api_key authorization (some key) =
    if is_empty_text key then authorization else some (String.◌++◌ "Bearer " key)

-- `",".join(flags)`
unfoldable pub join : List String → String
join [] = ""
join (flag ∷ []) = flag
join (flag ∷ next ∷ flags) = String.◌++◌ flag (String.◌++◌ "," (join (next ∷ flags)))

-- `[f.strip() for f in text.split(",") if f.strip()]`
unfoldable pub flags_of : String → List String
unfolding split strip
flags_of text = keep (λ flag. not (is_empty_text flag)) (map strip (split b',' text))

abbrev pub has_flag : String → List String → Bool
has_flag flag flags = any (λ f. f == flag) flags

abbrev pub with_flag : List String → List String
with_flag flags = if has_flag oauth_beta_flag flags then flags else oauth_beta_flag ∷ flags

abbrev pub set_beta : Bool → Map String → Map String
set_beta oauth headers = if oauth then set_at "anthropic-beta" oauth_beta_flag headers else headers

abbrev pub on_some : Option (Map String) → (Map String → Map String) → Option (Map String)
on_some none f = none
on_some (some headers) f = some (f headers)

abbrev pub with_version : Map String → Map String
with_version headers = set_at "anthropic-version" "2023-06-01" headers

unfoldable pub anthropic_upstream_headers :
    (String → Fields) → DeploymentTarget → Option (Map String)
unfolding build_upstream_headers is_anthropic_oauth set_at
anthropic_upstream_headers claims target =
    on_some (build_upstream_headers claims target)
      (λ headers. set_beta (is_anthropic_oauth target) (with_version headers))

unfoldable pub is_foundry : DeploymentTarget → Bool
unfolding is_anthropic_oauth
is_foundry target = not (target.auth_scheme == "x_api_key") && not (is_anthropic_oauth target)

abbrev pub copy_header : Bool → String → String → Map String → Map String
copy_header foundry name value headers =
    if (name == "anthropic-beta") && foundry
    then headers
    else if starts_with name "anthropic-"
    then set_at name value headers
    else headers

-- the loop over the client's headers
unfoldable pub copy_headers : Bool → List (String × String) → Map String → Map String
unfolding lower starts_with set_at
copy_headers foundry [] headers = headers
copy_headers foundry ((name, value) ∷ rest) headers =
    copy_headers foundry rest (copy_header foundry (lower name) value headers)

abbrev pub merge_beta : Bool → Map String → Map String
merge_beta oauth headers =
    if oauth
    then set_at "anthropic-beta"
        (join (with_flag (flags_of (from_option "" (value_at "anthropic-beta" headers))))) headers
    else headers

unfoldable pub forward_headers :
    (String → Fields) → List (String × String) → DeploymentTarget → Option (Map String)
unfolding build_upstream_headers is_anthropic_oauth is_foundry copy_headers set_at value_at flags_of
    join
forward_headers claims request target = on_some (build_upstream_headers claims target) (λ headers.
    merge_beta (is_anthropic_oauth target)
      (copy_headers (is_foundry target) request (with_version headers)))
