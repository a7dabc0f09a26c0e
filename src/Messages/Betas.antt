-- ===== src/Messages/Betas.antt =====
-- The `anthropic-beta` header that app/proxy/anthropic.py sends upstream.
use inference_proxy.Prelude.{
  String, Bool, true, false, ◌&&◌, ◌||◌, not, Option, none, some, List, [], ◌∷◌, ◌++◌, ◌≡◌, refl,
  sym, ap, subst, ◌∙◌, arith, ◌==◌, if◌then◌else◌, from_option, Map, value_at, set_at,
  value_at-set_at, eq_iff, Bool-cases, inl, inr,
}
use inference_proxy.Text.{lower, starts_with}
use inference_proxy.Json.{Fields}
use inference_proxy.Credentials.Files.{codex_account_id}
use inference_proxy.Deployments.Target.{
  DeploymentTarget, is_anthropic_oauth, build_upstream_headers, account_header, is_codex_backend,
}
use inference_proxy.Messages.Headers.{
  oauth_beta_flag, join, flags_of, has_flag, with_flag, on_some, with_version, is_foundry,
  copy_header, copy_headers, merge_beta, forward_headers,
}

abbrev beta : Map String → Option String
unfolding value_at
beta headers = value_at "anthropic-beta" headers

-- the last `anthropic-beta` of the client
abbrev last_beta : List (String × String) → Option String → Option String
unfolding lower
last_beta [] before = before
last_beta ((name, value) ∷ rest) before =
    last_beta rest (if lower name == "anthropic-beta" then some value else before)

copy_header-named :
    (foundry : Bool) (value : String) (headers : Map String)
    → beta (copy_header foundry "anthropic-beta" value headers)
      ≡ (if not foundry then some value else beta headers)
unfolding beta starts_with set_at
copy_header-named true value headers = refl
copy_header-named false value headers =
    value_at-set_at "anthropic-beta" "anthropic-beta" value headers

copy_header-other :
    (starts : Bool) (name value : String) (headers : Map String)
    → (name == "anthropic-beta") ≡ false
    → beta (if starts then set_at name value headers else headers) ≡ beta headers
unfolding beta
copy_header-other true name value headers other =
    rw (value_at-set_at name "anthropic-beta" value headers, other) refl
copy_header-other false name value headers other = refl

copy_header-beta :
    (foundry : Bool) (name value : String) (headers : Map String)
    → beta (copy_header foundry name value headers)
      ≡ (if (name == "anthropic-beta") && not foundry then some value else beta headers)
unfolding beta
copy_header-beta foundry name value headers = elim (Bool-cases (name == "anthropic-beta")) [
  | inl same ↦
      subst
        (λ n.
          beta (copy_header foundry n value headers)
          ≡ (if (n == "anthropic-beta") && not foundry then some value else beta headers))
        (sym ((eq_iff name "anthropic-beta").0 same)) (copy_header-named foundry value headers)
  | inr other ↦
      rw other (copy_header-other (starts_with name "anthropic-") name value headers other)
]

and_true : (b : Bool) → (b && true) ≡ b
and_true true = refl
and_true false = refl

and_false : (b : Bool) → (b && false) ≡ false
and_false true = refl
and_false false = refl

copy_headers-beta :
    (request : List (String × String)) (headers : Map String)
    → beta (copy_headers false request headers) ≡ last_beta request (beta headers)
unfolding copy_headers last_beta
copy_headers-beta [] headers = refl
copy_headers-beta ((name, value) ∷ rest) headers =
    copy_headers-beta rest (copy_header false (lower name) value headers)
    ∙ ap (last_beta rest) (
        copy_header-beta false (lower name) value headers
        ∙ ap (λ b. if b then some value else beta headers)
            (and_true (lower name == "anthropic-beta")))

copy_headers-foundry :
    (request : List (String × String)) (headers : Map String)
    → beta (copy_headers true request headers) ≡ beta headers
unfolding copy_headers
copy_headers-foundry [] headers = refl
copy_headers-foundry ((name, value) ∷ rest) headers =
    copy_headers-foundry rest (copy_header true (lower name) value headers)
    ∙ copy_header-beta true (lower name) value headers
    ∙ ap (λ b. if b then some value else beta headers) (and_false (lower name == "anthropic-beta"))

abbrev Clean : Option (Map String) → Type 0
Clean none = Unit
Clean (some headers) = beta headers ≡ none

account-Clean :
    (account : Option String)
    → value_at "anthropic-beta" (
        account_header account
        ++ ("OpenAI-Beta", "responses=experimental") ∷ ("originator", "codex_cli_rs") ∷ [])
      ≡ none
unfolding value_at
account-Clean none = refl
account-Clean (some a) = refl

build-Clean :
    (claims : String → Fields) (target : DeploymentTarget)
    → Clean (build_upstream_headers claims target)
unfolding build_upstream_headers beta
build-Clean claims target = elim (Bool-cases (target.auth_scheme == "bearer")) [
  | inl bearer ↦ elim (Bool-cases (is_codex_backend target.target_uri)) [
    | inl codex ↦ rw (bearer, codex) (account-Clean (codex_account_id claims target.api_key))
    | inr other ↦ rw (bearer, other) refl
  ]
  | inr other ↦ elim (Bool-cases (target.auth_scheme == "x_api_key")) [
    | inl x_api_key ↦ rw (other, x_api_key) refl
    | inr other' ↦ elim (Bool-cases (target.auth_scheme == "api_key_header")) [
      | inl api_key ↦ rw (other, other', api_key) refl
      | inr unknown ↦ rw (other, other', unknown) tt
    ]
  ]
]

some-injective : {A : Type 0} {a b : A} → Option.some a ≡ some b → a ≡ b
some-injective h = cc

with_version-beta : (headers : Map String) → beta (with_version headers) ≡ beta headers
unfolding beta
with_version-beta headers =
    value_at-set_at "anthropic-version" "anthropic-beta" "2023-06-01" headers

foundry_has_no_oauth :
    (target : DeploymentTarget) → is_foundry target ≡ true → is_anthropic_oauth target ≡ false
unfolding is_foundry
foundry_has_no_oauth target h = ground arith

merged_for_foundry :
    (foundry oauth : Bool) (built : Option (Map String)) (request : List (String × String))
    (headers : Map String)
    → foundry ≡ true
    → oauth ≡ false
    → Clean built
    → on_some built (λ h. merge_beta oauth (copy_headers foundry request (with_version h)))
      ≡ some headers
    → beta headers ≡ none
merged_for_foundry false oauth built request headers f o clean h = cc
merged_for_foundry true true built request headers f o clean h = cc
merged_for_foundry true false none request headers f o clean h = cc
merged_for_foundry true false (some built) request headers f o clean h =
    ap beta (some-injective (sym h))
    ∙ copy_headers-foundry request (with_version built)
    ∙ with_version-beta built
    ∙ clean

-- Foundry gets no beta flag, whatever the client sends.
pub forward_headers-foundry :
    (claims : String → Fields) (request : List (String × String)) (target : DeploymentTarget)
    (headers : Map String)
    → is_foundry target ≡ true
    → forward_headers claims request target ≡ some headers
    → value_at "anthropic-beta" headers ≡ none
unfolding forward_headers beta
forward_headers-foundry claims request target headers foundry h =
    merged_for_foundry (is_foundry target) (is_anthropic_oauth target)
      (build_upstream_headers claims target) request headers foundry
      (foundry_has_no_oauth target foundry) (build-Clean claims target) h

-- the flags that are sent: the client's, and the one that the token needs
abbrev pub Sends : List (String × String) → Map String → Type 0
unfolding beta last_beta flags_of join
Sends request headers =
    (flags : List String) × (beta headers ≡ some (join flags))
    × (has_flag oauth_beta_flag flags ≡ true)
    × ((flag : String)
        → has_flag flag (flags_of (from_option "" (last_beta request none))) ≡ true
        → has_flag flag flags ≡ true)

with_flag-has_flag : (flags : List String) → has_flag oauth_beta_flag (with_flag flags) ≡ true
with_flag-has_flag flags = elim (Bool-cases (has_flag oauth_beta_flag flags)) [
  | inl there ↦ rw (there, there) refl
  | inr missing ↦ rw missing refl
]

or_true : (b : Bool) {c : Bool} → c ≡ true → (b || c) ≡ true
or_true b h = ground arith

with_flag_keeps :
    (flag : String) (flags : List String)
    → has_flag flag flags ≡ true
    → has_flag flag (with_flag flags) ≡ true
with_flag_keeps flag flags h = elim (Bool-cases (has_flag oauth_beta_flag flags)) [
  | inl there ↦ rw there h
  | inr missing ↦ rw missing (or_true (oauth_beta_flag == flag) h)
]

oauth_is_not_foundry :
    (target : DeploymentTarget) → is_anthropic_oauth target ≡ true → is_foundry target ≡ false
unfolding is_foundry
oauth_is_not_foundry target h = ground arith

copied-beta :
    (built : Map String) (request : List (String × String))
    → beta built ≡ none
    → beta (copy_headers false request (with_version built)) ≡ last_beta request none
copied-beta built request clean =
    copy_headers-beta request (with_version built)
    ∙ ap (last_beta request) (with_version-beta built ∙ clean)

merged_for_oauth :
    (foundry oauth : Bool) (built : Option (Map String)) (request : List (String × String))
    (headers : Map String)
    → foundry ≡ false
    → oauth ≡ true
    → Clean built
    → on_some built (λ h. merge_beta oauth (copy_headers foundry request (with_version h)))
      ≡ some headers
    → Sends request headers
unfolding Sends beta
merged_for_oauth true oauth built request headers f o clean h = cc
merged_for_oauth false false built request headers f o clean h = cc
merged_for_oauth false true none request headers f o clean h = cc
merged_for_oauth false true (some built) request headers f o clean h =
    let copied = copy_headers false request (with_version built) in
    let own = flags_of (from_option "" (last_beta request none)) in
    (
      with_flag own,
      ap beta (some-injective (sym h))
          ∙ value_at-set_at "anthropic-beta" "anthropic-beta"
              (join (with_flag (flags_of (from_option "" (beta copied))))) copied
          ∙ ap (λ b. some (join (with_flag (flags_of (from_option "" b)))))
              (copied-beta built request clean),
      with_flag-has_flag own,
      λ flag. with_flag_keeps flag own,
    )

-- A subscription token goes with its beta flag, and with every flag of the client's last
-- `anthropic-beta` header.
pub forward_headers-oauth :
    (claims : String → Fields) (request : List (String × String)) (target : DeploymentTarget)
    (headers : Map String)
    → is_anthropic_oauth target ≡ true
    → forward_headers claims request target ≡ some headers
    → Sends request headers
unfolding forward_headers
forward_headers-oauth claims request target headers oauth h =
    merged_for_oauth (is_foundry target) (is_anthropic_oauth target)
      (build_upstream_headers claims target) request headers (oauth_is_not_foundry target oauth)
      oauth (build-Clean claims target) h
