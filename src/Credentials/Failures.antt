-- ===== src/Credentials/Failures.antt =====
-- A resolution that fails has written no credential row.
use inference_proxy.Prelude.{String, ◌≡◌, refl, none, some, Option, Bool-cases, inl, inr}
use inference_proxy.Prelude.Int.{ℤ, scale, ◌+ℤ◌}
use inference_proxy.Json.{Value, python_int, null, obj, Fields}
use inference_proxy.Credentials.World.{
  Timestamp, File, missing, unreadable, json, World, Credential, err, CredentialError,
}
use inference_proxy.Credentials.Files.{
  Reply, no_reply, token_reply, parsed, as_dict, or_crash, or_no_tokens, post, or_no_access,
  read_json, or_lifetime, expiry_claim, dict_or_new, check_status, read_anthropic_oauth_file,
  read_codex_oauth_tokens, jwt_expiry, refresh_anthropic_token, refresh_openai_token,
  write_codex_tokens, write_file,
}
use inference_proxy.Credentials.Resolve.{
  store_token, renew_anthropic, renew_openai, key_or_token, resolve_secret,
}
use inference_proxy.Credentials.Rules.{
  KeepsRows, IsAtomic, KeepsRows-raise, KeepsRows-pure, KeepsRows-gets, KeepsRows-if, IsAtomic-if,
  IsAtomic-bind, IsAtomic-KeepsRows, keeps_rules,
}

KeepsRows-parsed : (path : String) (f : File) → KeepsRows (parsed path f)
KeepsRows-parsed path missing = search keeps_rules
KeepsRows-parsed path unreadable = search keeps_rules
KeepsRows-parsed path (json v) = search keeps_rules

KeepsRows-as_dict : (v : Value) → KeepsRows (as_dict v)
KeepsRows-as_dict (obj fs) = search keeps_rules
KeepsRows-as_dict _ = search keeps_rules

KeepsRows-or_crash : (o : Option ℤ) → KeepsRows (or_crash o)
KeepsRows-or_crash none = search keeps_rules
KeepsRows-or_crash (some z) = search keeps_rules

KeepsRows-or_no_tokens : (path : String) (o : Option String) → KeepsRows (or_no_tokens path o)
KeepsRows-or_no_tokens path none = search keeps_rules
KeepsRows-or_no_tokens path (some s) = search keeps_rules

KeepsRows-or_no_access : (o : Option String) → KeepsRows (or_no_access o)
KeepsRows-or_no_access none = search keeps_rules
KeepsRows-or_no_access (some s) = search keeps_rules

KeepsRows-dict_or_new : (o : Option Value) → KeepsRows (dict_or_new o)
KeepsRows-dict_or_new none = search keeps_rules
KeepsRows-dict_or_new (some v) = KeepsRows-as_dict v

KeepsRows-or_lifetime : (t : Option Timestamp) (raw : Option Value) → KeepsRows (or_lifetime t raw)
unfolding scale ◌+ℤ◌
KeepsRows-or_lifetime none raw = search (keeps_rules, KeepsRows-or_crash)
KeepsRows-or_lifetime (some t) raw = search keeps_rules

KeepsRows-expiry_claim : (v : Value) → KeepsRows (expiry_claim v)
unfolding python_int scale
KeepsRows-expiry_claim null = search keeps_rules
KeepsRows-expiry_claim _ = search (keeps_rules, KeepsRows-or_crash)

KeepsRows-check_status : (r : Reply) → KeepsRows (check_status r)
KeepsRows-check_status no_reply = search keeps_rules
KeepsRows-check_status (token_reply status none) = search keeps_rules
KeepsRows-check_status (token_reply status (some v)) = search (keeps_rules, KeepsRows-as_dict)

KeepsRows-post : (grant : String → Reply) (r : String) → KeepsRows (post grant r)
KeepsRows-post grant r = record { at = λ w. refl }

KeepsRows-write_file : (path : String) (v : Value) → KeepsRows (write_file path v)
KeepsRows-write_file path v = record {
  at =
      λ w. elim (Bool-cases w.writes) [ inl taken ↦ rw taken refl | inr refused ↦ rw refused refl ];
}

ruleset file_rules = (
  keeps_rules, KeepsRows-parsed, KeepsRows-as_dict, KeepsRows-or_crash, KeepsRows-or_no_tokens,
  KeepsRows-or_no_access, KeepsRows-dict_or_new, KeepsRows-or_lifetime, KeepsRows-expiry_claim,
  KeepsRows-check_status, KeepsRows-post, KeepsRows-write_file,
)

KeepsRows-read_json : (path : String) → KeepsRows (read_json path)
unfolding read_json
KeepsRows-read_json path = search file_rules

KeepsRows-read_anthropic : (path : String) → KeepsRows (read_anthropic_oauth_file path)
unfolding read_anthropic_oauth_file
KeepsRows-read_anthropic path = search (file_rules, KeepsRows-read_json) depth 20

KeepsRows-refresh_anthropic :
    (grant : String → Reply) (r : String) → KeepsRows (refresh_anthropic_token grant r)
unfolding refresh_anthropic_token
KeepsRows-refresh_anthropic grant r = search (file_rules, KeepsRows-or_lifetime none) depth 20

KeepsRows-write_codex :
    (stamp : ℤ → String) (path a : String) (r : Option String)
    → KeepsRows (write_codex_tokens stamp path a r)
unfolding write_codex_tokens
KeepsRows-write_codex stamp path a r = search (file_rules, KeepsRows-read_json) depth 20

module _ (claims : String → Fields) (grant : String → Reply) (stamp : ℤ → String) where
  KeepsRows-jwt_expiry : (token : String) → KeepsRows (jwt_expiry claims token)
  unfolding jwt_expiry
  KeepsRows-jwt_expiry token = search file_rules

  KeepsRows-read_codex : (path : String) → KeepsRows (read_codex_oauth_tokens claims path)
  unfolding read_codex_oauth_tokens
  KeepsRows-read_codex path = search (file_rules, KeepsRows-read_json) depth 20

  KeepsRows-refresh_openai : (r : String) → KeepsRows (refresh_openai_token claims grant r)
  unfolding refresh_openai_token
  KeepsRows-refresh_openai r = search file_rules depth 20

  ruleset token_rules = (
    file_rules, KeepsRows-read_json, KeepsRows-read_anthropic, KeepsRows-read_codex,
    KeepsRows-refresh_anthropic, KeepsRows-refresh_openai, KeepsRows-write_codex,
  )

  IsAtomic-store :
      (cred : Credential) (a : String) (t : Timestamp) → IsAtomic (store_token cred a t)
  unfolding store_token
  IsAtomic-store cred a t = record {
    at = λ w e p. elim (Bool-cases w.commits) [
      | inl taken ↦ cc (rw taken at p)
      | inr refused ↦ rw refused refl
    ];
  }

  IsAtomic-renew_anthropic : (row : Credential) → IsAtomic (renew_anthropic claims grant stamp row)
  unfolding renew_anthropic
  IsAtomic-renew_anthropic row = search (token_rules, IsAtomic-bind, IsAtomic-store) depth 20

  IsAtomic-renew_openai : (row : Credential) → IsAtomic (renew_openai claims grant stamp row)
  unfolding renew_openai
  IsAtomic-renew_openai row = search (token_rules, IsAtomic-bind, IsAtomic-store) depth 20

  ruleset atomic_rules = (
    IsAtomic-KeepsRows, IsAtomic-if, IsAtomic-bind, KeepsRows-pure, KeepsRows-raise, KeepsRows-gets,
    KeepsRows-if, KeepsRows-read_json, KeepsRows-as_dict, IsAtomic-renew_anthropic,
    IsAtomic-renew_openai,
  )

  IsAtomic-key_or_token :
      (cred : Credential) (o : Option String) → IsAtomic (key_or_token claims grant stamp cred o)
  IsAtomic-key_or_token cred none = search atomic_rules depth 20
  IsAtomic-key_or_token cred (some k) = search atomic_rules depth 20

  IsAtomic-resolve : (cred : Option Credential) → IsAtomic (resolve_secret claims grant stamp cred)
  unfolding resolve_secret
  IsAtomic-resolve none = search atomic_rules
  IsAtomic-resolve (some cred) = search (atomic_rules, IsAtomic-key_or_token) depth 20

  -- A resolution that raises, for whatever credential, leaves every row of the credentials table as it
  -- was: over a missing secret or source, a file that cannot be read, parsed or written, a token
  -- endpoint that does not answer, refuses or answers without a usable token, or a failed commit.
  pub resolve-failure :
      (cred : Option Credential) (w : World) (e : CredentialError)
      → (resolve_secret claims grant stamp cred w).0 ≡ err e
      → (resolve_secret claims grant stamp cred w).1.rows ≡ w.rows
  resolve-failure cred w e h = (IsAtomic-resolve cred).at w e h
