-- ===== src/Credentials/Resolve.antt =====
-- app/credentials.py: `resolve_secret`.
use inference_proxy.Prelude.{String, ◌==◌, Option, none, some, not, if◌then◌else◌}
use inference_proxy.Prelude.Int.{ℤ, pos}
use inference_proxy.Json.{Fields, get}
use inference_proxy.Credentials.World.{
  Timestamp, Credential, ok, err, crash, Exec, ◌>>=◌, ◌>>◌, pure, raise, gets, no_credential,
  no_secret, no_source, unknown_kind, has_text, outlasts, is_fresh, update,
}
use inference_proxy.Credentials.Files.{
  Tokens, Reply, read_json, as_dict, text_of, read_anthropic_oauth_file, read_codex_oauth_tokens,
  refresh_anthropic_token, refresh_openai_token, write_codex_tokens,
}

abbrev pub text_or_empty : Option String → String
text_or_empty none = ""
text_or_empty (some s) = s

-- `session.refresh`: the row as the database has it
abbrev pub reload : Credential → Exec Credential
reload cred = gets (λ w. w.rows cred.id)

abbrev pub stored : ℤ → Credential → String → Timestamp → Credential
stored now cred access expires_at = record cred {
  access_token = some access;
  expires_at = some expires_at;
  refreshed_at = some (Timestamp.aware now (pos 0));
}

-- the cached token, its expiry and the time of the refresh, committed
unfoldable pub store_token : Credential → String → Timestamp → Exec String
store_token cred access expires_at w =
    if w.commits
    then (
      ok access,
      record w { rows = update w.rows cred.id (stored w.now cred access expires_at) },
    )
    else (err crash, w)

abbrev pub require_source : Credential → Exec String
require_source cred =
    if has_text cred.source_path
    then pure (text_or_empty cred.source_path)
    else raise (no_source cred.name)

abbrev pub or_now : ℤ → Option Timestamp → Timestamp
or_now now none = Timestamp.aware now (pos 0)
or_now now (some t) = t

-- what is done under the credential's lock: the row is read again before a token is asked for
abbrev pub under_lock : Credential → (Credential → Exec String) → Exec String
under_lock cred renew = do
  row ← reload cred
  now ← gets (λ w. w.now)
  if is_fresh now row then pure (text_or_empty row.access_token) else renew row

module _ (claims : String → Fields) (grant : String → Reply) (stamp : ℤ → String) where
  -- `access, expires_at` of a file that is still good, or of a refresh
  abbrev pub anthropic_token : ℤ → Tokens → Exec (String × Timestamp)
  anthropic_token now tokens =
      if outlasts now tokens.expires_at
      then pure (tokens.access, or_now now tokens.expires_at)
      else refresh_anthropic_token grant tokens.refresh

  unfoldable pub renew_anthropic : Credential → Exec String
  unfolding store_token
  renew_anthropic row = do
    tokens ← read_anthropic_oauth_file (text_or_empty row.source_path)
    now ← gets (λ w. w.now)
    found ← anthropic_token now tokens
    store_token row found.0 found.1

  abbrev pub openai_token : ℤ → String → Tokens → Exec (String × Timestamp)
  openai_token now path tokens =
      if outlasts now tokens.expires_at
      then pure (tokens.access, or_now now tokens.expires_at)
      else do
        found ← refresh_openai_token claims grant tokens.refresh
        write_codex_tokens stamp path found.0 found.1
        pure (found.0, found.2)

  unfoldable pub renew_openai : Credential → Exec String
  unfolding store_token
  renew_openai row = do
    let path = text_or_empty row.source_path
    tokens ← read_codex_oauth_tokens claims path
    now ← gets (λ w. w.now)
    found ← openai_token now path tokens
    store_token row found.0 found.1

  abbrev pub key_or_token : Credential → Option String → Exec String
  key_or_token cred none = under_lock cred renew_openai
  key_or_token cred (some key) = pure key

  unfoldable pub resolve_openai_oauth : Credential → Exec String
  unfolding get read_json
  resolve_openai_oauth cred = do
    path ← require_source cred
    now ← gets (λ w. w.now)
    if is_fresh now cred then pure (text_or_empty cred.access_token) else do
      blob ← read_json path
      top ← as_dict blob
      key_or_token cred (text_of (get "OPENAI_API_KEY" top))

  unfoldable pub resolve_anthropic_oauth : Credential → Exec String
  resolve_anthropic_oauth cred =
      if has_text cred.secret then pure (text_or_empty cred.secret) else do
        now ← gets (λ w. w.now)
        if is_fresh now cred
            then pure (text_or_empty cred.access_token)
            else do require_source cred; under_lock cred renew_anthropic

  unfoldable pub resolve_static : Credential → Exec String
  resolve_static cred =
      if has_text cred.secret then pure (text_or_empty cred.secret) else raise (no_secret cred.name)

  unfoldable pub resolve_secret : Option Credential → Exec String
  unfolding resolve_static resolve_openai_oauth resolve_anthropic_oauth
  resolve_secret none = raise no_credential
  resolve_secret (some cred) =
      if cred.kind == "static"
      then resolve_static cred
      else if cred.kind == "openai_oauth"
      then resolve_openai_oauth cred
      else if not (cred.kind == "anthropic_oauth")
      then raise (unknown_kind cred.kind)
      else resolve_anthropic_oauth cred
