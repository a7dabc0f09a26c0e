-- ===== src/Credentials/Files.antt =====
-- app/credentials.py: the credential files, the payload of a token, and the token endpoints.
use inference_proxy.Prelude.{ℕ, String, Option, none, some, ◌==◌, eqb, if◌then◌else◌, ◌∷◌}
use inference_proxy.Prelude.Int.{ℤ, pos, ◌+ℤ◌, scale}
use inference_proxy.Json.{
  Value, null, str, obj, Fields, end, get, lookup, put, or_value, fields_of, is_empty_text, truthy,
  python_int,
}
use inference_proxy.Credentials.World.{
  Timestamp, aware, File, missing, unreadable, json, ok, err, Exec, ◌>>=◌, pure, raise, gets, crash,
  no_file, file_unreadable, no_tokens, no_access_token, refresh_failed,
}

abbrev pub text_of : Value → Option String
text_of (str s) = if is_empty_text s then none else some s
text_of _ = none

abbrev pub parsed : String → File → Exec Value
parsed path missing = raise (no_file path)
parsed path unreadable = raise (file_unreadable path)
parsed path (json v) = pure v

unfoldable pub read_json : String → Exec Value
read_json path = do file ← gets (λ w. w.files path); parsed path file

-- a call of `.get`, which a value that is no dict does not have
abbrev pub as_dict : Value → Exec Fields
as_dict (obj fs) = pure fs
as_dict _ = raise crash

abbrev pub or_crash : Option ℤ → Exec ℤ
or_crash none = raise crash
or_crash (some z) = pure z

abbrev pub or_no_tokens : String → Option String → Exec String
or_no_tokens path none = raise (no_tokens path)
or_no_tokens path (some s) = pure s

-- access token, refresh token and expiry
pub record Tokens : Type 0 where
  pub access : String
  pub refresh : String
  pub expires_at : Option Timestamp

-- the instant so many `unit`s after the epoch, as an aware UTC datetime
abbrev pub utc : ℕ → ℤ → Timestamp
utc unit n = aware (scale n unit) (pos 0)

-- `int(raw) / 1000` seconds, in microseconds, where the entry is there
abbrev expiry_of : Value → Exec (Option Timestamp)
expiry_of raw =
    if truthy raw then (do n ← or_crash (python_int raw); pure (some (utc 1000 n))) else pure none

unfoldable pub read_anthropic_oauth_file : String → Exec Tokens
unfolding read_json get scale python_int
read_anthropic_oauth_file path = do
  blob ← read_json path
  top ← as_dict blob
  oauth ← as_dict (or_value (get "claudeAiOauth" top) blob)
  access ← or_no_tokens path (text_of (get "accessToken" oauth))
  refresh ← or_no_tokens path (text_of (get "refreshToken" oauth))
  expires_at ← expiry_of (get "expiresAt" oauth)
  pure (record { access = access; refresh = refresh; expires_at = expires_at })

-- What a token endpoint answers to a refresh token: a status with a body as JSON, `none` where it is
-- none, or nothing, where the HTTP client raises.
pub data Reply : Type 0 where
  no_reply : Reply
  token_reply : ℕ → Option Value → Reply

abbrev pub post : (String → Reply) → String → Exec Reply
post grant refresh w = (ok (grant refresh), record w { posted = refresh ∷ w.posted })

abbrev pub or_no_access : Option String → Exec String
or_no_access none = raise no_access_token
or_no_access (some s) = pure s

abbrev pub or_an_hour : Option Value → Option ℤ
or_an_hour none = some (pos 3600)
or_an_hour (some v) = python_int v

-- `int(body.get("expires_in", 3600))` seconds from now
abbrev pub lifetime : Option Value → Exec Timestamp
lifetime raw = do
  n ← or_crash (or_an_hour raw)
  now ← gets (λ w. w.now)
  pure (aware (now +ℤ scale n 1000000) (pos 0))

-- `resp.json()`, whose `.get` is called next
abbrev pub json_body : Option Value → Exec Fields
json_body none = raise crash
json_body (some v) = as_dict v

abbrev pub check_status : Reply → Exec Fields
check_status no_reply = raise crash
check_status (token_reply status body) =
    if eqb status 200 then json_body body else raise (refresh_failed status)

unfoldable pub refresh_anthropic_token : (String → Reply) → String → Exec (String × Timestamp)
unfolding get lookup python_int scale ◌+ℤ◌
refresh_anthropic_token grant refresh = do
  reply ← post grant refresh
  body ← check_status reply
  access ← or_no_access (text_of (get "access_token" body))
  expires_at ← lifetime (lookup "expires_in" body)
  pure (access, expires_at)

-- `int(exp)` seconds after the epoch; no `exp` claim is no expiry
abbrev pub expiry_claim : Value → Exec (Option Timestamp)
expiry_claim null = pure none
expiry_claim exp = do n ← or_crash (python_int exp); pure (some (utc 1000000 n))

abbrev pub or_lifetime : Option Timestamp → Option Value → Exec Timestamp
or_lifetime none raw = lifetime raw
or_lifetime (some t) raw = pure t

module _ (claims : String → Fields) where
  unfoldable pub jwt_expiry : String → Exec (Option Timestamp)
  unfolding get scale python_int
  jwt_expiry token = expiry_claim (get "exp" (claims token))

  unfoldable pub codex_account_id : String → Option String
  unfolding get
  codex_account_id token =
      text_of
        (get "chatgpt_account_id" (fields_of (get "https://api.openai.com/auth" (claims token))))

  unfoldable pub read_codex_oauth_tokens : String → Exec Tokens
  unfolding read_json get jwt_expiry
  read_codex_oauth_tokens path = do
    blob ← read_json path
    top ← as_dict blob
    held ← as_dict (or_value (get "tokens" top) (obj end))
    access ← or_no_tokens path (text_of (get "access_token" held))
    refresh ← or_no_tokens path (text_of (get "refresh_token" held))
    expires_at ← jwt_expiry access
    pure (record { access = access; refresh = refresh; expires_at = expires_at })

  -- the access token, the refresh token if it was rotated, and the expiry
  unfoldable pub refresh_openai_token :
      (String → Reply) → String → Exec (String × Option String × Timestamp)
  unfolding get lookup jwt_expiry python_int scale ◌+ℤ◌
  refresh_openai_token grant refresh = do
    reply ← post grant refresh
    body ← check_status reply
    access ← or_no_access (text_of (get "access_token" body))
    claimed ← jwt_expiry access
    expires_at ← or_lifetime claimed (lookup "expires_in" body)
    pure (access, text_of (get "refresh_token" body), expires_at)

abbrev rotated : Option String → Fields → Fields
rotated none held = held
rotated (some r) held = put "refresh_token" (str r) held

-- the file's contents after a refresh
abbrev pub rewritten : String → String → Option String → Fields → Fields → Value
rewritten at access refresh held top = obj (
    put "last_refresh" (str at)
      (put "tokens" (obj (rotated refresh (put "access_token" (str access) held))) top))

-- `blob.setdefault("tokens", {})`
abbrev pub dict_or_new : Option Value → Exec Fields
dict_or_new none = pure end
dict_or_new (some v) = as_dict v

abbrev pub write_file : String → Value → Exec (Unit {0})
write_file path v w =
    if w.writes
    then (ok tt, record w { files = λ p. if path == p then json v else w.files p })
    else (err crash, w)

unfoldable pub write_codex_tokens : (ℤ → String) → String → String → Option String → Exec (Unit {0})
unfolding read_json lookup put
write_codex_tokens stamp path access refresh = do
  blob ← read_json path
  top ← as_dict blob
  held ← dict_or_new (lookup "tokens" top)
  now ← gets (λ w. w.now)
  write_file path (rewritten (stamp now) access refresh held top)
