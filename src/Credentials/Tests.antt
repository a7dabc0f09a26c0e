-- ===== src/Credentials/Tests.antt =====
-- app/credentials.py on concrete worlds.
use inference_proxy.Prelude.{String, true, false, ◌≡◌, refl, none, some, []}
use inference_proxy.Prelude.Int.{ℤ, pos}
use inference_proxy.Json.{Value, int, str, obj, Fields, end, field}
use inference_proxy.Credentials.World.{
  aware, missing, json, World, Credential, no_file, ok, err, is_fresh, outlasts,
}
use inference_proxy.Credentials.Files.{
  Reply, token_reply, read_anthropic_oauth_file, refresh_anthropic_token,
}
use inference_proxy.Credentials.Resolve.{resolve_secret, renew_anthropic}
use inference_proxy.Credentials.Reuse.{resolve_twice}
use inference_proxy.Credentials.Failures.{resolve-failure}

abbrev stale_claude : Credential
stale_claude = record {
  id = 1;
  name = "claude";
  kind = "anthropic_oauth";
  secret = none;
  source_path = some "creds";
  access_token = some "old";
  expires_at = some (aware (pos 100) (pos 0));
  refreshed_at = none;
}

abbrev no_claims : String → Fields
no_claims token = end

abbrev grants : String → Reply
grants token =
    token_reply 200
      (some (obj (field "access_token" (str "new") (field "expires_in" (int (pos 3600)) end))))

abbrev stamped : ℤ → String
stamped t = "now"

abbrev oauth_file : Value
oauth_file = obj (
    field "claudeAiOauth"
      (obj (
        field "accessToken" (str "file")
          (field "refreshToken" (str "r1") (field "expiresAt" (int (pos 5)) end))))
      end)

abbrev claude_world : World
claude_world = record {
  now = pos 1000000000;
  rows = λ i. stale_claude;
  files = λ p. json oauth_file;
  posted = [];
  writes = true;
  commits = true;
}

abbrev empty_world : World
empty_world = record claude_world { files = λ p. missing }

abbrev later_world : World
later_world = (resolve_secret no_claims grants stamped (some stale_claude) claude_world).1

refreshes : (resolve_secret no_claims grants stamped (some stale_claude) claude_world).0 ≡ ok "new"
unfolding resolve_secret is_fresh outlasts renew_anthropic read_anthropic_oauth_file
    refresh_anthropic_token
refreshes = refl

stale : is_fresh (pos 1000000000) stale_claude ≡ false
unfolding is_fresh outlasts
stale = refl

later_stale : is_fresh later_world.now stale_claude ≡ false
unfolding resolve_secret is_fresh outlasts renew_anthropic read_anthropic_oauth_file
    refresh_anthropic_token
later_stale = refl

later_fresh : is_fresh later_world.now (later_world.rows 1) ≡ true
unfolding resolve_secret is_fresh outlasts renew_anthropic read_anthropic_oauth_file
    refresh_anthropic_token
later_fresh = refl

resolve_twice_example :
    resolve_secret no_claims grants stamped (some stale_claude) later_world
    ≡ (ok "new", later_world)
resolve_twice_example =
    resolve_twice no_claims grants stamped stale_claude claude_world later_world "new" refl refl
      stale refl refreshes refl later_stale later_fresh

fails :
    (resolve_secret no_claims grants stamped (some stale_claude) empty_world).0
    ≡ err (no_file "creds")
unfolding resolve_secret is_fresh outlasts renew_anthropic read_anthropic_oauth_file
fails = refl

resolve-failure_example :
    (resolve_secret no_claims grants stamped (some stale_claude) empty_world).1.rows
    ≡ empty_world.rows
resolve-failure_example =
    resolve-failure no_claims grants stamped (some stale_claude) empty_world (no_file "creds") fails
