-- ===== src/Completions/Tests.antt =====
-- A setting with one native chat model, for the chat route of app/proxy/chat_completions.py.
use inference_proxy.Prelude.{true, false, none, some, [], ◌∷◌, ◌≡◌, refl}
use inference_proxy.Prelude.Int.{pos}
use inference_proxy.Json.{null, bool, int, str, obj, Fields, end, field}
use inference_proxy.Auth.{Cache, validate_api_key}
use inference_proxy.Metering.{Scheduled, inserted}
use inference_proxy.Credentials.World.{World, Credential, missing}
use inference_proxy.Credentials.Files.{token_reply}
use inference_proxy.Deployments.Registry.{Model}
use inference_proxy.Deployments.Target.{DeploymentTarget}
use inference_proxy.Completions.Entry.{
  no_connection, Setting, Request, dispatch, handle_completions,
}
use inference_proxy.Completions.Rows.{IsMetered}
use inference_proxy.Completions.Metered.{dispatch-IsMetered}
use inference_proxy.Completions.Guards.{IsResolved, handle_completions-row}

abbrev key : Credential
key = record {
  id = 1;
  name = "key";
  kind = "static";
  secret = some "sk";
  source_path = none;
  access_token = none;
  expires_at = none;
  refreshed_at = none;
}

abbrev kimi : Model
kimi = record {
  deployment_name = "kimi";
  label = none;
  description = none;
  target_uri = some "https://box/v1/chat/completions";
  credential = some key;
  provider = none;
  harnesses = none;
  api_version = none;
  auth_scheme = "bearer";
  enabled = true;
  admin_only = false;
  context_window = some (pos 200000);
  rotation_threshold_percent = pos 80;
  accepts_images = none;
  effort_levels = none;
}

abbrev cache : Cache
cache = record {
  key_hashes = "k" ∷ [];
  key_lookup = ("k", record { client_id = 3; key_id = 5; privileged = false }) ∷ [];
}

abbrev setting : Setting
setting = record {
  sha256 = λ s. s;
  claims = λ token. end;
  grant = λ token. token_reply 500 none;
  stamp = λ t. "now";
  decimal = λ n. "500";
  loads = λ s. none;
  dumps = λ v. "{}";
  render = λ v. "None";
  mint = λ i j. "call";
  fresh = "f";
  created = int (pos 0);
  asked_for = λ v. none;
  explain = λ name r. "cannot";
  post = λ url headers sent streams. no_connection;
  enable_streaming = true;
  cache = cache;
  rows = kimi ∷ [];
}

abbrev world : World
world = record {
  now = pos 0;
  rows = λ i. key;
  files = λ p. missing;
  posted = [];
  writes = true;
  commits = true;
}

abbrev body : Fields
body = field "model" (str "kimi") (field "stream" (bool true) end)

abbrev request : Request
request = record {
  authorization = none;
  api_key = some "k";
  deployment_override = none;
  harness = none;
  body = some (obj body);
}

abbrev row : Scheduled
row = inserted (record {
  client_id = 3;
  key_id = 5;
  status_code = 502;
  error_type = some (str "connect_error");
  tokens = record {
    input_tokens = null;
    output_tokens = null;
    total_tokens = null;
    cache_creation_input_tokens = null;
    cache_read_input_tokens = null;
  };
})

handle_completions-row_example :
    (validate_api_key setting.sha256 setting.cache request.authorization request.api_key ≡ true)
    × IsResolved setting request world
unfolding handle_completions
handle_completions-row_example = handle_completions-row setting request world row refl

abbrev target : DeploymentTarget
target = record {
  name = "kimi";
  target_uri = "https://box/v1/chat/completions";
  api_key = "sk";
  api_version = none;
  auth_scheme = "bearer";
  credential_kind = "static";
}

dispatch-IsMetered_example :
    IsMetered (some (3, 5)) (dispatch setting (some (3, 5)) target body (bool true))
dispatch-IsMetered_example = dispatch-IsMetered setting (some (3, 5)) target body (bool true)
