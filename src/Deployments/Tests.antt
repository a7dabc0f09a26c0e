-- ===== src/Deployments/Tests.antt =====
-- Two models of app/deployments.py: one on a URI of its own, and one of a provider.
use inference_proxy.Prelude.{
  String, true, false, not, ◌&&◌, none, some, List, [], ◌∷◌, ◌≡◌, refl, any, is_some, inl,
}
use inference_proxy.Prelude.Int.{ℤ, pos}
use inference_proxy.Json.{Fields, end}
use inference_proxy.Credentials.World.{World, Credential, missing, has_text}
use inference_proxy.Credentials.Files.{Reply, token_reply}
use inference_proxy.Credentials.Resolve.{text_or_empty}
use inference_proxy.Deployments.Registry.{
  anthropic_messages, chat_completions, Provider, Model, visible_to,
}
use inference_proxy.Deployments.Wires.{
  resolve_target_uri, wires_for, same_wire, offerable_to, judged_harness, uri_serves,
}
use inference_proxy.Deployments.Resolve.{
  openai, anthropic, resolve_deployment, secret_or_error, target_for, reject_wrong_protocol,
}
use inference_proxy.Deployments.Hidden.{without, hidden_as_absent}
use inference_proxy.Deployments.Offered.{offered_is_served}
use inference_proxy.Deployments.Shapes.{uri_on, own_uri_accepted, attached_uri_refused}

abbrev key : Credential
key = record {
  id = 1;
  name = "key";
  kind = "static";
  secret = some "sk";
  source_path = none;
  access_token = none;
  expires_at = none;
  refreshed_at = none;
}

abbrev provider : Provider
provider = record {
  name = "local";
  label = none;
  base_url = "http://box";
  messages_path = some "/api/messages";
  responses_path = none;
  chat_completions_path = none;
  systemone_path = none;
  credential = some key;
  api_version = none;
  enabled = true;
}

abbrev own : Model
own = record {
  deployment_name = "opus";
  label = none;
  description = none;
  target_uri = some "https://api.anthropic.com/v1/messages";
  credential = some key;
  provider = none;
  harnesses = none;
  api_version = none;
  auth_scheme = "x_api_key";
  enabled = true;
  admin_only = false;
  context_window = some (pos 200000);
  rotation_threshold_percent = pos 80;
  accepts_images = none;
  effort_levels = none;
}

abbrev attached : Model
attached = record own {
  deployment_name = "local";
  target_uri = none;
  provider = some provider;
  admin_only = true;
}

abbrev table : List Model
table = own ∷ attached ∷ []

abbrev no_claims : String → Fields
no_claims token = end

abbrev grants : String → Reply
grants token = token_reply 500 none

abbrev stamped : ℤ → String
stamped t = "now"

abbrev world : World
world = record {
  now = pos 0;
  rows = λ i. key;
  files = λ p. missing;
  posted = [];
  writes = true;
  commits = true;
}

hidden_as_absent_example :
    resolve_deployment no_claims grants stamped table
      (some "local")
      openai
      false
      (some anthropic_messages)
      none
      world
    ≡ resolve_deployment no_claims grants stamped
        (without "local" table)
        (some "local")
        openai
        false
        (some anthropic_messages)
        none
        world
hidden_as_absent_example =
    hidden_as_absent no_claims grants stamped table "local" openai false (some anthropic_messages)
      none world attached refl refl

offered_is_served_example :
    resolve_deployment no_claims grants stamped table
      (some "opus")
      anthropic
      false
      (some anthropic_messages)
      none
      world
    ≡ secret_or_error no_claims grants stamped anthropic "opus" own
        (text_or_empty (resolve_target_uri own (some anthropic_messages)))
        world
unfolding wires_for visible_to offerable_to judged_harness
offered_is_served_example =
    offered_is_served no_claims grants stamped table own anthropic false anthropic_messages "claude"
      none world (inl refl) ((refl, tt), (tt, tt)) refl refl refl refl

own_uri_accepted_example : any (same_wire chat_completions) (wires_for own) ≡ (
    has_text (resolve_target_uri own (some chat_completions))
    && not (
        is_some (
          reject_wrong_protocol openai
            (target_for own (uri_on own chat_completions) "sk")
            chat_completions)))
own_uri_accepted_example = own_uri_accepted own chat_completions openai "sk" refl refl

attached_uri_refused_example :
    (any (same_wire anthropic_messages) (wires_for attached) ≡ true)
    × (is_some (
          reject_wrong_protocol anthropic
            (target_for attached (uri_on attached anthropic_messages) "sk")
            anthropic_messages)
        ≡ true)
unfolding resolve_target_uri uri_serves
attached_uri_refused_example =
    attached_uri_refused attached anthropic_messages anthropic "sk" refl refl refl refl
