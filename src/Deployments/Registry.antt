-- ===== src/Deployments/Registry.antt =====
-- app/orm.py: the columns of `Provider` and `Model` that routing reads.
use inference_proxy.Prelude.{
  String, Bool, true, not, Option, none, some, List, [], ◌∷◌, map, ◌==◌, if◌then◌else◌, any, keep,
}
use inference_proxy.Prelude.Int.{ℤ}
use inference_proxy.Text.{split, strip, lower}
use inference_proxy.Json.{is_empty_text}
use inference_proxy.Credentials.World.{Credential}

pub data Wire : Type 0 where
  anthropic_messages openai_responses chat_completions systemone : Wire

pub record Provider : Type 0 where
  pub name : String
  pub label : Option String
  pub base_url : String
  pub messages_path : Option String
  pub responses_path : Option String
  pub chat_completions_path : Option String
  pub systemone_path : Option String
  pub credential : Option Credential
  pub api_version : Option String
  pub enabled : Bool

unfoldable pub path_for : Provider → Wire → Option String
path_for p anthropic_messages = p.messages_path
path_for p openai_responses = p.responses_path
path_for p chat_completions = p.chat_completions_path
path_for p systemone = p.systemone_path

pub record Model : Type 0 where
  pub deployment_name : String
  pub label : Option String
  pub description : Option String
  pub target_uri : Option String
  pub credential : Option Credential
  pub provider : Option Provider
  pub harnesses : Option String
  pub api_version : Option String
  pub auth_scheme : String
  pub enabled : Bool
  pub admin_only : Bool
  pub context_window : Option ℤ
  pub rotation_threshold_percent : ℤ
  pub accepts_images : Option Bool
  pub effort_levels : Option String

abbrev is_text_nonempty : String → Bool
is_text_nonempty s = not (is_empty_text s)

abbrev allowed : String → List String
allowed column = keep is_text_nonempty (map (λ part. lower (strip part)) (split b',' column))

abbrev allows : List String → String → Bool
allows [] harness = true
allows (h ∷ hs) harness = any (λ name. lower (strip harness) == name) (h ∷ hs)

abbrev visible : Option String → String → Bool
visible none harness = true
visible (some column) harness =
    if is_empty_text column then true else allows (allowed column) harness

-- An unset list means every harness.
unfoldable pub visible_to : Model → String → Bool
unfolding split strip lower
visible_to row harness = visible row.harnesses harness
