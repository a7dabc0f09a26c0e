-- ===== src/Deployments/Wires.antt =====
-- app/deployments.py: harnesses, request shapes, and where a request of a shape is sent.
use Prim.Native.String
use inference_proxy.Prelude.{
  String, Bool, true, false, ◌&&◌, ◌||◌, not, Option, none, some, List, [], ◌∷◌, ◌==◌,
  if◌then◌else◌, any, keep,
}
use inference_proxy.Text.{strip, lower, strip_end_slash, strip_start_slash}
use inference_proxy.Credentials.World.{has_text}
use inference_proxy.Credentials.Resolve.{text_or_empty}
use inference_proxy.Deployments.Registry.{
  Wire, anthropic_messages, openai_responses, chat_completions, systemone, Provider, Model,
  path_for,
}
use inference_proxy.Deployments.Target.{
  is_anthropic_messages, is_openai_responses, is_native_chat_completions,
}

abbrev pub harness_for_wire : Wire → Option String
harness_for_wire anthropic_messages = some "claude"
harness_for_wire openai_responses = some "codex"
harness_for_wire chat_completions = some "codex"
harness_for_wire systemone = none

abbrev pub all_wires : List Wire
all_wires = anthropic_messages ∷ openai_responses ∷ chat_completions ∷ []

abbrev pub harness_wires : String → Option (List Wire)
harness_wires harness =
    if harness == "claude"
    then some (anthropic_messages ∷ [])
    else if harness == "codex"
    then some (openai_responses ∷ chat_completions ∷ [])
    else if harness == "dsh"
    then some (chat_completions ∷ [])
    else if harness == "hermes"
    then some all_wires
    else none

abbrev pub same_wire : Wire → Wire → Bool
same_wire anthropic_messages anthropic_messages = true
same_wire openai_responses openai_responses = true
same_wire chat_completions chat_completions = true
same_wire systemone systemone = true
same_wire _ _ = false

abbrev pub listed_in : Option (List Wire) → Wire → Bool
listed_in none wire = false
listed_in (some wires) wire = any (same_wire wire) wires

abbrev pub declared_harnesses : List String
declared_harnesses = "dsh" ∷ []

abbrev judged_on : String → Wire → Option String
judged_on name wire =
    if any (λ h. name == h) declared_harnesses && listed_in (harness_wires name) wire
    then some name
    else harness_for_wire wire

-- the harness a request on a wire is judged as
unfoldable pub judged_harness : Option Wire → Option String → Option String
unfolding strip lower
judged_harness none declared = none
judged_harness (some wire) declared = judged_on (lower (strip (text_or_empty declared))) wire

-- `a or b` of two optional texts
abbrev or_text : Option String → Option String → Option String
or_text a b = if has_text a then a else b

abbrev join_path : String → String → String
join_path base path = String.◌++◌ (strip_end_slash base) (String.◌++◌ "/" (strip_start_slash path))

abbrev stand_in : Provider → Wire → Option String
stand_in p chat_completions = or_text p.responses_path p.messages_path
stand_in p _ = none

abbrev present_or : Option String → Option String → Option String
present_or none o = o
present_or (some path) o = some path

abbrev path_of : Provider → Option Wire → Option String
path_of p none = or_text p.messages_path (or_text p.responses_path p.chat_completions_path)
path_of p (some wire) = present_or (path_for p wire) (stand_in p wire)

abbrev joined : String → Option String → Option String
joined base none = none
joined base (some path) = some (join_path base path)

abbrev provider_uri : Provider → Option Wire → Option String
provider_uri p wire = if p.enabled then joined p.base_url (path_of p wire) else none

abbrev uri_for : Option Provider → Option String → Option Wire → Option String
uri_for none target wire = target
uri_for (some p) target wire = provider_uri p wire

unfoldable pub resolve_target_uri : Model → Option Wire → Option String
unfolding path_for strip_end_slash strip_start_slash
resolve_target_uri row wire = uri_for row.provider row.target_uri wire

abbrev serves : String → Wire → Bool
serves uri anthropic_messages = is_anthropic_messages uri
serves uri openai_responses = is_openai_responses uri
serves uri chat_completions =
    is_openai_responses uri || is_native_chat_completions uri || is_anthropic_messages uri
serves uri systemone = false

-- whether a stored URI answers requests of a shape
unfoldable pub uri_serves : Option String → Wire → Bool
unfolding is_anthropic_messages is_openai_responses is_native_chat_completions
uri_serves uri wire = if has_text uri then serves (text_or_empty uri) wire else false

abbrev pub is_attached : Option Provider → Bool
is_attached none = false
is_attached (some p) = true

abbrev pub is_served : Model → Wire → Bool
is_served row wire =
    has_text (resolve_target_uri row (some wire))
    && (is_attached row.provider || uri_serves (resolve_target_uri row (some wire)) wire)

-- every request shape this model can be reached on
unfoldable pub wires_for : Model → List Wire
unfolding resolve_target_uri uri_serves
wires_for row = keep (is_served row) all_wires

abbrev is_chat : Wire → Bool
is_chat chat_completions = true
is_chat _ = false

unfoldable pub offerable_to : Model → Wire → String → Bool
unfolding resolve_target_uri is_anthropic_messages
offerable_to row wire harness =
    if is_chat wire && (harness == "codex")
    then not (is_anthropic_messages (text_or_empty (resolve_target_uri row (some wire))))
    else true
