-- ===== src/Deployments/Listing.antt =====
-- app/deployments.py: `listing_for` and `effort_levels`. `rows` is the models table in the order of
-- the query, by name; the time stamp of the entries is left out.
use inference_proxy.Prelude.{
  String, Bool, true, false, ◌&&◌, ◌||◌, not, Option, none, some, List, [], ◌∷◌, map, ◌==◌,
  if◌then◌else◌, any, keep, is_some,
}
use inference_proxy.Prelude.Int.{ℤ, is_zero}
use inference_proxy.Text.{split, strip}
use inference_proxy.Json.{is_empty_text}
use inference_proxy.Credentials.World.{has_text}
use inference_proxy.Deployments.Registry.{Wire, Provider, Model, visible_to}
use inference_proxy.Deployments.Wires.{
  harness_wires, listed_in, judged_harness, wires_for, offerable_to,
}
use inference_proxy.Deployments.Resolve.{Outcome, found, openai, refuse, unknown_harness}

abbrev is_level : String → Bool
is_level s = not (is_empty_text s)

abbrev column : Option String → String
column none = ""
column (some s) = s

abbrev claude_levels : List String
claude_levels = "low" ∷ "medium" ∷ "high" ∷ "xhigh" ∷ "max" ∷ []

abbrev codex_levels : List String
codex_levels = "minimal" ∷ "low" ∷ "medium" ∷ "high" ∷ "xhigh" ∷ []

abbrev accepted : String → List String
accepted harness =
    if harness == "claude" then claude_levels else if harness == "codex" then codex_levels else []

abbrev narrowed : Option String → List String → List String
narrowed none levels = levels
narrowed (some harness) levels = keep (λ level. any (λ a. level == a) (accepted harness)) levels

-- a model's effort levels in their stored order, narrowed to the words that the harness accepts
unfoldable pub effort_levels : Option String → Option String → List String
unfolding split strip
effort_levels raw harness = narrowed harness (keep is_level (map strip (split b',' (column raw))))

pub record Entry : Type 0 where
  pub id : String
  pub owned_by : String
  pub provider : Option String
  pub provider_label : Option String
  pub label : Option String
  pub description : Option String
  pub wires : List Wire
  pub context_window : Option ℤ
  pub rotation_threshold_percent : ℤ
  pub accepts_images : Option Bool
  pub effort_levels : List String

abbrev or_name : Option String → String
or_name none = ""
or_name (some s) = s

abbrev pub or_harness : Option String → String → String
or_harness none harness = harness
or_harness (some judged) harness = judged

-- whether a harness sees the model on a shape that the model is served on
abbrev pub offered : Model → String → Wire → Bool
offered row harness wire =
    visible_to row (or_harness (judged_harness (some wire) (some harness)) harness)
    && offerable_to row wire harness

abbrev pub wires_offered : Option String → Model → List Wire
wires_offered none row = wires_for row
wires_offered (some harness) row =
    keep (offered row harness) (keep (listed_in (harness_wires harness)) (wires_for row))

abbrev has_window : Option ℤ → Bool
has_window none = false
has_window (some z) = not (is_zero z)

abbrev owner : Option Provider → String
owner none = "proxy"
owner (some p) = p.name

abbrev provider_name : Option Provider → Option String
provider_name none = none
provider_name (some p) = some p.name

abbrev label_of : Option Provider → Option String
label_of none = none
label_of (some p) = if has_text p.label then p.label else some p.name

abbrev entry : Option String → Model → Entry
entry harness row = record {
  id = row.deployment_name;
  owned_by = owner row.provider;
  provider = provider_name row.provider;
  provider_label = label_of row.provider;
  label = row.label;
  description = row.description;
  wires = wires_offered harness row;
  context_window = row.context_window;
  rotation_threshold_percent = row.rotation_threshold_percent;
  accepts_images = row.accepts_images;
  effort_levels = effort_levels row.effort_levels harness;
}

abbrev nonempty : List Wire → Bool
nonempty [] = false
nonempty (w ∷ ws) = true

-- the rows of the query that are listed
abbrev pub is_listed : Option String → Bool → Model → Bool
is_listed harness is_admin row =
    row.enabled
    && (is_admin || not row.admin_only)
    && nonempty (wires_offered harness row)
    && has_window row.context_window

abbrev known_harness : Option String → Bool
known_harness none = true
known_harness (some harness) = is_some (harness_wires harness)

unfoldable pub entries : List Model → Option String → Bool → List Entry
unfolding wires_for judged_harness visible_to offerable_to effort_levels
entries rows harness is_admin = map (entry harness) (keep (is_listed harness is_admin) rows)

unfoldable pub listing_for : List Model → Option String → Bool → Outcome (List Entry)
unfolding entries refuse
listing_for rows harness is_admin =
    if known_harness harness
    then found (entries rows harness is_admin)
    else refuse openai 400 (unknown_harness (or_name harness))
