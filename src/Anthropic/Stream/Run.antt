-- ===== src/Anthropic/Stream/Run.antt =====
-- app/proxy/chat_to_anthropic.py: the loop over the lines, and what follows it.
use inference_proxy.Prelude.{
  String, Bool, true, false, not, ◌&&◌, ◌||◌, Option, none, some, List, [], ◌∷◌, ◌++◌, ◌==◌,
  if◌then◌else◌,
}
use inference_proxy.Text.{strip, starts_with, drop}
use inference_proxy.Json.{Value, str, obj, Fields, end, field, get, or_value, is_empty_text}
use inference_proxy.Anthropic.Counts.{Usage, usage_to_chat}
use inference_proxy.Anthropic.Stream.State.{
  Chunk, opening, done, counts, error, finish, State, start,
}
use inference_proxy.Anthropic.Stream.Events.{Flow, next, stop, crash, step}

-- How the loop is left: at the end of the lines, by `break`, or by an exception.
pub data Exit : Type 0 where
  ran_out broke raised : Exit

pub record Loop : Type 0 where
  pub state : State
  pub chunks : List Chunk
  pub exit : Exit

-- What the caller receives, and the `error_type` of the metering row.
pub record Ending : Type 0 where
  pub chunks : List Chunk
  pub error_type : Option Value
  pub raised : Bool
  -- `usage_holder`, from which the row is metered
  pub usage : Fields

abbrev dict : Option Value → Option Fields
dict (some (obj fs)) = some fs
dict _ = none

module _ (loads : String → Option Value) where
  abbrev payload : String → Option Fields
  payload text = if is_empty_text text || (text == "[DONE]") then none else dict (loads text)

  -- the event of a line, if it carries one
  unfoldable pub read_event : String → Option Fields
  unfolding strip starts_with drop
  read_event line =
      let stripped = strip line in
      if is_empty_text stripped || not (starts_with stripped "data:")
      then none
      else payload (strip (drop 5 stripped))

  module _ (model : String) where
    abbrev pub after : Flow → (State → Loop) → Loop
    after (next s chunks) go = let l = go s in record l { chunks = chunks ++ l.chunks }
    after (stop s) go = record { state = s; chunks = []; exit = broke }
    after (crash s) go = record { state = s; chunks = []; exit = raised }

    abbrev pub round : Option Fields → State → (State → Loop) → Loop
    round none s go = go s
    round (some event) s go = after (step loads model event s) go

    unfoldable pub loop : Bool → List String → State → Loop
    unfolding step
    loop broken [] s = record { state = s; chunks = []; exit = if broken then raised else ran_out }
    loop broken (line ∷ rest) s = round (read_event line) s (loop broken rest)

abbrev listed : Option Usage → List Chunk
listed none = []
listed (some u) = counts u ∷ []

abbrev name_of : Fields → Value
name_of failed =
    or_value (get "code" failed) (or_value (get "type" failed) (str "upstream_stream_error"))

abbrev truncated : Fields
truncated =
    field "type" (str "api_error")
      (field "message" (str "Upstream stream ended before the turn completed") end)

abbrev reason : State → String
reason s = if s.saw_tool_use && (s.finish_reason == "stop") then "tool_calls" else s.finish_reason

-- An `error` that is no dict has no `.get`: the exception leaves `outcome` without a name.
unfoldable pub on_failure : State → Value → Ending
unfolding get usage_to_chat
on_failure s (obj failed) = record {
  chunks = listed (usage_to_chat s.captured) ++ error failed ∷ [];
  error_type = some (name_of failed);
  raised = false;
  usage = s.captured;
}
on_failure s _ = record { chunks = []; error_type = none; raised = true; usage = s.captured }

unfoldable pub on_end : State → Ending
unfolding usage_to_chat
on_end s =
    if s.ended
    then record {
      chunks = finish (reason s) (usage_to_chat s.captured) ∷ done ∷ [];
      error_type = none;
      raised = false;
      usage = s.captured;
    }
    else record {
      chunks = listed (usage_to_chat s.captured) ++ error truncated ∷ [];
      error_type = some (str "upstream_stream_truncated");
      raised = false;
      usage = s.captured;
    }

abbrev or_end : Option Value → State → Ending
or_end none s = on_end s
or_end (some failed) s = on_failure s failed

unfoldable pub conclude : Exit → State → Ending
unfolding on_end on_failure
conclude raised s = record {
  chunks = [];
  error_type = some (str "upstream_stream_aborted");
  raised = true;
  usage = s.captured;
}
conclude _ s = or_end s.failed s

unfoldable pub stream : (String → Option Value) → String → List String → Bool → Ending
unfolding loop conclude
stream loads model lines broken =
    let l = loop loads model broken lines start in
    let e = conclude l.exit l.state in record e { chunks = opening ∷ l.chunks ++ e.chunks }
