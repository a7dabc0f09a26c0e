-- ===== src/Responses/Run.antt =====
-- app/proxy/chat_completions.py: the loop of `stream_responses_to_completions` over the lines, and
-- the end of `_stream_via_responses_translation`. `broken` says that the lines end with an exception
-- of the client.
pub mod Numbering
pub mod Ending
use inference_proxy.Prelude.{
  ℕ, String, Bool, true, false, not, Option, none, some, List, [], ◌∷◌, ◌++◌, ◌==◌, if◌then◌else◌,
}
use inference_proxy.Text.{strip, starts_with, drop}
use inference_proxy.Json.{Value, obj, Fields, is_empty_text}
use inference_proxy.Metering.{Scheduled, schedule}
use inference_proxy.Responses.Stream.{
  Chunk, opening, done, error, State, start, Flow, next, fail, crash, step,
}

pub data Line : Type 0 where
  skipped terminator garbled : Line
  carries : Fields → Line

-- How the generator is left: by the terminator, by the `return` after an error, or by an exception.
pub data Exit : Type 0 where
  terminated gave_up raised : Exit

pub record Run : Type 0 where
  pub chunks : List Chunk
  pub state : State
  pub exit : Exit

module _ (loads : String → Option Value) (render : Value → String) where
  abbrev parsed : Option Value → Line
  parsed none = skipped
  parsed (some (obj event)) = carries event
  parsed (some v) = garbled

  abbrev payload : String → Line
  payload data_str = if data_str == "[DONE]" then terminator else parsed (loads data_str)

  unfoldable pub read_line : String → Line
  unfolding strip starts_with drop
  read_line line =
      if is_empty_text (strip line)
      then skipped
      else if starts_with line "event:"
      then skipped
      else if not (starts_with line "data:")
      then skipped
      else payload (strip (drop 5 line))

  abbrev pub finally_done : State → Run
  finally_done s = record { chunks = done ∷ []; state = s; exit = terminated }

  abbrev pub after : Flow → (State → Run) → Run
  after (next s chunks) go = let r = go s in record r { chunks = chunks ++ r.chunks }
  after (fail s failure) go = record { chunks = error failure ∷ []; state = s; exit = gave_up }
  after (crash s) go = record { chunks = []; state = s; exit = raised }

  unfoldable pub round : Line → State → (State → Run) → Run
  unfolding step
  round skipped s go = go s
  round terminator s go = finally_done s
  round garbled s go = record { chunks = []; state = s; exit = raised }
  round (carries event) s go = after (step loads render event s) go

  unfoldable pub run : Bool → List String → State → Run
  unfolding read_line round
  run broken [] s =
      if broken then record { chunks = []; state = s; exit = raised } else finally_done s
  run broken (line ∷ lines) s = round (read_line line) s (run broken lines)

  unfoldable pub stream : Bool → List String → Run
  unfolding run
  stream broken lines = let r = run broken lines start in record r { chunks = opening ∷ r.chunks }

  -- the usage row of the streamed call
  unfoldable pub stream_row : Option (ℕ × ℕ) → Bool → List String → Scheduled
  unfolding stream schedule
  stream_row principal broken lines =
      schedule principal 200 none (stream broken lines).state.usage_holder
