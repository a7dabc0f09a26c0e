-- ===== src/Anthropic/Stream/Unnamed.antt =====
-- A failure of app/proxy/chat_to_anthropic.py that is told as a text.
use inference_proxy.Prelude.{
  String, Bool, true, false, Option, none, some, List, [], ◌∷◌, ◌≡◌, refl,
}
use inference_proxy.Json.{Value, str, Fields, get, is_empty_text}
use inference_proxy.Overflow.{overflow_message}
use inference_proxy.Anthropic.Stream.State.{opening}
use inference_proxy.Anthropic.Stream.Events.{kind_of, step, on_event}
use inference_proxy.Anthropic.Stream.Run.{read_event, loop, conclude, on_failure, stream}

-- An `error` event whose `error` is a text that names no overflow ends the stream by an exception:
-- where it is the first line, the caller has the opening chunk alone, with no error line, and the
-- metering row is told of no error, whatever follows.
pub text_error_unnamed :
    (loads : String → Option Value) (model line text : String) (rest : List String) (broken : Bool)
    (event : Fields)
    → read_event loads line ≡ some event
    → get "type" event ≡ str "error"
    → get "error" event ≡ str text
    → is_empty_text text ≡ false
    → overflow_message loads (str text) ≡ none
    → let e = stream loads model (line ∷ rest) broken in
      (e.chunks ≡ opening ∷ []) × (e.raised ≡ true) × (e.error_type ≡ none)
unfolding stream loop conclude on_failure step on_event kind_of
text_error_unnamed loads model line text rest broken event read kind told full other =
    rw (read, kind, told, full, other) (refl, refl, refl)
