-- ===== src/Anthropic/Stream/Terminator.antt =====
-- When the stream of app/proxy/chat_to_anthropic.py says that the turn is complete. The events are
-- described here by themselves, without the loop's variables.
use inference_proxy.Prelude.{
  String, Bool, true, false, not, ◌&&◌, ◌||◌, Option, none, some, List, [], ◌∷◌, ◌≡◌, refl, arith,
  if◌then◌else◌, any, all, any-append, is_some, ◌⊎◌, inl, inr,
}
use inference_proxy.Json.{Value, obj, Fields, get, is_text, is_object, truthy}
use inference_proxy.Anthropic.Stream.State.{
  Chunk, done, error, finish, State, hashable, record_usage,
}
use inference_proxy.Anthropic.Stream.Events.{
  Kind, message_start, content_block_start, content_block_delta, message_delta, message_stop, other,
  Flow, next, stop, crash, kind_of, part, with_dict, context_overflow_stop, on_event, step,
  on_delta, delta_kind, DeltaKind, input_json_delta, text_delta, thinking_delta, other_delta,
  on_stop_reason,
}
use inference_proxy.Anthropic.Stream.Run.{
  ran_out, broke, raised, Loop, read_event, loop, after, round,
}

abbrev pub is_done : Chunk → Bool
is_done done = true
is_done _ = false

abbrev pub is_terminal : Chunk → Bool
is_terminal done = true
is_terminal (error e) = true
is_terminal (finish r u) = true
is_terminal _ = false

abbrev pub fields : Value → Fields
fields (obj fs) = fs
fields _ = Fields.end

unfoldable pub stop_reason : Fields → Value
unfolding get
stop_reason event = get "stop_reason" (fields (part "delta" event))

abbrev pub ends_kind : Kind → Fields → Bool
ends_kind message_stop event = true
ends_kind message_delta event = truthy (stop_reason event)
ends_kind _ event = false

-- an event that ends a turn
unfoldable pub ends : Fields → Bool
unfolding get stop_reason kind_of
ends event = ends_kind (kind_of (get "type" event)) event

abbrev pub fails_kind : Kind → Fields → Bool
fails_kind Kind.error event = true
fails_kind message_delta event =
    is_object (part "delta" event) && is_text context_overflow_stop (stop_reason event)
fails_kind _ event = false

-- an event that reports a failure
unfoldable pub fails : Fields → Bool
unfolding get stop_reason kind_of
fails event = fails_kind (kind_of (get "type" event)) event

abbrev pub is_json : DeltaKind → Bool
is_json input_json_delta = true
is_json _ = false

abbrev pub malformed_kind : Kind → Fields → Bool
malformed_kind message_start event = not (is_object (part "message" event))
malformed_kind content_block_start event =
    not (is_object (part "content_block" event))
    || (is_text "tool_use" (get "type" (fields (part "content_block" event)))
        && not (hashable (get "index" event)))
malformed_kind content_block_delta event =
    not (is_object (part "delta" event))
    || (is_json (delta_kind (get "type" (fields (part "delta" event))))
        && not (hashable (get "index" event)))
malformed_kind message_delta event =
    not (is_object (part "delta" event))
    || (truthy (stop_reason event) && not (hashable (stop_reason event)))
malformed_kind _ event = false

-- an event of a shape on which the code raises
unfoldable pub malformed : Fields → Bool
unfolding get stop_reason kind_of
malformed event = malformed_kind (kind_of (get "type" event)) event

abbrev pub Classified : Kind → Fields → State → Flow → Type 0
Classified k event s (next t chunks) =
    (malformed_kind k event ≡ false)
    × (fails_kind k event ≡ false)
    × (t.failed ≡ s.failed)
    × (t.ended ≡ (s.ended || ends_kind k event))
    × (any is_terminal chunks ≡ false)
Classified k event s (stop t) = (fails_kind k event ≡ true) × (is_some t.failed ≡ true)
Classified k event s (crash t) = malformed_kind k event ≡ true

record_usage_keeps :
    (v : Value) (s : State)
    → ((record_usage v s).failed ≡ s.failed) × ((record_usage v s).ended ≡ s.ended)
unfolding record_usage
record_usage_keeps (obj fs) s = (refl, refl)
record_usage_keeps _ s = (refl, refl)

pub with_dict_cases :
    (P : Flow → Type 0) (v : Value) (s : State) (k : Fields → Flow)
    → ((fs : Fields) → v ≡ obj fs → P (k fs))
    → (is_object v ≡ false → P (crash s))
    → P (with_dict v s k)
with_dict_cases P (obj fs) s k h g = h fs refl
with_dict_cases P _ s k h g = g refl

module _ (loads : String → Option Value) (model : String) (event : Fields) (s : State) where
  classify_start : Classified message_start event s (on_event loads model message_start event s)
  unfolding on_event
  classify_start =
      with_dict_cases (Classified message_start event s) (part "message" event) s _
        (λ fs e. ground (arith, record_usage_keeps (get "usage" fs) s)) (λ e. ground arith)

  classify_block :
      Classified content_block_start event s (on_event loads model content_block_start event s)
  unfolding on_event
  classify_block =
      with_dict_cases (Classified content_block_start event s) (part "content_block" event) s _
        (λ fs e. ground arith) (λ e. ground arith)

  classify_delta_kind :
      (fs : Fields)
      → part "delta" event ≡ obj fs
      → (d : DeltaKind) → delta_kind (get "type" fs) ≡ d
      → Classified content_block_delta event s (on_delta d event fs s)
  unfolding on_delta
  classify_delta_kind fs e text_delta h = ground arith
  classify_delta_kind fs e thinking_delta h = ground arith
  classify_delta_kind fs e input_json_delta h = ground arith
  classify_delta_kind fs e other_delta h = ground arith

  classify_reason :
      (fs : Fields)
      → part "delta" event ≡ obj fs
      → (t : State) → t.failed ≡ s.failed
      → t.ended ≡ s.ended
      → Classified message_delta event s (on_stop_reason model (get "stop_reason" fs) t)
  unfolding on_stop_reason stop_reason
  classify_reason fs e t f n = ground arith

  classify_delta :
      Classified content_block_delta event s (on_event loads model content_block_delta event s)
  unfolding on_event
  classify_delta =
      with_dict_cases (Classified content_block_delta event s) (part "delta" event) s _
        (λ fs e. classify_delta_kind fs e (delta_kind (get "type" fs)) refl) (λ e. ground arith)

  classify_message : Classified message_delta event s (on_event loads model message_delta event s)
  unfolding on_event stop_reason
  classify_message =
      with_dict_cases (Classified message_delta event s) (part "delta" event) s _
        (λ fs e.
          let (failed, ended) = record_usage_keeps (get "usage" event) s in
          classify_reason fs e (record_usage (get "usage" event) s) failed ended)
        (λ e. ground arith)

  pub classify : (k : Kind) → Classified k event s (on_event loads model k event s)
  unfolding on_event
  classify message_start = classify_start
  classify content_block_start = classify_block
  classify content_block_delta = classify_delta
  classify message_delta = classify_message
  classify message_stop = ground (arith, record_usage_keeps (get "usage" event) s)
  classify Kind.error = ground arith
  classify other = ground arith

-- an event after which the loop goes on
abbrev pub calm : Fields → Bool
calm event = not (malformed event) && not (fails event)

abbrev pub with_event : Option Fields → List Fields → List Fields
with_event none es = es
with_event (some event) es = event ∷ es

-- the events that the lines carry
unfoldable pub events : (String → Option Value) → List String → List Fields
events loads [] = []
events loads (line ∷ rest) = with_event (read_event loads line) (events loads rest)

module _ (loads : String → Option Value) (model : String) (broken : Bool) where
  pub record Described (es : List Fields) (s : State) (l : Loop) : Type 0 where
    pub quiet : any is_terminal l.chunks ≡ false
    pub through :
        all calm es ≡ true
        → (l.exit ≡ (if broken then raised else ran_out))
          × (l.state.failed ≡ s.failed)
          × (l.state.ended ≡ (s.ended || any ends es))
    pub left :
        all calm es ≡ false
        → (l.exit ≡ raised) ⊎ ((l.exit ≡ broke) × (is_some l.state.failed ≡ true))

  after-Described :
      (event : Fields) (es : List Fields) (s : State) (f : Flow) (go : State → Loop)
      → Classified (kind_of (get "type" event)) event s f
      → ((t : State) → Described es t (go t))
      → Described (event ∷ es) s (after loads model f go)
  unfolding malformed fails ends
  after-Described event es s (next t chunks) go c ih = record {
    quiet = ground (arith, any-append is_terminal chunks (go t).chunks, (ih t).quiet);
    through = λ h. ground (arith, (ih t).through);
    left = λ h. ground (arith, (ih t).left);
  }
  after-Described event es s (stop t) go c ih = record {
    quiet = refl;
    through = λ h. ground arith;
    left = λ h. inr (refl, c.1);
  }
  after-Described event es s (crash t) go c ih = record {
    quiet = refl;
    through = λ h. ground arith;
    left = λ h. inl refl;
  }

  round-Described :
      (o : Option Fields) (es : List Fields) (s : State) (go : State → Loop)
      → ((t : State) → Described es t (go t))
      → Described (with_event o es) s (round loads model o s go)
  unfolding step
  round-Described none es s go ih = ih s
  round-Described (some event) es s go ih =
      after-Described event es s (step loads model event s) go
        (classify loads model event s (kind_of (get "type" event))) ih

  pub loop-Described :
      (lines : List String) (s : State)
      → Described (events loads lines) s (loop loads model broken lines s)
  unfolding loop events
  loop-Described [] s = record {
    quiet = refl;
    through = λ h. (refl, refl, ground arith);
    left = λ h. cc;
  }
  loop-Described (line ∷ rest) s =
      round-Described (read_event loads line) (events loads rest) s (loop loads model broken rest)
        (loop-Described rest)
