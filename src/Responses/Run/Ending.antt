-- ===== src/Responses/Run/Ending.antt =====
-- How a translated Responses stream of app/proxy/chat_completions.py ends.
use inference_proxy.Prelude.{
  String, Bool, true, false, Option, List, [], ◌∷◌, ◌++◌, ◌≡◌, refl, arith, any, any-append, ap,
  sym, ◌∙◌, append_assoc,
}
use inference_proxy.Json.{Value, null, bool, int, float, str, arr, obj, Fields, get}
use inference_proxy.Anthropic.Request.Result.{Result, ok, err}
use inference_proxy.Responses.Reply.{map_usage}
use inference_proxy.Responses.Stream.{
  Chunk, opening, done, error, finish, State, start, Flow, next, fail, crash, step, Kind,
  item_added, arguments_delta, text_delta, completed, incomplete, failed, other, on_event, kind_of,
  on_completed, open_call, part, merge, hold, finish_reason, finished, with_reason, with_usage,
  on_arguments, on_failure, with_dict,
}
use inference_proxy.Responses.Run.{
  Exit, terminated, gave_up, raised, Run, Line, skipped, terminator, garbled, carries, read_line,
  after, round, run, stream,
}

abbrev pub is_done : Chunk → Bool
is_done done = true
is_done _ = false

abbrev pub is_error : Chunk → Bool
is_error (error e) = true
is_error _ = false

-- neither the terminator nor an error
abbrev is_last : Chunk → Bool
is_last done = true
is_last (error e) = true
is_last _ = false

-- what closes a stream that is left this way
abbrev ClosedBy : Exit → List Chunk → Type 0
ClosedBy terminated last = last ≡ done ∷ []
ClosedBy gave_up last = (failure : Fields) × (last ≡ error failure ∷ [])
ClosedBy raised last = last ≡ []

-- the chunks before the last ones are neither a terminator nor an error
abbrev pub Closes : Run → Type 0
Closes r =
    (before : List Chunk) × (last : List Chunk) × (r.chunks ≡ before ++ last)
    × (any is_last before ≡ false)
    × ClosedBy r.exit last

abbrev Calm : Flow → Type 0
Calm (next s chunks) = any is_last chunks ≡ false
Calm _ = Unit

pub with_dict_all :
    (P : Flow → Type 0) (v : Value) (s : State) (k : Fields → Flow)
    → P (crash s)
    → ((fs : Fields) → P (k fs))
    → P (with_dict v s k)
with_dict_all P (obj fs) s k c h = h fs
with_dict_all P _ s k c h = c

module _ (loads : String → Option Value) (render : Value → String) (P : Flow → Type 0) (s : State)
    (crashes : (t : State) → P (crash t))
    (finishes : (held : Fields) (reason : String) (usage : Option Fields)
      → P (next (record s { usage_holder = held }) (finish reason usage ∷ []))) where
  finished_all :
      (held : Fields) (usage : Result (Option Fields)) (reason : String)
      → P (finished (record s { usage_holder = held }) usage reason)
  finished_all held (err e) reason = crashes _
  finished_all held (ok usage) reason = finishes held (finish_reason s.saw_tool_call reason) usage

  with_reason_all :
      (held : Fields) (usage : Value) (reason : Result String)
      → P (with_reason (record s { usage_holder = held }) usage reason)
  unfolding with_reason
  with_reason_all held usage (err e) = crashes _
  with_reason_all held usage (ok reason) = finished_all held (map_usage usage) reason

  with_usage_all :
      (v : Value) (k : State → Flow)
      → ((held : Fields) → P (k (record s { usage_holder = held })))
      → P (with_usage (hold v s) s k)
  unfolding hold
  with_usage_all (obj usage) k h = h (merge usage s.usage_holder)
  with_usage_all null k h = crashes s
  with_usage_all (bool b) k h = crashes s
  with_usage_all (int z) k h = crashes s
  with_usage_all (float m e) k h = crashes s
  with_usage_all (str t) k h = crashes s
  with_usage_all (arr vs) k h = crashes s

  -- the end of a turn gives one chunk, or an exception
  pub on_completed_all :
      (status : String) (response : Fields) → P (on_completed loads render status response s)
  unfolding on_completed
  on_completed_all status response =
      with_usage_all (part "usage" response) _
        (λ held. with_reason_all held (get "usage" response) _)

module _ (loads : String → Option Value) (render : Value → String) where
  Calm-event : (k : Kind) (event : Fields) (s : State) → Calm (on_event loads render k event s)
  unfolding on_event open_call on_arguments on_failure
  Calm-event item_added event s = with_dict_all Calm (part "item" event) s _ tt (λ fs. ground arith)
  Calm-event arguments_delta event s = ground arith
  Calm-event text_delta event s = refl
  Calm-event completed event s =
      with_dict_all Calm (part "response" event) s _ tt
        (on_completed_all loads render Calm s (λ t. tt) (λ held reason usage. refl) "completed")
  Calm-event incomplete event s =
      with_dict_all Calm (part "response" event) s _ tt
        (on_completed_all loads render Calm s (λ t. tt) (λ held reason usage. refl) "incomplete")
  Calm-event failed event s = with_dict_all Calm (part "response" event) s _ tt (λ fs. tt)
  Calm-event Kind.error event s = tt
  Calm-event other event s = refl

  after-Closes :
      (f : Flow) (go : State → Run)
      → Calm f
      → ((t : State) → Closes (go t))
      → Closes (after loads render f go)
  after-Closes (next t chunks) go calm ih =
      let (before, last, same, quiet, closed) = ih t in
      (
        chunks ++ before,
        last,
        ap (λ later. chunks ++ later) same ∙ sym (append_assoc chunks before last),
        ground (arith, any-append is_last chunks before),
        closed,
      )
  after-Closes (fail s failure) go calm ih = ([], error failure ∷ [], refl, refl, (failure, refl))
  after-Closes (crash s) go calm ih = ([], [], refl, refl, refl)

  round-Closes :
      (line : Line) (s : State) (go : State → Run)
      → ((t : State) → Closes (go t))
      → Closes (round loads render line s go)
  unfolding round step
  round-Closes skipped s go ih = ih s
  round-Closes terminator s go ih = ([], done ∷ [], refl, refl, refl)
  round-Closes garbled s go ih = ([], [], refl, refl, refl)
  round-Closes (carries event) s go ih =
      after-Closes (step loads render event s) go (Calm-event (kind_of (get "type" event)) event s)
        ih

  run-Closes :
      (broken : Bool) (lines : List String) (s : State) → Closes (run loads render broken lines s)
  unfolding run
  run-Closes true [] s = ([], [], refl, refl, refl)
  run-Closes false [] s = ([], done ∷ [], refl, refl, refl)
  run-Closes broken (line ∷ lines) s =
      round-Closes (read_line loads render line) s (run loads render broken lines)
        (run-Closes broken lines)

  -- The stream ends in one of three ways: with the terminator, with an error that nothing follows, or
  -- with neither where an exception ends it; and before that come neither of the two.
  pub stream-Closes :
      (broken : Bool) (lines : List String) → Closes (stream loads render broken lines)
  unfolding stream
  stream-Closes broken lines =
      after-Closes (next start (opening ∷ [])) (run loads render broken lines) refl
        (run-Closes broken lines)
