-- ===== src/Anthropic/Stream/Numbering.antt =====
-- How the tool calls of a stream of app/proxy/chat_to_anthropic.py are numbered.
use inference_proxy.Prelude.{
  ℕ, suc, ◌+◌, String, Bool, true, ◌&&◌, Option, none, some, List, [], ◌∷◌, ◌++◌, ◌≡◌, refl, arith,
  eqb, ltb,
}
use inference_proxy.Json.{Value, obj, Fields, get}
use inference_proxy.Anthropic.Stream.State.{
  Chunk, tool_start, tool_arguments, State, start, index_of, record_usage,
}
use inference_proxy.Anthropic.Stream.Events.{
  Kind, message_start, content_block_start, content_block_delta, message_delta, message_stop, other,
  Flow, next, stop, crash, kind_of, part, on_event, step, open_tool, on_delta, delta_kind,
  DeltaKind, text_delta, thinking_delta, input_json_delta, other_delta, on_stop_reason,
}
use inference_proxy.Anthropic.Stream.Run.{
  Exit, ran_out, broke, raised, Loop, read_event, loop, after, round, conclude, stream, on_end,
  on_failure,
}
use inference_proxy.Anthropic.Stream.Terminator.{with_dict_cases}

-- the number of the next call, behind these chunks
abbrev pub next_call : ℕ → List Chunk → ℕ
next_call n [] = n
next_call n (tool_start i id name ∷ cs) = next_call (suc n) cs
next_call n (_ ∷ cs) = next_call n cs

-- From `n` on, the calls are numbered in the order in which they are opened, with no gap, and
-- arguments go only to a call that is open.
abbrev pub is_numbered : ℕ → List Chunk → Bool
is_numbered n [] = true
is_numbered n (tool_start i id name ∷ cs) = eqb i n && is_numbered (suc n) cs
is_numbered n (tool_arguments i json ∷ cs) = ltb i n && is_numbered n cs
is_numbered n (_ ∷ cs) = is_numbered n cs

is_numbered-append :
    (n : ℕ) (cs ds : List Chunk)
    → is_numbered n (cs ++ ds) ≡ (is_numbered n cs && is_numbered (next_call n cs) ds)
is_numbered-append n [] ds = refl
is_numbered-append n (tool_start i id name ∷ cs) ds =
    ground (arith, is_numbered-append (suc n) cs ds)
is_numbered-append n (tool_arguments i json ∷ cs) ds = ground (arith, is_numbered-append n cs ds)
is_numbered-append n (_ ∷ cs) ds = is_numbered-append n cs ds

abbrev is_below : ℕ → List (Value × ℕ) → Bool
is_below n [] = true
is_below n ((k, i) ∷ rest) = ltb i n && is_below n rest

is_below-suc : (n : ℕ) (m : List (Value × ℕ)) → is_below n m ≡ true → is_below (n + 1) m ≡ true
is_below-suc n [] h = refl
is_below-suc n ((k, i) ∷ rest) h = ground (arith, is_below-suc n rest)

abbrev is_below_found : ℕ → Option ℕ → Bool
is_below_found n none = true
is_below_found n (some i) = ltb i n

index_of-below :
    (n : ℕ) (key : Value) (m : List (Value × ℕ))
    → is_below n m ≡ true
    → is_below_found n (index_of key m) ≡ true
unfolding index_of
index_of-below n key [] b = refl
index_of-below n key ((k, j) ∷ rest) b = ground (arith, index_of-below n key rest)

abbrev IsOpen : State → Type 0
IsOpen s = is_below s.next_tool_index s.tool_index_for_block ≡ true

abbrev Keeps : State → Flow → Type 0
Keeps s (next t cs) =
    IsOpen t
    × (is_numbered s.next_tool_index cs ≡ true)
    × (t.next_tool_index ≡ next_call s.next_tool_index cs)
Keeps s (stop t) = Unit
Keeps s (crash t) = Unit

record_usage_keeps :
    (v : Value) (s : State)
    → ((record_usage v s).next_tool_index ≡ s.next_tool_index)
      × ((record_usage v s).tool_index_for_block ≡ s.tool_index_for_block)
unfolding record_usage
record_usage_keeps (obj fs) s = (refl, refl)
record_usage_keeps _ s = (refl, refl)

module _ (loads : String → Option Value) (model : String) (event : Fields) (s : State)
    (open_s : IsOpen s) where
  Keeps-block : (block : Fields) → Keeps s (open_tool event block s)
  unfolding open_tool
  Keeps-block block = ground (arith, is_below-suc s.next_tool_index s.tool_index_for_block open_s)

  Keeps-delta : (d : DeltaKind) (delta : Fields) → Keeps s (on_delta d event delta s)
  unfolding on_delta
  Keeps-delta input_json_delta delta =
      ground
        (arith, index_of-below s.next_tool_index (get "index" event) s.tool_index_for_block open_s)
  Keeps-delta text_delta delta = ground arith
  Keeps-delta thinking_delta delta = ground arith
  Keeps-delta other_delta delta = ground arith

  Keeps-reason :
      (reason : Value) (t : State)
      → (t.next_tool_index ≡ s.next_tool_index)
      → (t.tool_index_for_block ≡ s.tool_index_for_block)
      → Keeps s (on_stop_reason model reason t)
  unfolding on_stop_reason
  Keeps-reason reason t n m = ground arith

  Keeps-event : (k : Kind) → Keeps s (on_event loads model k event s)
  unfolding on_event
  Keeps-event message_start =
      with_dict_cases (Keeps s) (part "message" event) s _
        (λ fs e. ground (arith, record_usage_keeps (get "usage" fs) s)) (λ e. tt)
  Keeps-event content_block_start =
      with_dict_cases (Keeps s) (part "content_block" event) s _
        (λ fs e. ground (arith, Keeps-block fs)) (λ e. tt)
  Keeps-event content_block_delta =
      with_dict_cases (Keeps s) (part "delta" event) s _
        (λ fs e. Keeps-delta (delta_kind (get "type" fs)) fs) (λ e. tt)
  Keeps-event message_delta =
      with_dict_cases (Keeps s) (part "delta" event) s _
        (λ fs e.
          let (n, m) = record_usage_keeps (get "usage" event) s in
          Keeps-reason (get "stop_reason" fs) (record_usage (get "usage" event) s) n m)
        (λ e. tt)
  Keeps-event message_stop = ground (arith, record_usage_keeps (get "usage" event) s)
  Keeps-event Kind.error = tt
  Keeps-event other = ground arith

module _ (loads : String → Option Value) (model : String) where
  abbrev IsNumbered : State → Loop → Type 0
  IsNumbered s l = is_numbered s.next_tool_index l.chunks ≡ true

  after-IsNumbered :
      (s : State) (f : Flow) (go : State → Loop)
      → Keeps s f
      → ((t : State) → IsOpen t → IsNumbered t (go t))
      → IsNumbered s (after loads model f go)
  after-IsNumbered s (next t cs) go (opened, numbered, moved) ih =
      ground (arith, is_numbered-append s.next_tool_index cs (go t).chunks, ih t opened)
  after-IsNumbered s (stop t) go k ih = refl
  after-IsNumbered s (crash t) go k ih = refl

  round-IsNumbered :
      (o : Option Fields) (s : State) (go : State → Loop)
      → IsOpen s
      → ((t : State) → IsOpen t → IsNumbered t (go t))
      → IsNumbered s (round loads model o s go)
  unfolding step
  round-IsNumbered none s go open_s ih = ih s open_s
  round-IsNumbered (some event) s go open_s ih =
      after-IsNumbered s (step loads model event s) go
        (Keeps-event loads model event s open_s (kind_of (get "type" event))) ih

  loop-IsNumbered :
      (broken : Bool) (lines : List String) (s : State)
      → IsOpen s
      → IsNumbered s (loop loads model broken lines s)
  unfolding loop
  loop-IsNumbered broken [] s open_s = refl
  loop-IsNumbered broken (line ∷ rest) s open_s =
      round-IsNumbered (read_event loads line) s (loop loads model broken rest) open_s
        (loop-IsNumbered broken rest)

conclude_numbered : (n : ℕ) (x : Exit) (s : State) → is_numbered n (conclude x s).chunks ≡ true
unfolding conclude on_end on_failure
conclude_numbered n raised s = refl
conclude_numbered n ran_out s = ground arith
conclude_numbered n broke s = ground arith

-- Whatever the lines, and however text and tool blocks interleave, the tool calls of the stream are
-- numbered 0, 1, 2, … in the order in which they open, and each fragment of arguments names a call
-- that is already open.
pub stream-is_numbered :
    (loads : String → Option Value) (model : String) (lines : List String) (broken : Bool)
    → is_numbered 0 (stream loads model lines broken).chunks ≡ true
unfolding stream
stream-is_numbered loads model lines broken =
    let l = loop loads model broken lines start in
    ground (
      arith,
      is_numbered-append 0 l.chunks (conclude l.exit l.state).chunks,
      loop-IsNumbered loads model broken lines start refl,
      conclude_numbered (next_call 0 l.chunks) l.exit l.state,
    )
