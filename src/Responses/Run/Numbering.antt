-- ===== src/Responses/Run/Numbering.antt =====
-- How the tool calls of a translated Responses stream of app/proxy/chat_completions.py are numbered.
use inference_proxy.Prelude.{
  ℕ, suc, ◌+◌, String, Bool, true, false, ◌&&◌, Option, none, some, List, [], ◌∷◌, ◌++◌, ◌≡◌, refl,
  arith, eqb, ltb, if◌then◌else◌,
}
use inference_proxy.Json.{Value, Fields, get}
use inference_proxy.Anthropic.Stream.State.{index_of}
use inference_proxy.Responses.Stream.{
  Chunk, tool_start, tool_arguments, State, start, Flow, next, fail, crash, step, Kind, item_added,
  arguments_delta, text_delta, completed, incomplete, failed, other, on_event, kind_of,
  on_completed, open_call, part, on_arguments, on_failure, with_dict,
}
use inference_proxy.Responses.Run.{
  Run, Line, skipped, terminator, garbled, carries, read_line, after, round, run, stream,
}
use inference_proxy.Responses.Run.Ending.{with_dict_all, on_completed_all}

-- the number after `i` where `n` numbers are given out
abbrev pub used : ℕ → ℕ → ℕ
used n i = if ltb i n then n else suc n

-- how many numbers are given out behind these chunks
abbrev pub numbers_after : ℕ → List Chunk → ℕ
numbers_after n [] = n
numbers_after n (tool_start i id name ∷ cs) = numbers_after (suc n) cs
numbers_after n (tool_arguments i json ∷ cs) = numbers_after (used n i) cs
numbers_after n (_ ∷ cs) = numbers_after n cs

-- Where `n` numbers are given out, a call that opens gets the next one, and arguments go to a number
-- that is given out, or to the next one.
abbrev pub is_numbered : ℕ → List Chunk → Bool
is_numbered n [] = true
is_numbered n (tool_start i id name ∷ cs) = eqb i n && is_numbered (suc n) cs
is_numbered n (tool_arguments i json ∷ cs) = ltb i (suc n) && is_numbered (used n i) cs
is_numbered n (_ ∷ cs) = is_numbered n cs

is_numbered-append :
    (n : ℕ) (cs ds : List Chunk)
    → is_numbered n (cs ++ ds) ≡ (is_numbered n cs && is_numbered (numbers_after n cs) ds)
is_numbered-append n [] ds = refl
is_numbered-append n (tool_start i id name ∷ cs) ds =
    ground (arith, is_numbered-append (suc n) cs ds)
is_numbered-append n (tool_arguments i json ∷ cs) ds =
    ground (arith, is_numbered-append (used n i) cs ds)
is_numbered-append n (_ ∷ cs) ds = is_numbered-append n cs ds

abbrev is_below : ℕ → List (Value × ℕ) → Bool
is_below n [] = true
is_below n ((k, i) ∷ rest) = ltb i n && is_below n rest

is_below-suc : (n : ℕ) (m : List (Value × ℕ)) → is_below n m ≡ true → is_below (n + 1) m ≡ true
is_below-suc n [] h = refl
is_below-suc n ((k, i) ∷ rest) h = ground (arith, is_below-suc n rest)

abbrev is_below_found : ℕ → Option ℕ → Bool
is_below_found n none = true
is_below_found n (some i) = ltb i n

index_of-below :
    (n : ℕ) (key : Value) (m : List (Value × ℕ))
    → is_below n m ≡ true
    → is_below_found n (index_of key m) ≡ true
unfolding index_of
index_of-below n key [] b = refl
index_of-below n key ((k, j) ∷ rest) b = ground (arith, index_of-below n key rest)

-- every number in the table is given out
abbrev Below : State → Type 0
Below s = is_below s.next_tool_index s.tool_index_for_item ≡ true

abbrev Advances : State → Flow → Type 0
Advances s (next t cs) =
    Below t
    × (is_numbered s.next_tool_index cs ≡ true)
    × (t.next_tool_index ≡ numbers_after s.next_tool_index cs)
Advances s _ = Unit

module _ (loads : String → Option Value) (render : Value → String) where
  Advances-completed :
      (event : Fields) (s : State) (status : String)
      → Below s
      → Advances s (with_dict (part "response" event) s λ r. on_completed loads render status r s)
  Advances-completed event s status below =
      with_dict_all (Advances s) (part "response" event) s _ tt (
        on_completed_all loads render (Advances s) s (λ t. tt)
          (λ held reason usage. (below, refl, refl)) status)

  Advances-arguments :
      (key json : Value) (s : State) → Below s → Advances s (on_arguments loads render key json s)
  unfolding on_arguments
  Advances-arguments key json s below = ground (
    arith,
    index_of-below s.next_tool_index key s.tool_index_for_item below,
    is_below-suc s.next_tool_index s.tool_index_for_item below,
  )

  Advances-event :
      (k : Kind) (event : Fields) (s : State)
      → Below s
      → Advances s (on_event loads render k event s)
  unfolding on_event open_call on_failure
  Advances-event item_added event s below =
      with_dict_all (Advances s) (part "item" event) s _ tt
        (λ fs. ground (arith, is_below-suc s.next_tool_index s.tool_index_for_item below))
  Advances-event arguments_delta event s below = Advances-arguments _ _ s below
  Advances-event text_delta event s below = (below, refl, refl)
  Advances-event completed event s below = Advances-completed event s "completed" below
  Advances-event incomplete event s below = Advances-completed event s "incomplete" below
  Advances-event failed event s below =
      with_dict_all (Advances s) (part "response" event) s _ tt (λ fs. tt)
  Advances-event Kind.error event s below = tt
  Advances-event other event s below = (below, refl, refl)

  abbrev IsNumbered : State → Run → Type 0
  IsNumbered s r = is_numbered s.next_tool_index r.chunks ≡ true

  after-IsNumbered :
      (s : State) (f : Flow) (go : State → Run)
      → Advances s f
      → ((t : State) → Below t → IsNumbered t (go t))
      → IsNumbered s (after loads render f go)
  after-IsNumbered s (next t cs) go (below, numbered, moved) ih =
      ground (arith, is_numbered-append s.next_tool_index cs (go t).chunks, ih t below)
  after-IsNumbered s (fail t e) go a ih = refl
  after-IsNumbered s (crash t) go a ih = refl

  round-IsNumbered :
      (line : Line) (s : State) (go : State → Run)
      → Below s
      → ((t : State) → Below t → IsNumbered t (go t))
      → IsNumbered s (round loads render line s go)
  unfolding round step
  round-IsNumbered skipped s go below ih = ih s below
  round-IsNumbered terminator s go below ih = refl
  round-IsNumbered garbled s go below ih = refl
  round-IsNumbered (carries event) s go below ih =
      after-IsNumbered s (step loads render event s) go
        (Advances-event (kind_of (get "type" event)) event s below) ih

  run-IsNumbered :
      (broken : Bool) (lines : List String) (s : State)
      → Below s
      → IsNumbered s (run loads render broken lines s)
  unfolding run
  run-IsNumbered true [] s below = refl
  run-IsNumbered false [] s below = refl
  run-IsNumbered broken (line ∷ lines) s below =
      round-IsNumbered (read_line loads render line) s (run loads render broken lines) below
        (run-IsNumbered broken lines)

  -- Calls are numbered 0, 1, 2, … in the order in which they first appear, by their opening or by
  -- arguments for an item that was never opened, and arguments never name a number beyond these.
  pub responses_calls_numbered :
      (broken : Bool) (lines : List String)
      → is_numbered 0 (stream loads render broken lines).chunks ≡ true
  unfolding stream
  responses_calls_numbered broken lines = run-IsNumbered broken lines start refl
