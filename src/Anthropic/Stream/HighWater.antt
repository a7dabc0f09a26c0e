-- ===== src/Anthropic/Stream/HighWater.antt =====
-- The counts that a stream of app/proxy/chat_to_anthropic.py gathers.
use inference_proxy.Prelude.{
  String, Bool, true, Option, none, some, List, [], ◌∷◌, ◌≡◌, refl, arith, ◌==◌, eq_iff,
  if◌then◌else◌, all, ◌∙◌, ap, Bool-cases, inl, inr, sym,
}
use inference_proxy.Prelude.Int.{ℤ, max_ℤ}
use inference_proxy.Json.{Value, null, int, obj, Fields, end, field, get, fields_of}
use inference_proxy.Json.Laws.{get-put}
use inference_proxy.Anthropic.Counts.{as_count}
use inference_proxy.Anthropic.Stream.State.{
  State, start, fold_count, higher, fold_usage, record_usage,
}
use inference_proxy.Anthropic.Stream.Events.{
  Kind, message_start, content_block_start, content_block_delta, message_delta, message_stop, other,
  Flow, next, stop, crash, kind_of, part, with_dict, on_event, step, open_tool, on_delta,
  on_stop_reason,
}
use inference_proxy.Anthropic.Stream.Run.{
  Exit, ran_out, broke, raised, Loop, read_event, loop, after, round, conclude, stream, on_end,
  on_failure,
}
use inference_proxy.Anthropic.Stream.Terminator.{
  with_dict_cases, calm, events, with_event, Classified, classify, malformed, fails,
}

abbrev pub max_opt : Option ℤ → Option ℤ → Option ℤ
max_opt none b = b
max_opt (some a) none = some a
max_opt (some a) (some b) = some (max_ℤ a b)

max_opt-none : (a : Option ℤ) → a ≡ max_opt a none
max_opt-none none = refl
max_opt-none (some a) = refl

max_opt_assoc : (a b c : Option ℤ) → max_opt (max_opt a b) c ≡ max_opt a (max_opt b c)
unfolding max_ℤ
max_opt_assoc none b c = refl
max_opt_assoc (some a) none c = refl
max_opt_assoc (some a) (some b) none = refl
max_opt_assoc (some a) (some b) (some c) = ground arith

-- the count that a dict of counts holds under a key
abbrev pub held : Value → Option ℤ
held (int z) = some z
held _ = none

-- the highest count that one usage object gives for a key
unfoldable pub reported : String → Fields → Option ℤ
reported k end = none
reported k (field j raw rest) =
    if j == k then max_opt (as_count raw) (reported k rest) else reported k rest

held-higher : (v : Value) (z : ℤ) → max_opt (held v) (some z) ≡ some (higher v z)
held-higher (int p) z = refl
held-higher _ z = refl

held-fold_count :
    (k j : String) (c : Option ℤ) (captured : Fields)
    → held (get k (fold_count j c captured))
      ≡ (if j == k then max_opt (held (get k captured)) c else held (get k captured))
unfolding fold_count
held-fold_count k j none captured = ground arith
held-fold_count k j (some z) captured = elim (Bool-cases (j == k)) [
  | inl same ↦ rw (get-put, same) (rw ((eq_iff j k).0 same) (sym (held-higher (get k captured) z)))
  | inr different ↦ rw (get-put, different)
]

-- Folding a usage object in raises each count to the highest figure that it gives.
held-fold_usage :
    (k : String) (fs captured : Fields)
    → held (get k (fold_usage fs captured)) ≡ max_opt (held (get k captured)) (reported k fs)
unfolding fold_usage reported
held-fold_usage k end captured = max_opt-none (held (get k captured))
held-fold_usage k (field j raw rest) captured =
    held-fold_usage k rest (fold_count j (as_count raw) captured)
    ∙ ground (
      arith,
      held-fold_count k j (as_count raw) captured,
      max_opt_assoc (held (get k captured)) (as_count raw) (reported k rest),
    )

abbrev usage_at : Kind → Fields → Value
usage_at message_start event = get "usage" (fields_of (part "message" event))
usage_at message_delta event = get "usage" event
usage_at message_stop event = get "usage" event
usage_at _ event = null

-- the usage object that an event carries, empty if there is none
unfoldable pub usage_report : Fields → Fields
unfolding get kind_of
usage_report event = fields_of (usage_at (kind_of (get "type" event)) event)

-- the highest figure for a key over all events
unfoldable pub highest : String → List Fields → Option ℤ
highest k [] = none
highest k (event ∷ es) = max_opt (reported k (usage_report event)) (highest k es)

module _ (k : String) where
  abbrev Counted : Fields → State → State → Type 0
  Counted report s t =
      held (get k t.captured) ≡ max_opt (held (get k s.captured)) (reported k report)

  abbrev Counts : Fields → State → Flow → Type 0
  Counts report s (next t cs) = Counted report s t
  Counts report s (stop t) = Unit
  Counts report s (crash t) = Unit

  Counted-none : (s : State) → Counted end s s
  unfolding reported
  Counted-none s = max_opt-none (held (get k s.captured))

  Counted-record : (v : Value) (s : State) → Counted (fields_of v) s (record_usage v s)
  unfolding record_usage
  Counted-record (obj fs) s = held-fold_usage k fs s.captured
  Counted-record null s = Counted-none s
  Counted-record _ s = Counted-none s

  module _ (loads : String → Option Value) (model : String) (event : Fields) (s : State) where
    Counts-reason :
        (report : Fields) (reason : Value) (t : State)
        → Counted report s t
        → Counts report s (on_stop_reason model reason t)
    unfolding on_stop_reason
    Counts-reason report reason t h = ground arith

    Counts-event :
        (x : Kind) → Counts (fields_of (usage_at x event)) s (on_event loads model x event s)
    unfolding on_event open_tool on_delta
    Counts-event message_start = start_counts (part "message" event)
      where
        start_counts :
            (v : Value)
            → Counts
                (fields_of (get "usage" (fields_of v)))
                s
                (with_dict v s (λ message. next (record_usage (get "usage" message) s) []))
        start_counts (obj fs) = Counted-record (get "usage" fs) s
        start_counts null = tt
        start_counts _ = tt
    Counts-event content_block_start =
        with_dict_cases (Counts end s) (part "content_block" event) s _
          (λ fs e. ground (arith, Counted-none s)) (λ e. tt)
    Counts-event content_block_delta =
        with_dict_cases (Counts end s) (part "delta" event) s _
          (λ fs e. ground (arith, Counted-none s)) (λ e. tt)
    Counts-event message_delta =
        with_dict_cases (Counts (fields_of (get "usage" event)) s) (part "delta" event) s _
          (λ fs e.
            Counts-reason (fields_of (get "usage" event)) (get "stop_reason" fs)
              (record_usage (get "usage" event) s) (Counted-record (get "usage" event) s))
          (λ e. tt)
    Counts-event message_stop = Counted-record (get "usage" event) s
    Counts-event Kind.error = tt
    Counts-event other = Counted-none s

  module _ (loads : String → Option Value) (model : String) (broken : Bool) where
    after-Counts :
        (event : Fields) (es : List Fields) (s : State) (f : Flow) (go : State → Loop)
        → Counts (usage_report event) s f
        → Classified (kind_of (get "type" event)) event s f
        → all calm (event ∷ es) ≡ true
        → ((t : State)
            → held (get k (go t).state.captured) ≡ max_opt (held (get k t.captured)) (highest k es))
        → held (get k (after loads model f go).state.captured)
          ≡ max_opt (held (get k s.captured)) (highest k (event ∷ es))
    unfolding highest fails malformed
    after-Counts event es s (next t cs) go c cl h ih =
        ih t
        ∙ ap (λ m. max_opt m (highest k es)) c
        ∙ max_opt_assoc (held (get k s.captured)) (reported k (usage_report event)) (highest k es)
    after-Counts event es s (stop t) go c cl h ih = absurd (ground arith)
    after-Counts event es s (crash t) go c cl h ih = absurd (ground arith)

    round_counts :
        (o : Option Fields) (es : List Fields) (s : State) (go : State → Loop)
        → all calm (with_event o es) ≡ true
        → (all calm es ≡ true
            → (t : State)
            → held (get k (go t).state.captured) ≡ max_opt (held (get k t.captured)) (highest k es))
        → held (get k (round loads model o s go).state.captured)
          ≡ max_opt (held (get k s.captured)) (highest k (with_event o es))
    unfolding step usage_report
    round_counts none es s go h ih = ih h s
    round_counts (some event) es s go h ih =
        after-Counts event es s (step loads model event s) go
          (Counts-event loads model event s (kind_of (get "type" event)))
          (classify loads model event s (kind_of (get "type" event))) h (ih (ground arith))

    loop_counts :
        (lines : List String)
        → all calm (events loads lines) ≡ true
        → (s : State)
        → held (get k (loop loads model broken lines s).state.captured)
          ≡ max_opt (held (get k s.captured)) (highest k (events loads lines))
    unfolding loop events highest
    loop_counts [] h s = max_opt-none (held (get k s.captured))
    loop_counts (line ∷ rest) h s =
        round_counts (read_event loads line) (events loads rest) s (loop loads model broken rest) h
          (loop_counts rest)

conclude_usage : (x : Exit) (s : State) → (conclude x s).usage ≡ s.captured
unfolding conclude on_end on_failure
conclude_usage raised s = refl
conclude_usage ran_out s = ground arith
conclude_usage broke s = ground arith

-- Over a stream whose events are all well formed and report no failure, whether or not it is cut
-- off, the count that is metered under a key is the highest that any event gave for it, and there
-- is none exactly where no event gave one. A later event that repeats a count as zero erases
-- nothing.
pub stream_usage :
    (loads : String → Option Value) (model : String) (lines : List String) (broken : Bool)
    (k : String)
    → all calm (events loads lines) ≡ true
    → held (get k (stream loads model lines broken).usage) ≡ highest k (events loads lines)
unfolding stream
stream_usage loads model lines broken k h =
    let l = loop loads model broken lines start in
    rw (conclude_usage l.exit l.state) (loop_counts k loads model broken lines h start)
