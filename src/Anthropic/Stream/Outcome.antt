-- ===== src/Anthropic/Stream/Outcome.antt =====
-- How the stream of app/proxy/chat_to_anthropic.py ends: with the terminator, with an error line, or
-- by an exception, and what the metering row is told.
use inference_proxy.Prelude.{
  String, Bool, true, false, not, ◌&&◌, ◌||◌, Option, none, some, ◌≢◌, List, [], ◌∷◌, ◌++◌, ◌≡◌,
  refl, arith, if◌then◌else◌, any, all, any-append, is_some, ◌⊎◌, inl, inr, Bool-cases, ◌∙◌, ap,
  sym, subst, Option-cases,
}
use inference_proxy.Json.{Value, str, obj, Fields, get, or_value, truthy}
use inference_proxy.Metering.{status_for}
use inference_proxy.Anthropic.Stream.State.{Chunk, opening, done, State, start}
use inference_proxy.Anthropic.Stream.Run.{
  ran_out, broke, raised, Loop, Ending, loop, conclude, stream, on_end, on_failure,
}
use inference_proxy.Anthropic.Stream.Terminator.{
  is_done, is_terminal, ends, calm, events, Described, loop-Described,
}

-- What the metering row is told of a turn that was served, or was not: of the latter either an error,
-- with status 502, or nothing, where an exception has left the generator before the error was named.
abbrev pub Told : Bool → Ending → Type 0
Told true e = (e.error_type ≡ none) × (e.raised ≡ false)
Told false e =
    ((e.error_type ≢ none) × (status_for e.error_type ≡ 502))
    ⊎ ((e.error_type ≡ none) × (e.raised ≡ true))

with_earlier_chunks :
    (b : Bool) (chunks : List Chunk) (e : Ending) → Told b e → Told b (record e { chunks = chunks })
with_earlier_chunks true chunks e h = h
with_earlier_chunks false chunks e h = h

truthy-or_value : (v d : Value) → truthy d ≡ true → truthy (or_value v d) ≡ true
truthy-or_value v d h = elim (Bool-cases (truthy v)) [
  | inl given ↦ rw given given
  | inr missing ↦ rw missing h
]

some_error : (v : Value) → some v ≢ none
some_error v h = cc

error_status : (v : Value) → truthy v ≡ true → status_for (some v) ≡ 502
error_status v h = rw h refl

any_done_le_terminal : (cs : List Chunk) → any is_terminal cs ≡ false → any is_done cs ≡ false
any_done_le_terminal [] h = refl
any_done_le_terminal (done ∷ cs) h = cc
any_done_le_terminal (_ ∷ cs) h = any_done_le_terminal cs (ground arith)

abbrev Ends : Bool → Ending → Type 0
Ends b e = (any is_done e.chunks ≡ b) × Told b e

failure-Ends : (s : State) (v : Value) → Ends false (on_failure s v)
unfolding on_failure
failure-Ends s (obj fs) = (
  ground arith,
  inl (
    some_error _,
    error_status (or_value (get "code" fs) (or_value (get "type" fs) (str "upstream_stream_error")))
        (truthy-or_value (get "code" fs) (or_value (get "type" fs) (str "upstream_stream_error"))
          (truthy-or_value (get "type" fs) (str "upstream_stream_error") refl)),
  ),
)
failure-Ends s _ = (refl, inr (refl, refl))

through-Ends :
    (broken : Bool) (s : State)
    → s.failed ≡ none
    → Ends (not broken && s.ended) (conclude (if broken then raised else ran_out) s)
unfolding conclude on_end
through-Ends true s h = (refl, inl (some_error _, refl))
through-Ends false s h = elim (Bool-cases s.ended) [
  | inl ended ↦ rw (h, ended) (refl, (refl, refl))
  | inr unended ↦ rw (h, unended) (ground arith, inl (some_error _, refl))
]

broke-Ends : (s : State) → is_some s.failed ≡ true → Ends false (conclude broke s)
unfolding conclude
broke-Ends s h = elim (Option-cases s.failed) [
  | inl absent ↦ cc (rw absent at h)
  | inr (v, present) ↦ rw present (failure-Ends s v)
]

left_early :
    (l : Loop)
    → (l.exit ≡ raised) ⊎ ((l.exit ≡ broke) × (is_some l.state.failed ≡ true))
    → Ends false (conclude l.exit l.state)
unfolding conclude
left_early l (inl e) = rw e (refl, inl (some_error _, refl))
left_early l (inr (e, f)) =
    subst (λ x. Ends false (conclude x l.state)) (sym e) (broke-Ends l.state f)

module _ (loads : String → Option Value) (model : String) (lines : List String)
    (broken : Bool) where
  abbrev es : List Fields
  es = events loads lines

  -- The events alone say whether the turn was served.
  abbrev pub is_served : Bool
  is_served = not broken && (all calm es && any ends es)

  left-Ends :
      (l : Loop)
      → Described loads model broken es start l
      → Ends is_served (conclude l.exit l.state)
  left-Ends l d = elim (Bool-cases (all calm es)) [
    | inl all_calm ↦
        let (exit, failed, ended) = d.through all_calm in
        rw (exit, all_calm)
          (subst
            (λ b. Ends (not broken && b) (conclude (if broken then raised else ran_out) l.state))
            ended (through-Ends broken l.state failed))
    | inr not_calm ↦
        let not_served : is_served ≡ false = ground arith in
        rw not_served (left_early l (d.left not_calm))
  ]

  -- The stream carries its terminator exactly when the connection held to the last line,
  -- every event was well formed and reported no failure, and one of them ended the turn
  -- (`message_stop`, or a `message_delta` with a stop reason). In those cases the metering row is
  -- told of no error and no exception leaves the generator; in all others the row is told of an
  -- error and gets status 502, or it is told of none and an exception leaves the generator.
  pub done_iff :
      (any is_done (stream loads model lines broken).chunks ≡ is_served)
      × Told is_served (stream loads model lines broken)
  unfolding stream
  done_iff =
      let d = loop-Described loads model broken lines start in
      let l = loop loads model broken lines start in
      let e = left-Ends l d in
      (
        any-append is_done l.chunks (conclude l.exit l.state).chunks
            ∙ ap (λ b. b || any is_done (conclude l.exit l.state).chunks)
                (any_done_le_terminal l.chunks d.quiet)
            ∙ e.0,
        with_earlier_chunks is_served (opening ∷ l.chunks ++ (conclude l.exit l.state).chunks)
            (conclude l.exit l.state) e.1,
      )
