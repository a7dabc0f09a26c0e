-- ===== src/Messages/Chunking.antt =====
-- The stream of app/proxy/anthropic.py, however the transport cuts it.
use inference_proxy.Prelude.{
  ℕ, zero, suc, ◌<◌, Bool, true, false, ◌&&◌, Option, none, some, List, [], ◌∷◌, ◌++◌, ◌≡◌, refl,
  sym, ap, ◌∙◌, arith, length, append_assoc, append-nil, if◌then◌else◌, Option-cases, inl, inr, ◌⊎◌,
  ◌≢◌,
}
use inference_proxy.Json.{Value, Fields}
use inference_proxy.Messages.Bytes.{Bytes, newline, extend, split_event, split_lines, concat}
use inference_proxy.Messages.Sniff.{
  Sniffed, reading, crashed, Drained, waiting, failed, unfinished, Passed, go_on, pass_on,
  read_lines, drain_by, drain, passthrough_stream,
}

abbrev cut : Bytes → Bytes → Option (Bytes × Bytes)
cut event rest = some (event, rest)

-- where the first event ends: at once, or later
cut-cases :
    (here : Bool) (x : ℕ) (b : Bytes) (later : Option (Bytes × Bytes)) (event rest : Bytes)
    → (if here then cut [] b else extend x later) ≡ cut event rest
    → ((here ≡ true) × (event ≡ []) × (rest ≡ b))
      ⊎ ((here ≡ false) × ((event' : Bytes) × (later ≡ cut event' rest) × (event ≡ x ∷ event')))
cut-cases true x b later event rest h = inl (refl, cc, cc)
cut-cases false x b none event rest h = cc
cut-cases false x b (some (e, r)) event rest h = inr (refl, (e, cc, cc))

split_event-append :
    (b c event rest : Bytes)
    → split_event b ≡ cut event rest
    → split_event (b ++ c) ≡ cut event (rest ++ c)
unfolding split_event
split_event-append [] c event rest h = cc
split_event-append (x ∷ []) c event rest h = cc
split_event-append (x ∷ y ∷ b) c event rest h =
    elim (cut-cases (newline x && newline y) x b (split_event (y ∷ b)) event rest h) [
      | inl (here, none_before, same) ↦ rw (here, none_before, same) refl
      | inr (later, (event', found, longer)) ↦
          rw (later, split_event-append (y ∷ b) c event' rest found, longer) refl
    ]

split_event-shorter :
    (b event rest : Bytes) → split_event b ≡ cut event rest → length rest < length b
unfolding split_event
split_event-shorter [] event rest h = cc
split_event-shorter (x ∷ []) event rest h = cc
split_event-shorter (x ∷ y ∷ b) event rest h =
    elim (cut-cases (newline x && newline y) x b (split_event (y ∷ b)) event rest h) [
      | inl (here, none_before, same) ↦ rw same (omega arith)
      | inr (later, (event', found, longer)) ↦
          omega (arith, split_event-shorter (y ∷ b) event' rest found)
    ]

-- the first event of a buffer, if it holds one
split_event-cases :
    (b : Bytes)
    → (split_event b ≡ none) ⊎ ((event : Bytes) × (rest : Bytes) × (split_event b ≡ cut event rest))
split_event-cases b = elim (Option-cases (split_event b)) [
  | inl absent ↦ inl absent
  | inr (p, found) ↦ inr (p.0, p.1, found)
]

module _ (loads : Bytes → Option Value) where
  go_on-cong :
      (s : Sniffed) (f g : Fields → Drained)
      → ((holder : Fields) → f holder ≡ g holder)
      → go_on loads s f ≡ go_on loads s g
  go_on-cong (reading holder) f g h = h holder
  go_on-cong (crashed holder) f g h = refl

  -- any fuel above the length of the buffer gives the same
  drain_by-enough :
      (f g : ℕ) (b : Bytes) (holder : Fields)
      → length b < f
      → length b < g
      → drain_by loads f b holder ≡ drain_by loads g b holder
  unfolding drain_by
  drain_by-enough zero g b holder hf hg = elim hf [ ]
  drain_by-enough (suc f) zero b holder hf hg = elim hg [ ]
  drain_by-enough (suc f) (suc g) b holder hf hg = elim (split_event-cases b) [
    | inl absent ↦ rw absent refl
    | inr (event, rest, found) ↦ rw found (
        go_on-cong (read_lines loads (split_lines event) holder) (drain_by loads f rest)
          (drain_by loads g rest)
          (λ holder'.
            drain_by-enough f g rest holder' (omega (arith, split_event-shorter b event rest found))
              (omega (arith, split_event-shorter b event rest found))))
  ]

  go_on-cases :
      (s : Sniffed) (f : Fields → Drained)
      → ((holder : Fields) × (s ≡ reading holder) × (go_on loads s f ≡ f holder))
        ⊎ ((holder : Fields) × (s ≡ crashed holder) × (go_on loads s f ≡ failed holder))
  go_on-cases (reading holder) f = inl (holder, refl, refl)
  go_on-cases (crashed holder) f = inr (holder, refl, refl)

  go_on_ends :
      (s : Sniffed) (f : Fields → Drained)
      → ((holder : Fields) → f holder ≢ unfinished)
      → go_on loads s f ≢ unfinished
  go_on_ends (reading holder) f h = h holder
  go_on_ends (crashed holder) f h = λ same. cc

  -- the loop ends: its fuel is never used up
  drain_by_ends :
      (f : ℕ) (b : Bytes) (holder : Fields) → length b < f → drain_by loads f b holder ≢ unfinished
  unfolding drain_by
  drain_by_ends zero b holder h = elim h [ ]
  drain_by_ends (suc f) b holder h = elim (split_event-cases b) [
    | inl absent ↦ rw absent (λ same. cc)
    | inr (event, rest, found) ↦ rw found (
        go_on_ends (read_lines loads (split_lines event) holder) (drain_by loads f rest) (λ holder'.
          drain_by_ends f rest holder' (omega (arith, split_event-shorter b event rest found))))
  ]

  abbrev resume : Drained → Bytes → Drained
  unfolding drain
  resume (waiting holder rest) c = drain loads (rest ++ c) holder
  resume (failed holder) c = failed holder
  resume unfinished c = unfinished

  resume-go_on :
      (s : Sniffed) (f g : Fields → Drained) (c : Bytes)
      → ((holder : Fields) → f holder ≡ resume (g holder) c)
      → go_on loads s f ≡ resume (go_on loads s g) c
  unfolding resume
  resume-go_on (reading holder) f g c h = h holder
  resume-go_on (crashed holder) f g c h = refl

  -- more bytes after the buffer: the loop does what it does on the buffer, and goes on from there
  drain_by-append :
      (f g : ℕ) (b c : Bytes) (holder : Fields)
      → length b < f
      → length (b ++ c) < g
      → drain_by loads g (b ++ c) holder ≡ resume (drain_by loads f b holder) c
  unfolding drain_by drain
  drain_by-append zero g b c holder hf hg = elim hf [ ]
  drain_by-append (suc f) zero b c holder hf hg = elim hg [ ]
  drain_by-append (suc f) (suc g) b c holder hf hg = elim (split_event-cases b) [
    | inl absent ↦
        rw absent (drain_by-enough (suc g) (suc (length (b ++ c))) (b ++ c) holder hg (omega arith))
    | inr (event, rest, found) ↦
        rw (found, split_event-append b c event rest found)
          (resume-go_on (read_lines loads (split_lines event) holder) (drain_by loads g (rest ++ c))
            (drain_by loads f rest) c
            (λ holder'.
              drain_by-append f g rest c holder'
                (omega (arith, split_event-shorter b event rest found))
                (omega (
                  arith,
                  split_event-shorter (b ++ c) event (rest ++ c)
                      (split_event-append b c event rest found),
                ))))
  ]

  go_on_settles :
      (s : Sniffed) (f : Fields → Drained) (h : Fields) (r : Bytes)
      → ((holder : Fields) → f holder ≡ waiting h r → split_event r ≡ none)
      → go_on loads s f ≡ waiting h r
      → split_event r ≡ none
  go_on_settles (reading holder) f h r settles same = settles holder same
  go_on_settles (crashed holder) f h r settles same = cc

  drain_by-zero : (b : Bytes) (holder : Fields) → drain_by loads zero b holder ≡ unfinished
  unfolding drain_by
  drain_by-zero b holder = refl

  drain_by-none :
      (f : ℕ) (b : Bytes) (holder : Fields)
      → split_event b ≡ none
      → drain_by loads (suc f) b holder ≡ waiting holder b
  unfolding drain_by
  drain_by-none f b holder absent = rw absent refl

  drain_by-some :
      (f : ℕ) (b event rest : Bytes) (holder : Fields)
      → split_event b ≡ cut event rest
      → drain_by loads (suc f) b holder
        ≡ go_on loads (read_lines loads (split_lines event) holder) (drain_by loads f rest)
  unfolding drain_by
  drain_by-some f b event rest holder found = rw found refl

  -- what the loop leaves holds no whole event
  drain_by_settles :
      (f : ℕ) (b : Bytes) (holder h : Fields) (r : Bytes)
      → drain_by loads f b holder ≡ waiting h r
      → split_event r ≡ none
  drain_by_settles zero b holder h r same = cc (drain_by-zero b holder, same)
  drain_by_settles (suc f) b holder h r same = elim (split_event-cases b) [
    | inl absent ↦ cc (drain_by-none f b holder absent, same, absent)
    | inr (event, rest, found) ↦
        go_on_settles (read_lines loads (split_lines event) holder) (drain_by loads f rest) h r
          (λ holder'. drain_by_settles f rest holder' h r)
          (sym (drain_by-some f b event rest holder found) ∙ same)
  ]

  pass_on-cong :
      (d : Drained) (c : Bytes) (f : Bytes → Fields → Passed)
      → ((holder : Fields) (rest : Bytes)
          → d ≡ waiting holder rest
          → (f rest holder).state ≡ drain loads (rest ++ c) holder)
      → (pass_on loads d f).state ≡ resume d c
  unfolding resume
  pass_on-cong (waiting holder rest) c f h = h holder rest refl
  pass_on-cong (failed holder) c f h = refl
  pass_on-cong unfinished c f h = refl

  drain-append :
      (b c : Bytes) (holder : Fields)
      → drain loads (b ++ c) holder ≡ resume (drain loads b holder) c
  unfolding drain
  drain-append b c holder =
      drain_by-append (suc (length b)) (suc (length (b ++ c))) b c holder (omega arith)
        (omega arith)

  -- However the transport cuts the stream, its reading comes to what one read of all of it does.
  pub passthrough_stream-drain :
      (chunks : List Bytes) (buffer : Bytes) (holder : Fields)
      → split_event buffer ≡ none
      → (passthrough_stream loads chunks buffer holder).state
        ≡ drain loads (buffer ++ concat chunks) holder
  unfolding passthrough_stream drain
  passthrough_stream-drain [] buffer holder absent =
      rw append-nil (sym (drain_by-none (length buffer) buffer holder absent))
  passthrough_stream-drain ([] ∷ chunks) buffer holder absent =
      passthrough_stream-drain chunks buffer holder absent
  passthrough_stream-drain ((b ∷ bs) ∷ chunks) buffer holder absent =
      pass_on-cong (drain loads (buffer ++ b ∷ bs) holder) (concat chunks)
        (passthrough_stream loads chunks)
        (λ holder' rest same. passthrough_stream-drain chunks rest holder' (
          drain_by_settles (suc (length (buffer ++ b ∷ bs))) (buffer ++ b ∷ bs) holder holder' rest
            same))
      ∙ sym (drain-append (buffer ++ b ∷ bs) (concat chunks) holder)
      ∙ ap (λ whole. drain loads whole holder) (append_assoc buffer (b ∷ bs) (concat chunks))

  pub passthrough_stream_ends :
      (chunks : List Bytes) (holder : Fields)
      → (passthrough_stream loads chunks [] holder).state ≢ unfinished
  unfolding passthrough_stream drain
  passthrough_stream_ends chunks holder =
      rw (passthrough_stream-drain chunks [] holder refl)
        (drain_by_ends (suc (length (concat chunks))) (concat chunks) holder (omega arith))

  pass_on-sent :
      (d : Drained) (f : Bytes → Fields → Passed) (c : Bytes) (holder : Fields) (rest : Bytes)
      → ((b : Bytes) (h : Fields) → (f b h).state ≡ waiting holder rest → concat (f b h).sent ≡ c)
      → (pass_on loads d f).state ≡ waiting holder rest
      → concat (pass_on loads d f).sent ≡ c
  pass_on-sent (waiting h b) f c holder rest sends h' = sends b h h'
  pass_on-sent (failed h) f c holder rest sends h' = cc
  pass_on-sent unfinished f c holder rest sends h' = cc

  -- A stream whose reading meets no exception reaches the caller byte for byte.
  pub sends_the_bytes :
      (chunks : List Bytes) (buffer : Bytes) (holder holder' : Fields) (rest : Bytes)
      → (passthrough_stream loads chunks buffer holder).state ≡ waiting holder' rest
      → concat (passthrough_stream loads chunks buffer holder).sent ≡ concat chunks
  unfolding passthrough_stream
  sends_the_bytes [] buffer holder holder' rest h = refl
  sends_the_bytes ([] ∷ chunks) buffer holder holder' rest h =
      sends_the_bytes chunks buffer holder holder' rest h
  sends_the_bytes ((b ∷ bs) ∷ chunks) buffer holder holder' rest h =
      ap (λ later. (b ∷ bs) ++ later)
        (pass_on-sent (drain loads (buffer ++ b ∷ bs) holder) (passthrough_stream loads chunks)
          (concat chunks) holder' rest (λ b' h'. sends_the_bytes chunks b' h' holder' rest) h)
