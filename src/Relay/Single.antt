-- ===== src/Relay/Single.antt =====
-- Which attempt of app/proxy/websocket.py speaks to the client.
use inference_proxy.Prelude.{
  ℕ, zero, suc, String, Bool, true, false, not, ◌&&◌, Option, none, some, List, [], ◌∷◌, ◌≡◌, refl,
  ◌∙◌, Bool-cases, inl, inr, ◌⊎◌, if◌then◌else◌, ltb, eqb, ◌≤◌, ◌+◌, arith,
}
use inference_proxy.Json.{Value, str, Fields}
use inference_proxy.Text.{contains}
use inference_proxy.Overflow.{overflow_message}
use inference_proxy.Upstream.Strip.{strip_encrypted_reasoning}
use inference_proxy.ResponsesRoute.Handlers.{is_invalid_encrypted_content}
use inference_proxy.Relay.Lines.{
  Message, Turn, Left, over, raised, payload_of, flushes, hand_on, failed, is_error, overflowed,
  overflow_in, completed, stop, go_on, step_with, follow, read_payload, read_lines,
}
use inference_proxy.Relay.Attempts.{
  Reply, replied, raises, State, Tried, again, ended, opened, after_lines, retry_or_end, stripped,
  on_refusal, on_reply, attempts_from, next_attempt, start, relay, max_retries,
}

-- an attempt that flushed nothing sent nothing
abbrev pub Silent : List Message → Turn → Type 0
Silent sent t = t.flushed ≡ false → t.sent ≡ sent

abbrev LeftSilent : List Message → Left → Type 0
LeftSilent sent (over t) = Silent sent t
LeftSilent sent (raised t) = Silent sent t

hand_on-Silent :
    (sent : List Message) (payload : String) (t : Turn)
    → Silent sent t
    → Silent sent (hand_on payload t)
unfolding hand_on
hand_on-Silent sent payload t silent = elim (Bool-cases t.flushed) [
  | inl flushed ↦ rw flushed (λ h. cc)
  | inr waiting ↦ elim (Bool-cases (flushes payload)) [
    | inl mark ↦ rw (waiting, mark) (λ h. cc)
    | inr unmarked ↦ rw (waiting, unmarked) (λ h. silent waiting)
  ]
]

module _ (loads : String → Option Value) where
  completed-Silent :
      (sent : List Message) (payload : String) (t : Turn)
      → Silent sent t
      → Silent sent (completed loads payload t)
  unfolding completed
  completed-Silent sent payload t silent =
      elim (Bool-cases (contains "response.completed" payload)) [
        | inl done ↦ rw done silent
        | inr other ↦ rw other silent
      ]

  decided-Silent :
      (bad : Bool) (sent : List Message) (payload : String) (t : Turn) (go : Turn → Left)
      → Silent sent t
      → ((u : Turn) → Silent sent u → LeftSilent sent (go u))
      → LeftSilent sent (
          follow loads
            (if bad
              then stop (failed loads payload t)
              else go_on (hand_on payload (completed loads payload t)))
            go)
  unfolding failed
  decided-Silent true sent payload t go silent rest = silent
  decided-Silent false sent payload t go silent rest =
      rest (hand_on payload (completed loads payload t)) (
        hand_on-Silent sent payload (completed loads payload t)
          (completed-Silent sent payload t silent))

  payload-Silent :
      (overflow : Option String) (sent : List Message) (payload : String) (t : Turn)
      (go : Turn → Left)
      → Silent sent t
      → ((u : Turn) → Silent sent u → LeftSilent sent (go u))
      → LeftSilent sent (follow loads (step_with loads payload t overflow) go)
  unfolding step_with overflowed
  payload-Silent (some sentence) sent payload t go silent rest = λ h. cc
  payload-Silent none sent payload t go silent rest =
      decided-Silent (is_error payload) sent payload t go silent rest

  line-Silent :
      (payload : Option String) (sent : List Message) (t : Turn) (go : Turn → Left)
      → Silent sent t
      → ((u : Turn) → Silent sent u → LeftSilent sent (go u))
      → LeftSilent sent (read_payload loads payload t go)
  unfolding read_payload
  line-Silent none sent t go silent rest = rest t silent
  line-Silent (some payload) sent t go silent rest =
      payload-Silent (overflow_in loads payload) sent payload t go silent rest

  read_lines-Silent :
      (broken : Bool) (lines : List String) (sent : List Message) (t : Turn)
      → Silent sent t
      → LeftSilent sent (read_lines loads broken lines t)
  unfolding read_lines
  read_lines-Silent true [] sent t silent = silent
  read_lines-Silent false [] sent t silent = silent
  read_lines-Silent broken (line ∷ lines) sent t silent =
      line-Silent (payload_of line) sent t (read_lines loads broken lines) silent
        (λ u silent'. read_lines-Silent broken lines sent u silent')

module _ (loads : String → Option Value) (exception : Value) where
  -- that whoever tries again has sent nothing of its own
  abbrev Quiet : List Message → Tried → Type 0
  Quiet sent (again s) = s.sent ≡ sent
  Quiet sent (ended s) = sent ≡ sent

  after_lines-Quiet :
      (attempt : ℕ) (s : State) (left : Left)
      → LeftSilent s.sent left
      → Quiet s.sent (after_lines loads exception attempt s left)
  unfolding after_lines
  after_lines-Quiet attempt s (raised t) silent = refl
  after_lines-Quiet attempt s (over t) silent = elim (Bool-cases t.flushed) [
    | inl flushed ↦ elim (Bool-cases t.got_error) [
      | inl bad ↦ rw (flushed, bad) refl
      | inr fine ↦ rw (flushed, fine) refl
    ]
    | inr waiting ↦ elim (Bool-cases t.got_error) [
      | inl bad ↦ elim (Bool-cases (ltb attempt max_retries)) [
        | inl more ↦ rw (waiting, bad, more) (silent waiting)
        | inr last ↦ rw (waiting, bad, last) refl
      ]
      | inr fine ↦ rw (waiting, fine) refl
    ]
  ]

  retry_or_end-Quiet :
      (attempt status : ℕ) (s : State)
      → Quiet s.sent (retry_or_end loads exception attempt status s)
  unfolding retry_or_end
  retry_or_end-Quiet attempt status s = elim (Bool-cases (ltb attempt max_retries)) [
    | inl more ↦ rw more refl
    | inr last ↦ rw last refl
  ]

  stripped-Quiet :
      (attempt status : ℕ) (s : State) (out : Fields × ℕ)
      → Quiet s.sent (stripped loads exception attempt status s out)
  unfolding stripped
  stripped-Quiet attempt status s (body, zero) =
      retry_or_end-Quiet attempt status (record s { azure_body = body })
  stripped-Quiet attempt status s (body, suc n) = refl

  decided_refusal-Quiet :
      (strips : Bool) (attempt status : ℕ) (s : State)
      → Quiet s.sent (
          if strips
          then stripped loads exception attempt status s (strip_encrypted_reasoning s.azure_body)
          else retry_or_end loads exception attempt status s)
  decided_refusal-Quiet true attempt status s =
      stripped-Quiet attempt status s (strip_encrypted_reasoning s.azure_body)
  decided_refusal-Quiet false attempt status s = retry_or_end-Quiet attempt status s

  on_refusal-Quiet :
      (attempt status : ℕ) (body : String) (overflow : Option String) (s : State)
      → Quiet s.sent (on_refusal loads exception attempt status body overflow s)
  unfolding on_refusal
  on_refusal-Quiet attempt status body (some sentence) s = refl
  on_refusal-Quiet attempt status body none s =
      decided_refusal-Quiet
        (not s.stripped_reasoning && eqb status 400 && is_invalid_encrypted_content body) attempt
        status s

  on_reply-Quiet :
      (attempt : ℕ) (reply : Reply) (s : State)
      → Quiet s.sent (on_reply loads exception attempt reply s)
  unfolding on_reply
  on_reply-Quiet attempt raises s = refl
  on_reply-Quiet attempt (replied status body lines broken) s = elim (Bool-cases (eqb status 200)) [
    | inl fine ↦ rw fine (
        after_lines-Quiet attempt s (read_lines loads broken lines (opened s))
          (read_lines-Silent loads broken lines s.sent (opened s) (λ h. refl)))
    | inr refused ↦
        rw refused (on_refusal-Quiet attempt status body (overflow_message loads (str body)) s)
  ]

  module _ (upstream : ℕ → Fields → Reply) where
    -- an attempt that starts with nothing sent and ends the run
    abbrev pub Speaks : State → Type 0
    Speaks final =
        (n : ℕ) × (s : State) × (n ≤ max_retries)
        × (s.sent ≡ [])
        × (on_reply loads exception n (upstream n s.azure_body) s ≡ ended final)

    abbrev pub SpeaksOnce : State → Type 0
    SpeaksOnce final = (final.sent ≡ []) ⊎ Speaks final

    tried_once :
        (n : ℕ) (s : State) (tried : Tried) (go : State → State)
        → n ≤ max_retries
        → s.sent ≡ []
        → on_reply loads exception n (upstream n s.azure_body) s ≡ tried
        → Quiet s.sent tried
        → ((u : State) → u.sent ≡ [] → SpeaksOnce (go u))
        → SpeaksOnce (next_attempt loads exception upstream tried go)
    tried_once n s (again u) go within none_sent same quiet rest = rest u (quiet ∙ none_sent)
    tried_once n s (ended u) go within none_sent same quiet rest =
        inr (n, s, within, none_sent, same)

    attempts_from-SpeaksOnce :
        (left n : ℕ) (s : State)
        → n + left ≤ suc max_retries
        → s.sent ≡ []
        → SpeaksOnce (attempts_from loads exception upstream left n s)
    unfolding attempts_from
    attempts_from-SpeaksOnce zero n s within none_sent = inl none_sent
    attempts_from-SpeaksOnce (suc left) n s within none_sent =
        tried_once n s (on_reply loads exception n (upstream n s.azure_body) s)
          (attempts_from loads exception upstream left (suc n)) (omega arith) none_sent refl
          (on_reply-Quiet n (upstream n s.azure_body) s)
          (λ u none_sent'. attempts_from-SpeaksOnce left (suc n) u (omega arith) none_sent')

    -- The run of a request, whatever the upstream does: the client is sent nothing at all, or everything
    -- it is sent comes out of one attempt, at most the fifth, which starts with nothing sent and ends the
    -- run. An attempt that is tried again leaves no message behind.
    pub relay-SpeaksOnce : (body : Fields) → SpeaksOnce (relay loads exception upstream body)
    unfolding relay
    relay-SpeaksOnce body =
        attempts_from-SpeaksOnce max_retries 1 (start loads exception upstream body) (omega arith)
          refl
