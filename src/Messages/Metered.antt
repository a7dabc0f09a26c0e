-- ===== src/Messages/Metered.antt =====
-- The usage rows of the Messages route of app/proxy/anthropic.py.
use inference_proxy.Prelude.{
  ℕ, String, Bool, true, false, Option, none, some, List, [], ◌++◌, ◌≡◌, refl, sym, ap, ◌∙◌, eqb,
  Bool-cases, inl, inr,
}
use inference_proxy.Json.{Value, Fields, end}
use inference_proxy.Metering.{Scheduled, schedule}
use inference_proxy.Messages.Bytes.{Bytes, concat}
use inference_proxy.Messages.Sniff.{Drained, waiting, failed, unfinished, passthrough_stream, drain}
use inference_proxy.Messages.Chunking.{passthrough_stream-drain}
use inference_proxy.Messages.Body.{usage_from_anthropic}
use inference_proxy.Messages.Route.{
  Posted, no_connection, timed_out, broke, answered, Served, replied, raised_error, streamed,
  crashed, Principal, Answer, Upstream, completed, complete, refused_upstream, handle_non_streaming,
  is_none, farewell, stream_error, with_total, meter, close, passthrough, handle_streaming, forward,
}

-- the status that the caller is sent
abbrev IsSent : ℕ → Served → Type 0
IsSent status (replied sent body) = sent ≡ status
IsSent status (raised_error sent message) = sent ≡ status
IsSent status (streamed chunks broken) = status ≡ 200
IsSent status _ = ⊥

-- That the row has the status that the caller is sent, and that a row is missing only where the
-- answer is an exception's.
abbrev pub IsMetered : Principal → Answer → Type 0
unfolding schedule
IsMetered principal (served, some row) =
    (status : ℕ) × (error : Option Value) × (usage : Fields) × (row
      ≡ schedule principal status error usage)
    × IsSent status served
IsMetered principal (crashed, none) = Unit
IsMetered principal (streamed chunks true, none) = Unit
IsMetered principal (served, none) = ⊥

module _ (decimal : ℕ → String) (loads : Bytes → Option Value) (float_sum : Value → Value → Value)
    (error_event : Bytes) where
  completed-IsMetered :
      (principal : Principal) (result : Value) (usage : Option Fields)
      → IsMetered principal (completed decimal principal result usage)
  unfolding IsMetered completed
  completed-IsMetered principal result none = tt
  completed-IsMetered principal result (some usage) = (200, none, usage, refl, refl)

  complete-IsMetered :
      (principal : Principal) (body : Option Value)
      → IsMetered principal (complete decimal principal body)
  unfolding IsMetered complete
  complete-IsMetered principal none = tt
  complete-IsMetered principal (some result) =
      completed-IsMetered principal result (usage_from_anthropic result)

  refused_upstream-IsMetered :
      (principal : Principal) (status : ℕ) (body : Option Value)
      → IsMetered principal (refused_upstream decimal principal status body)
  unfolding IsMetered refused_upstream
  refused_upstream-IsMetered principal status body = (status, _, end, refl, refl)

  handle_non_streaming-IsMetered :
      (principal : Principal) (status : ℕ) (body : Option Value)
      → IsMetered principal (handle_non_streaming decimal principal status body)
  unfolding handle_non_streaming
  handle_non_streaming-IsMetered principal status body = elim (Bool-cases (eqb status 200)) [
    | inl good ↦ rw good (complete-IsMetered principal body)
    | inr bad ↦ rw bad (refused_upstream-IsMetered principal status body)
  ]

  closed-IsMetered :
      (principal : Principal) (sent : List Bytes) (error : Option Value) (captured : Option Fields)
      → IsMetered principal (
        streamed sent (is_none captured),
        meter decimal loads float_sum error_event principal error captured,
      )
  unfolding IsMetered meter
  closed-IsMetered principal sent error none = tt
  closed-IsMetered principal sent error (some captured) = (200, error, captured, refl, refl)

  broken-IsMetered :
      (principal : Principal) (sent : List Bytes) (captured : Option Fields)
      → IsMetered principal
          (streamed sent true, meter decimal loads float_sum error_event principal none captured)
  unfolding IsMetered meter
  broken-IsMetered principal sent none = tt
  broken-IsMetered principal sent (some captured) = (200, none, captured, refl, refl)

  close-IsMetered :
      (principal : Principal) (sent : List Bytes) (died : Option String) (d : Drained)
      → IsMetered principal (close decimal loads float_sum error_event principal sent died d)
  unfolding close
  close-IsMetered principal sent died (waiting captured rest) =
      closed-IsMetered principal (sent ++ farewell decimal loads float_sum error_event died)
        (stream_error decimal loads float_sum error_event died)
        (with_total decimal loads float_sum error_event captured)
  close-IsMetered principal sent died (failed captured) =
      broken-IsMetered principal sent (with_total decimal loads float_sum error_event captured)
  close-IsMetered principal sent died unfinished = nothing principal
    where
      nothing : (principal : Principal) → IsMetered principal (crashed, none)
      nothing principal = tt

  handle_streaming-IsMetered :
      (principal : Principal) (status : ℕ) (reply : Upstream)
      → IsMetered principal
          (handle_streaming decimal loads float_sum error_event principal status reply)
  unfolding handle_streaming passthrough
  handle_streaming-IsMetered principal status reply = elim (Bool-cases (eqb status 200)) [
    | inl good ↦ rw good (
        close-IsMetered principal (passthrough_stream loads reply.chunks [] end).sent reply.died
          (passthrough_stream loads reply.chunks [] end).state)
    | inr bad ↦ rw bad (refused_upstream-IsMetered principal status reply.body)
  ]

  -- The row of a call has the status that the caller is sent, and a call without a row is one that
  -- an exception ended.
  pub forward-IsMetered :
      (principal : Principal) (streaming : Bool) (posted : Posted Upstream)
      → IsMetered principal (forward decimal loads float_sum error_event principal streaming posted)
  unfolding forward IsMetered
  forward-IsMetered principal streaming no_connection = (502, _, end, refl, refl)
  forward-IsMetered principal streaming timed_out = (504, _, end, refl, refl)
  forward-IsMetered principal streaming broke = tt
  forward-IsMetered principal true (answered status reply) =
      handle_streaming-IsMetered principal status reply
  forward-IsMetered principal false (answered status reply) =
      handle_non_streaming-IsMetered principal status reply.body

  abbrev closing_row : Principal → List Bytes → Option String → Drained → Option Scheduled
  unfolding close
  closing_row principal sent died d =
      (close decimal loads float_sum error_event principal sent died d).1

  -- what was sent does not matter to the row
  close_row :
      (principal : Principal) (sent sent' : List Bytes) (died : Option String) (d : Drained)
      → closing_row principal sent died d ≡ closing_row principal sent' died d
  unfolding closing_row
  close_row principal sent sent' died (waiting captured rest) = refl
  close_row principal sent sent' died (failed captured) = refl
  close_row principal sent sent' died unfinished = refl

  -- Two streams of the same bytes that end alike make the same row, however they are cut.
  pub same_bytes_same_row :
      (principal : Principal) (one other : Upstream)
      → concat one.chunks ≡ concat other.chunks
      → one.died ≡ other.died
      → (passthrough decimal loads float_sum error_event principal one).1
        ≡ (passthrough decimal loads float_sum error_event principal other).1
  unfolding passthrough closing_row
  same_bytes_same_row principal one other bytes died =
      close_row principal _ (passthrough_stream loads other.chunks [] end).sent one.died
        (passthrough_stream loads one.chunks [] end).state
      ∙ ap (closing_row principal (passthrough_stream loads other.chunks [] end).sent one.died)
          same_state
      ∙ ap
          (λ died.
            closing_row principal (passthrough_stream loads other.chunks [] end).sent died
              (passthrough_stream loads other.chunks [] end).state)
          died
    where
      same_state :
          (passthrough_stream loads one.chunks [] end).state
          ≡ (passthrough_stream loads other.chunks [] end).state
      same_state =
          passthrough_stream-drain loads one.chunks [] end refl
          ∙ ap (λ whole. drain loads whole end) bytes
          ∙ sym (passthrough_stream-drain loads other.chunks [] end refl)
