-- ===== src/ResponsesRoute/Retried.antt =====
-- The one retry of app/proxy/responses.py, and what both handlers say of a refusal.
use inference_proxy.Prelude.{
  ℕ, zero, suc, String, Bool, true, false, ◌&&◌, ◌<◌, arith, Option, some, List, [], ◌∷◌, ◌≡◌, refl,
  sym, ap, ◌∙◌, ◌⊎◌, inl, inr, if◌then◌else◌, eqb, Bool-cases,
}
use inference_proxy.Json.{Value, str, Fields}
use inference_proxy.Upstream.Strip.{strip_encrypted_reasoning}
use inference_proxy.Completions.Answers.{Principal, Upstream}
use inference_proxy.Completions.Entry.{Posted, no_connection, timed_out, broke, answered}
use inference_proxy.ResponsesRoute.Handlers.{
  is_invalid_encrypted_content, Handled, Sending, once, second, retry, send, on_posted, refused,
  plain_result, error_400, stream_result, retried, first_reply, stream_posted, handle_non_streaming,
  handle_streaming,
}

-- why a second body is posted
abbrev pub IsRetry : (Fields → Posted) → Fields → Type 0
IsRetry post body =
    (reply : Upstream) × (post body ≡ answered reply)
    × (eqb reply.status 400 ≡ true)
    × (is_invalid_encrypted_content reply.text ≡ true)
    × (0 < (strip_encrypted_reasoning body).1)

both_true : (a b : Bool) → (a && b) ≡ true → (a ≡ true) × (b ≡ true)
both_true a b h = ground arith

module _ (post : Fields → Posted) (body : Fields) where
  second-posted :
      (first : Sending) (stripped : Fields × ℕ)
      → (((second post body first stripped).posted ≡ first.posted) × (0 < stripped.1 → ⊥))
        ⊎ (((second post body first stripped).posted ≡ body ∷ stripped.0 ∷ []) × (0 < stripped.1))
  second-posted first (retry_body, zero) = inl (refl, λ h. omega arith)
  second-posted first (retry_body, suc n) = inr (refl, omega arith)

  -- once, where there is no reason to post again, or twice, where there is one
  abbrev pub Tries : List Fields → Type 0
  Tries posted =
      ((posted ≡ body ∷ []) × (IsRetry post body → ⊥))
      ⊎ ((posted ≡ body ∷ (strip_encrypted_reasoning body).0 ∷ []) × IsRetry post body)

  no_retry :
      (reply : Upstream)
      → post body ≡ answered reply
      → (eqb reply.status 400 && is_invalid_encrypted_content reply.text) ≡ false
      → IsRetry post body
      → ⊥
  no_retry reply same test (other, same', bad, names, removed) =
      let e : reply ≡ other = cc in
      let bad' = (rw (sym e) at bad) in
      let names' = (rw (sym e) at names) in cc (rw (bad', names') at test)

  retry_if :
      (t : Bool) (reply : Upstream) (first : Sending)
      → t ≡ (eqb reply.status 400 && is_invalid_encrypted_content reply.text)
      → post body ≡ answered reply
      → first.posted ≡ body ∷ []
      → Tries (if t then second post body first (strip_encrypted_reasoning body) else first).posted
  retry_if true reply first test same alone =
      elim (second-posted first (strip_encrypted_reasoning body)) [
        | inl (kept, none_removed) ↦
            inl (kept ∙ alone, λ (why : IsRetry post body). none_removed why.4)
        | inr (posted, removed) ↦
            let (bad, names) =
              both_true (eqb reply.status 400) (is_invalid_encrypted_content reply.text)
                (sym test) in
            inr (posted, (reply, same, bad, names, removed))
      ]
  retry_if false reply first test same alone = inl (alone, no_retry reply same (sym test))

  retry-Tries :
      (p : Posted) (first : Sending)
      → post body ≡ p
      → first.posted ≡ body ∷ []
      → Tries (retry post body first p).posted
  unfolding retry
  retry-Tries (answered reply) first same alone =
      retry_if (eqb reply.status 400 && is_invalid_encrypted_content reply.text) reply first refl
        same alone
  retry-Tries no_connection first same alone = inl (alone, λ (why : IsRetry post body). cc (why.1))
  retry-Tries timed_out first same alone = inl (alone, λ (why : IsRetry post body). cc (why.1))
  retry-Tries broke first same alone = inl (alone, λ (why : IsRetry post body). cc (why.1))

  pub send-Tries : Tries (send post body).posted
  unfolding send
  send-Tries = retry-Tries (post body) (once post body) refl refl

abbrev pub is_good : Posted → Bool
is_good (answered reply) = eqb reply.status 200
is_good _ = false

module _ (loads : String → Option Value) (decimal : ℕ → String) (post : Fields → Posted)
    (principal : Principal) (body : Fields) where
  results_alike :
      (q : Posted)
      → is_good q ≡ false
      → (on_posted principal q (stream_result loads decimal principal)).0
        ≡ (on_posted principal q (plain_result loads decimal principal)).0
  unfolding on_posted stream_result plain_result
  results_alike (answered reply) h = rw h refl
  results_alike no_connection h = refl
  results_alike timed_out h = refl
  results_alike broke h = refl

  -- the streamed call after a first reply, and the plain call on what comes of it
  abbrev Alike : Upstream → Sending → Handled → Type 0
  Alike reply sending handled =
      is_good sending.outcome ≡ false
      → handled.0 ≡ (on_posted principal sending.outcome (plain_result loads decimal principal)).0

  refused-plain :
      (reply : Upstream) (error : Option Value)
      → eqb reply.status 200 ≡ false
      → (refused loads decimal principal error reply).0
        ≡ (plain_result loads decimal principal reply).0
  unfolding refused plain_result
  refused-plain reply error h = rw h refl

  refused-Alike :
      (reply : Upstream) (first : Sending) (error : Option Value)
      → first.outcome ≡ answered reply
      → Alike reply first (refused loads decimal principal error reply)
  unfolding on_posted
  refused-Alike reply first error same h =
      refused-plain reply error (ap is_good (sym same) ∙ h)
      ∙ ap (λ p. (on_posted principal p (plain_result loads decimal principal)).0) (sym same)

  streamed-Alike :
      (reply : Upstream) (first : Sending)
      → first.outcome ≡ answered reply
      → Alike reply first (stream_result loads decimal principal reply)
  unfolding on_posted
  streamed-Alike reply first same h =
      results_alike (answered reply) (ap is_good (sym same) ∙ h)
      ∙ ap (λ p. (on_posted principal p (plain_result loads decimal principal)).0) (sym same)

  retried-Alike :
      (reply : Upstream) (first : Sending) (stripped : Fields × ℕ)
      → first.outcome ≡ answered reply
      → Alike reply
          (second post body first stripped)
          (retried loads decimal post principal body reply stripped).handled
  unfolding retried on_posted
  retried-Alike reply first (retry_body, suc n) same h = results_alike (post retry_body) h
  retried-Alike reply first (retry_body, zero) same h =
      refused-Alike reply first (some (str "azure_400")) same h

  first_reply-Alike :
      (reply : Upstream) (first : Sending)
      → first.outcome ≡ answered reply
      → Alike reply
          (retry post body first (answered reply))
          (first_reply loads decimal post principal body reply).handled
  unfolding first_reply retry
  first_reply-Alike reply first same = elim (Bool-cases (eqb reply.status 400)) [
    | inl bad ↦ elim (Bool-cases (is_invalid_encrypted_content reply.text)) [
      | inl names ↦
          rw (bad, names) (retried-Alike reply first (strip_encrypted_reasoning body) same)
      | inr other ↦
          rw (bad, other) (refused-Alike reply first (some (error_400 loads decimal reply)) same)
    ]
    | inr fine ↦ rw fine (streamed-Alike reply first same)
  ]

  posted-Alike :
      (p : Posted) (first : Sending)
      → first.outcome ≡ p
      → is_good (retry post body first p).outcome ≡ false
      → (stream_posted loads decimal post principal body p).handled.0
        ≡ (on_posted principal
            (retry post body first p).outcome
            (plain_result loads decimal principal)).0
  unfolding stream_posted on_posted retry
  posted-Alike (answered reply) first same h = first_reply-Alike reply first same h
  posted-Alike no_connection first same h = rw same refl
  posted-Alike timed_out first same h = rw same refl
  posted-Alike broke first same h = rw same refl

  -- Where a call does not end in a 200, the streaming handler tells the caller what the plain one
  -- tells it.
  pub refused_alike :
      is_good (send post body).outcome ≡ false
      → (handle_streaming loads decimal post principal body).handled.0
        ≡ (handle_non_streaming loads decimal post principal body).0
  unfolding send handle_streaming handle_non_streaming
  refused_alike h = posted-Alike (post body) (once post body) refl h

  retried-posted :
      (reply : Upstream) (stripped : Fields × ℕ)
      → (retried loads decimal post principal body reply stripped).posted
        ≡ (second post body (once post body) stripped).posted
  unfolding retried
  retried-posted reply (retry_body, zero) = refl
  retried-posted reply (retry_body, suc n) = refl

  first_reply-posted :
      (reply : Upstream)
      → (first_reply loads decimal post principal body reply).posted
        ≡ (retry post body (once post body) (answered reply)).posted
  unfolding first_reply retry
  first_reply-posted reply = elim (Bool-cases (eqb reply.status 400)) [
    | inl bad ↦ elim (Bool-cases (is_invalid_encrypted_content reply.text)) [
      | inl names ↦ rw (bad, names) (retried-posted reply (strip_encrypted_reasoning body))
      | inr other ↦ rw (bad, other) refl
    ]
    | inr fine ↦ rw fine refl
  ]

  stream_posted-posted :
      (p : Posted)
      → (stream_posted loads decimal post principal body p).posted
        ≡ (retry post body (once post body) p).posted
  unfolding stream_posted retry
  stream_posted-posted (answered reply) = first_reply-posted reply
  stream_posted-posted no_connection = refl
  stream_posted-posted timed_out = refl
  stream_posted-posted broke = refl

  -- A Responses call posts its body once, or a second time without its reasoning items, and that
  -- exactly where the first was answered by a 400 that names encrypted content and there was reasoning
  -- to remove; and a streamed call posts the same bodies as a plain one.
  pub posts_at_most_twice :
      Tries post body (send post body).posted
      × ((handle_streaming loads decimal post principal body).posted ≡ (send post body).posted)
  unfolding send handle_streaming
  posts_at_most_twice = (send-Tries post body, stream_posted-posted (post body))
