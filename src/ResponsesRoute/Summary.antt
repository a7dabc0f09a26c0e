-- ===== src/ResponsesRoute/Summary.antt =====
-- What app/proxy/compact.py asks the upstream for, and the usage row it leaves.
use inference_proxy.Prelude.{
  ℕ, String, Option, none, some, List, [], ◌∷◌, ◌++◌, ◌≡◌, refl, ap, ◌∙◌, Bool-cases, inl, inr,
  keep, keep-append, eqb, Bool, false, not, arith, if◌then◌else◌,
}
use inference_proxy.Json.{
  Value, null, bool, int, float, str, arr, obj, Fields, end, list, get, lookup, truthy, is_text,
}
use inference_proxy.Json.Laws.{get-put}
use inference_proxy.Upstream.Strip.{is_kept, strip_encrypted_reasoning}
use inference_proxy.Upstream.Rewrites.{list_of, input_items, items-list}
use inference_proxy.Upstream.Stripped.{strip_encrypted_reasoning_lem}
use inference_proxy.Completions.Answers.{Principal}
use inference_proxy.Completions.Rows.{IsMetered, Fits, if-IsMetered, after_schedule-IsMetered}
use inference_proxy.Completions.Entry.{Posted, no_connection, timed_out, broke, answered}
use inference_proxy.ResponsesRoute.Handlers.{Sending, send}
use inference_proxy.ResponsesRoute.Compact.{
  compact_system_prompt, message, asking, with_instructions, with_tools, compact_body, summarized,
  summary_text, on_result, failed_row, on_compacted,
}
use inference_proxy.ResponsesRoute.Retried.{Tries, send-Tries}

-- the message that asks for the summary
abbrev pub prompt : List Value
prompt = obj (message (str compact_system_prompt)) ∷ []

with_instructions-input :
    (body azure_body : Fields)
    → get "input" (with_instructions body azure_body) ≡ get "input" azure_body
unfolding with_instructions
with_instructions-input body azure_body = elim (Bool-cases (truthy (get "instructions" body))) [
  | inl given ↦ rw given (get-put "instructions" "input" (get "instructions" body) azure_body)
  | inr missing ↦ rw missing refl
]

with_tools-input :
    (tools : List Value) (azure_body : Fields)
    → get "input" (with_tools tools azure_body) ≡ get "input" azure_body
unfolding with_tools
with_tools-input [] azure_body = refl
with_tools-input (v ∷ vs) azure_body = get-put "tools" "input" (list (v ∷ vs)) azure_body

compact_body-input :
    (model : String) (conversation tools : List Value) (body : Fields)
    → input_items (compact_body model conversation tools body) ≡ conversation ++ prompt
unfolding compact_body get lookup
compact_body-input model conversation tools body =
    ap list_of (
      with_tools-input tools (with_instructions body (asking model conversation))
      ∙ with_instructions-input body (asking model conversation))
    ∙ items-list (conversation ++ prompt)

-- that a body asks for a summary of these items
abbrev pub Asks : List Value → Fields → Type 0
Asks conversation body = input_items body ≡ conversation ++ prompt

abbrev is_thought : Value → Bool
is_thought (obj fs) = is_text "reasoning" (get "type" fs)
is_thought _ = false

-- the items that are no reasoning
abbrev pub without_thoughts : List Value → List Value
without_thoughts [] = []
without_thoughts (v ∷ vs) = if is_thought v then without_thoughts vs else v ∷ without_thoughts vs

-- one body that asks for all of it, or that one and then one that leaves the reasoning out
abbrev pub AllAsk : List Value → List Fields → Type 0
AllAsk conversation (body ∷ []) = Asks conversation body
AllAsk conversation (body ∷ again ∷ []) =
    Asks conversation body × Asks (without_thoughts conversation) again
AllAsk conversation _ = ⊥

kept-thought : (v : Value) → is_kept v ≡ not (is_thought v)
unfolding get
kept-thought (obj fs) = refl
kept-thought _ = refl

keep-thoughts : (vs : List Value) → keep is_kept vs ≡ without_thoughts vs
unfolding get
keep-thoughts [] = refl
keep-thoughts (v ∷ vs) = ground (arith, kept-thought v, keep-thoughts vs)

stripped-Asks :
    (conversation : List Value) (body : Fields)
    → input_items body ≡ conversation ++ prompt
    → Asks (without_thoughts conversation) (strip_encrypted_reasoning body).0
unfolding get lookup
stripped-Asks conversation body whole =
    (strip_encrypted_reasoning_lem body).0
    ∙ ap (keep is_kept) whole
    ∙ keep-append is_kept conversation prompt
    ∙ ap (λ vs. vs ++ prompt) (keep-thoughts conversation)

module _ (post : Fields → Posted) (model : String) (conversation tools : List Value)
    (body : Fields) where
  tried-AllAsk :
      (sending : Sending)
      → Tries post (compact_body model conversation tools body) sending.posted
      → AllAsk conversation sending.posted
  tried-AllAsk sending (inl (h, why)) = rw h (compact_body-input model conversation tools body)
  tried-AllAsk sending (inr (h, why)) =
      let whole = compact_body-input model conversation tools body in
      rw h (whole, stripped-Asks conversation (compact_body model conversation tools body) whole)

  -- A compaction posts one body or two. The first has all items of the conversation in order, the
  -- second those that are no reasoning, in order, and behind them both have the message that asks for
  -- the summary.
  pub send-AllAsk :
      AllAsk conversation (send post (compact_body model conversation tools body)).posted
  send-AllAsk =
      tried-AllAsk (send post (compact_body model conversation tools body))
        (send-Tries post (compact_body model conversation tools body))

module _ (loads : String → Option Value) (decimal : ℕ → String) where
  summarized-Fits : (summary : Option String) → Fits 200 (summarized summary)
  unfolding summarized
  summarized-Fits none = refl
  summarized-Fits (some summary) = refl

  on_result-IsMetered :
      (principal : Principal) (parsed : Option Value)
      → IsMetered principal (on_result principal parsed)
  unfolding IsMetered on_result
  on_result-IsMetered principal (some (obj result)) =
      after_schedule-IsMetered principal (get "usage" result) (summarized (summary_text result))
        (summarized-Fits (summary_text result))
  on_result-IsMetered principal none = tt
  on_result-IsMetered principal (some null) = tt
  on_result-IsMetered principal (some (bool b)) = tt
  on_result-IsMetered principal (some (int z)) = tt
  on_result-IsMetered principal (some (float m k)) = tt
  on_result-IsMetered principal (some (str s)) = tt
  on_result-IsMetered principal (some (arr vs)) = tt

  -- A compaction leaves one usage row with the status that the caller is sent, or with 200 where the
  -- summary cannot be read and the call ends in an exception; a row is missing only where an exception
  -- ends the call.
  pub on_compacted-IsMetered :
      (principal : Principal) (posted : Posted)
      → IsMetered principal (on_compacted loads decimal principal posted)
  unfolding IsMetered on_compacted failed_row
  on_compacted-IsMetered principal no_connection =
      (502, some (str "connect_error"), end, refl, refl)
  on_compacted-IsMetered principal timed_out = (504, some (str "timeout"), end, refl, refl)
  on_compacted-IsMetered principal broke = tt
  on_compacted-IsMetered principal (answered reply) =
      if-IsMetered principal (eqb reply.status 200) _ _
        (on_result-IsMetered principal (loads reply.text)) (reply.status, _, end, refl, refl)
