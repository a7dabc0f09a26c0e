-- ===== src/Anthropic/Request/Turns.antt =====
-- The turns of a request that app/proxy/chat_to_anthropic.py translates.
use inference_proxy.Prelude.{
  ℕ, suc, String, Bool, true, false, not, ◌&&◌, Option, List, [], ◌∷◌, ◌++◌, ◌≡◌, refl, arith, all,
  keep, keep-append, append_assoc, append-nil, Bool-cases, inl, inr, ap, sym, ◌∙◌, subst,
}
use mathlib.Core.List.{reverse_aux}
use inference_proxy.Json.{Value, obj, Fields, get}
use inference_proxy.Anthropic.Request.Result.{Result, ok, err, bind-eq-ok, ok-injective}
use inference_proxy.Anthropic.Request.Content.{
  Block, tool_result, text_of, content_blocks, reasoning_blocks, tool_use_blocks, tool_result_block,
}
use inference_proxy.Anthropic.Request.Messages.{
  Role, user, Turn, Progress, Speaker, system, tool, other, speaker, is_result, is_results,
  add_system, iterated, add_result, add_turn, add_message, add_value, add_messages,
}
use inference_proxy.Anthropic.Request.Results.{
  HasNoResults, append_HasNoResults, content_blocks_free, reasoning_blocks_free,
  tool_use_blocks_free,
}
use inference_proxy.Anthropic.Request.Body.{
  Body, blank, transform_to_anthropic_messages, transform-eq-ok,
}

abbrev pub has_content : Turn → Bool
has_content turn = elim turn.content [ [] ↦ false | b ∷ bs ↦ true ]

-- not both turns hold tool results alone
abbrev pub apart : Turn → List Turn → Bool
apart t [] = true
apart t (u ∷ us) = not (is_results t && is_results u)

-- Each turn says something, and no two neighbours hold tool results alone.
abbrev pub well_formed : List Turn → Bool
well_formed [] = true
well_formed (t ∷ ts) = has_content t && apart t ts && well_formed ts

abbrev joined : List Turn → List Turn → Bool
joined [] us = true
joined (t ∷ ts) us = apart t us

joined_nil : (ts : List Turn) → joined ts [] ≡ true
joined_nil [] = refl
joined_nil (t ∷ ts) = refl

all_of_none : (b : Block) (bs : List Block) → HasNoResults (b ∷ bs) → all is_result (b ∷ bs) ≡ false
all_of_none b bs h = ground arith

add_turn-well_formed :
    (role : Role) (bs : List Block) (ts : List Turn)
    → HasNoResults bs
    → well_formed ts ≡ true
    → well_formed (add_turn role bs ts) ≡ true
unfolding add_turn
add_turn-well_formed role [] ts h w = w
add_turn-well_formed role (b ∷ bs) [] h w = refl
add_turn-well_formed role (b ∷ bs) (u ∷ us) h w = ground (arith, all_of_none b bs h)

has_content_append :
    (bs : List Block) (b : Block) (role : Role)
    → has_content (record { role = role; content = bs ++ b ∷ [] }) ≡ true
has_content_append [] b role = refl
has_content_append (c ∷ bs) b role = refl

add_result-well_formed :
    (id : Value) (c : String) (ts : List Turn)
    → well_formed ts ≡ true
    → well_formed (add_result (tool_result id c) ts) ≡ true
unfolding add_result
add_result-well_formed id c [] w = refl
add_result-well_formed id c (last ∷ []) w =
    ground (arith, has_content_append last.content (tool_result id c) last.role)
add_result-well_formed id c (last ∷ u ∷ us) w =
    ground (arith, has_content_append last.content (tool_result id c) last.role)

-- the tool results of the turns, which are held with the last turn first
unfoldable pub results : List Turn → List Block
results [] = []
results (t ∷ ts) = results ts ++ keep is_result t.content

keep_none : (bs : List Block) → HasNoResults bs → keep is_result bs ≡ []
keep_none [] h = refl
keep_none (b ∷ bs) h = ground (arith, keep_none bs)

results-add_turn :
    (role : Role) (bs : List Block) (ts : List Turn)
    → HasNoResults bs
    → results (add_turn role bs ts) ≡ results ts
unfolding add_turn results
results-add_turn role [] ts h = refl
results-add_turn role (b ∷ bs) ts h = rw (keep_none (b ∷ bs) h) (append-nil (results ts))

results-add_result :
    (id : Value) (c : String) (ts : List Turn)
    → results (add_result (tool_result id c) ts) ≡ results ts ++ tool_result id c ∷ []
unfolding add_result results
results-add_result id c [] = refl
results-add_result id c (last ∷ before) = elim (Bool-cases (is_results last)) [
  | inl same ↦
      rw (same, keep-append)
        (sym (append_assoc (results before) (keep is_result last.content) (tool_result id c ∷ [])))
  | inr new ↦ rw new
]

module _ (dumps : Value → String) (loads : String → Option Value) (mint : ℕ → ℕ → String) where
  abbrev block_of : Result Block → List Block
  block_of (ok b) = b ∷ []
  block_of (err e) = []

  abbrev spoken_result : Speaker → Fields → List Block
  spoken_result tool message = block_of (tool_result_block dumps message)
  spoken_result _ message = []

  abbrev message_result : Value → List Block
  message_result (obj message) = spoken_result (speaker (get "role" message)) message
  message_result _ = []

  -- the result that each `tool` message stands for, in the order of the messages
  unfoldable pub expected : List Value → List Block
  expected [] = []
  expected (v ∷ vs) = message_result v ++ expected vs

  record Advances (p q : Progress) (added : List Block) : Type 0 where
    formed : well_formed p.turns ≡ true → well_formed q.turns ≡ true
    kept : results q.turns ≡ results p.turns ++ added

  rw_turns : {p q : Progress} → q.turns ≡ p.turns → Advances p q []
  rw_turns {p} {q} e = record {
    formed = λ w. rw e w;
    kept = ap results e ∙ sym (append-nil (results p.turns));
  }

  unchanged : {p q : Progress} → p ≡ q → Advances p q []
  unchanged e = rw_turns (sym (ap (λ r. r.turns) e))

  add_system_turns : (text : String) (p : Progress) → (add_system text p).turns ≡ p.turns
  unfolding add_system
  add_system_turns text p = ground arith

  advance_turn :
      (role : Role) (bs : List Block) (p : Progress)
      → HasNoResults bs
      → Advances p (record p { turns = add_turn role bs p.turns }) []
  advance_turn role bs p h = record {
    formed = add_turn-well_formed role bs p.turns h;
    kept = results-add_turn role bs p.turns h ∙ sym (append-nil (results p.turns));
  }

  tool_block :
      (message : Fields) (b : Block)
      → tool_result_block dumps message ≡ ok b
      → (id : Value) × (c : String) × (b ≡ tool_result id c)
  unfolding tool_result_block
  tool_block message b h =
      let (c, e, h') = bind-eq-ok (text_of dumps (get "content" message)) _ h in
      (_, c, sym (ok-injective h'))

  advance :
      (sp : Speaker) (i : ℕ) (message : Fields) (p q : Progress)
      → add_message dumps loads mint sp i message p ≡ ok q
      → Advances p q (spoken_result sp message)
  unfolding add_message add_system
  advance system i message p q h =
      let (text, e, h') = bind-eq-ok (text_of dumps (get "content" message)) _ h in
      let same = ap (λ r. r.turns) (ok-injective h') in
      rw_turns (sym same ∙ add_system_turns text p)
  advance tool i message p q h =
      let (b, e, h') = bind-eq-ok (tool_result_block dumps message) _ h in
      let (id, c, is) = tool_block message b e in
      subst (λ r. Advances p r (block_of (tool_result_block dumps message))) (ok-injective h')
        (rw (e, is)
          (record {
            formed = add_result-well_formed id c p.turns;
            kept = results-add_result id c p.turns;
          }))
  advance Speaker.assistant i message p q h =
      let (said, e, h') = bind-eq-ok (content_blocks dumps (get "content" message)) _ h in
      let thought = reasoning_blocks (get "reasoning_details" message) in
      let called = tool_use_blocks loads mint i (get "tool_calls" message) in
      subst (λ r. Advances p r []) (ok-injective h')
        (advance_turn Role.assistant _ p (
          append_HasNoResults (thought ++ said) called
            (append_HasNoResults thought said
              (reasoning_blocks_free (get "reasoning_details" message))
              (content_blocks_free dumps (get "content" message) said e))
            (tool_use_blocks_free loads mint i (get "tool_calls" message))))
  advance other i message p q h =
      let (said, e, h') = bind-eq-ok (content_blocks dumps (get "content" message)) _ h in
      subst (λ r. Advances p r []) (ok-injective h')
        (advance_turn user said p (content_blocks_free dumps (get "content" message) said e))

  advance_value :
      (i : ℕ) (v : Value) (p q : Progress)
      → add_value dumps loads mint i v p ≡ ok q
      → Advances p q (message_result v)
  advance_value i (obj message) p q h = advance (speaker (get "role" message)) i message p q h
  advance_value i Value.null p q h = unchanged (ok-injective h)
  advance_value i _ p q h = unchanged (ok-injective h)

  advance_all :
      (i : ℕ) (vs : List Value) (p q : Progress)
      → add_messages dumps loads mint i vs p ≡ ok q
      → Advances p q (expected vs)
  unfolding add_messages expected
  advance_all i [] p q h = unchanged (ok-injective h)
  advance_all i (v ∷ vs) p q h =
      let (r, e, h') = bind-eq-ok (add_value dumps loads mint i v p) _ h in
      let a = advance_value i v p r e in
      let b = advance_all (suc i) vs r q h' in
      record {
        formed = λ w. b.formed (a.formed w);
        kept =
            b.kept
            ∙ ap (λ x. x ++ expected vs) a.kept
            ∙ append_assoc (results p.turns) (message_result v) (expected vs);
      }

  -- read in order, what `results` reads from the end
  unfoldable pub results_in_order : List Turn → List Block
  results_in_order [] = []
  results_in_order (t ∷ ts) = keep is_result t.content ++ results_in_order ts

  results_reverse :
      (ts us : List Turn) → results_in_order (reverse_aux ts us) ≡ results ts ++ results_in_order us
  unfolding results results_in_order
  results_reverse [] us = refl
  results_reverse (t ∷ ts) us =
      results_reverse ts (t ∷ us)
      ∙ sym (append_assoc (results ts) (keep is_result t.content) (results_in_order us))

  apart_comm :
      (t u : Turn) → (not (is_results t && is_results u)) ≡ not (is_results u && is_results t)
  apart_comm t u = ground arith

  reverse_well_formed :
      (ts us : List Turn)
      → well_formed ts ≡ true
      → well_formed us ≡ true
      → (joined ts us ≡ true)
      → well_formed (reverse_aux ts us) ≡ true
  reverse_well_formed [] us w v j = v
  reverse_well_formed (t ∷ []) us w v j = ground arith
  reverse_well_formed (t ∷ u ∷ ts) us w v j =
      reverse_well_formed (u ∷ ts) (t ∷ us) (ground arith) (ground arith)
        (ground (arith, apart_comm t u))

  module _ (request : Fields) (streaming : Value) (model : String) (body : Body) where
    -- Every turn of a translated request says something, and the results of one assistant turn
    -- stand on one user turn: no two neighbouring turns hold tool results alone.
    pub messages_well_formed :
        transform_to_anthropic_messages dumps loads mint request streaming model ≡ ok body
        → well_formed body.messages ≡ true
    messages_well_formed h =
        let (vs, done, plan, tools, e₁, e₂, e₃, e₄, whole) =
          transform-eq-ok dumps loads mint request streaming model body h in
        rw whole (
          reverse_well_formed done.turns [] ((advance_all 0 vs blank done e₂).formed refl) refl
            (joined_nil done.turns))

    -- Each `tool` message of the request becomes one tool result with its identifier and text, no
    -- message of another role becomes one, and they keep their order, however they are merged into
    -- turns.
    pub tool_results_kept :
        (vs : List Value)
        → iterated (get "messages" request) ≡ ok vs
        → transform_to_anthropic_messages dumps loads mint request streaming model ≡ ok body
        → results_in_order body.messages ≡ expected vs
    unfolding results results_in_order
    tool_results_kept vs listed h =
        let (ws, done, plan, tools, e₁, e₂, e₃, e₄, whole) =
          transform-eq-ok dumps loads mint request streaming model body h in
        let same : ws ≡ vs = ok-injective (sym e₁ ∙ listed) in
        rw whole (
          results_reverse done.turns []
          ∙ append-nil (results done.turns)
          ∙ (advance_all 0 ws blank done e₂).kept
          ∙ ap expected same)
