-- ===== src/Anthropic/Response/Sorted.antt =====
-- The blocks of a response, sorted (app/proxy/chat_to_anthropic.py).
use inference_proxy.Prelude.{
  String, true, false, List, [], ◌∷◌, ◌++◌, map, if◌then◌else◌, ◌≡◌, refl, sym, ◌∙◌, ap,
  append_assoc, append-nil, arith, eq_iff,
}
use inference_proxy.Json.{Value, null, bool, int, float, str, arr, obj, Fields, get, is_text}
use inference_proxy.Anthropic.Response.{
  Parts, is_thought, tool_call, add_block, add_value, add_blocks,
}

-- the thinking blocks of a response, as they came
abbrev pub thoughts : List Value → List Fields
thoughts [] = []
thoughts (obj block ∷ vs) =
    if is_thought (get "type" block) then block ∷ thoughts vs else thoughts vs
thoughts (_ ∷ vs) = thoughts vs

-- the calls of a response, as they came
abbrev pub called : List Value → List Fields
called [] = []
called (obj block ∷ vs) =
    if is_text "tool_use" (get "type" block) then block ∷ called vs else called vs
called (_ ∷ vs) = called vs

is_text-eq : (t : String) (v : Value) → is_text t v ≡ true → v ≡ str t
is_text-eq t (str s) h = ap (λ s. str s) ((eq_iff s t).0 h)
is_text-eq t null h = cc
is_text-eq t (bool b) h = cc
is_text-eq t (int z) h = cc
is_text-eq t (float m k) h = cc
is_text-eq t (arr vs) h = cc
is_text-eq t (obj fs) h = cc

text_apart :
    (v : Value) → is_text "text" v ≡ true → (is_thought v ≡ false) × (is_text "tool_use" v ≡ false)
text_apart v h = rw (is_text-eq "text" v h) (refl, refl)

thinking_apart : (v : Value) → is_text "thinking" v ≡ true → is_text "tool_use" v ≡ false
thinking_apart v h = rw (is_text-eq "thinking" v h) refl

redacted_apart : (v : Value) → is_text "redacted_thinking" v ≡ true → is_text "tool_use" v ≡ false
redacted_apart v h = rw (is_text-eq "redacted_thinking" v h) refl

module _ (dumps : Value → String) where
  add_value-thoughts :
      (v : Value) (p : Parts)
      → (add_value dumps v p).thinking_blocks ≡ p.thinking_blocks ++ thoughts (v ∷ [])
  unfolding add_block
  add_value-thoughts (obj block) p =
      ground (arith, text_apart (get "type" block), append-nil p.thinking_blocks)
  add_value-thoughts _ p = sym (append-nil p.thinking_blocks)

  add_value-calls :
      (v : Value) (p : Parts)
      → (add_value dumps v p).tool_calls ≡ p.tool_calls ++ map (tool_call dumps) (called (v ∷ []))
  unfolding add_block
  add_value-calls (obj block) p = ground (
    arith,
    text_apart (get "type" block),
    thinking_apart (get "type" block),
    redacted_apart (get "type" block),
    append-nil p.tool_calls,
  )
  add_value-calls _ p = sym (append-nil p.tool_calls)

  thoughts-cons :
      (v : Value) (vs : List Value) → thoughts (v ∷ vs) ≡ thoughts (v ∷ []) ++ thoughts vs
  thoughts-cons (obj block) vs = ground arith
  thoughts-cons _ vs = refl

  called-cons : (v : Value) (vs : List Value) → called (v ∷ vs) ≡ called (v ∷ []) ++ called vs
  called-cons (obj block) vs = ground arith
  called-cons _ vs = refl

  map-append :
      (bs cs : List Fields)
      → map (tool_call dumps) (bs ++ cs) ≡ map (tool_call dumps) bs ++ map (tool_call dumps) cs
  map-append [] cs = refl
  map-append (b ∷ bs) cs = ap (λ r. tool_call dumps b ∷ r) (map-append bs cs)

  pub add_blocks-thoughts :
      (vs : List Value) (p : Parts)
      → (add_blocks dumps vs p).thinking_blocks ≡ p.thinking_blocks ++ thoughts vs
  unfolding add_blocks
  add_blocks-thoughts [] p = sym (append-nil p.thinking_blocks)
  add_blocks-thoughts (v ∷ vs) p =
      add_blocks-thoughts vs (add_value dumps v p)
      ∙ ap (λ r. r ++ thoughts vs) (add_value-thoughts v p)
      ∙ append_assoc p.thinking_blocks (thoughts (v ∷ [])) (thoughts vs)
      ∙ ap (λ r. p.thinking_blocks ++ r) (sym (thoughts-cons v vs))

  pub add_blocks-calls :
      (vs : List Value) (p : Parts)
      → (add_blocks dumps vs p).tool_calls ≡ p.tool_calls ++ map (tool_call dumps) (called vs)
  unfolding add_blocks
  add_blocks-calls [] p = sym (append-nil p.tool_calls)
  add_blocks-calls (v ∷ vs) p =
      add_blocks-calls vs (add_value dumps v p)
      ∙ ap (λ r. r ++ map (tool_call dumps) (called vs)) (add_value-calls v p)
      ∙ append_assoc p.tool_calls (map (tool_call dumps) (called (v ∷ [])))
          (map (tool_call dumps) (called vs))
      ∙ ap (λ r. p.tool_calls ++ r)
          (sym (map-append (called (v ∷ [])) (called vs))
            ∙ ap (map (tool_call dumps)) (sym (called-cons v vs)))
