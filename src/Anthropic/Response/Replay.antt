-- ===== src/Anthropic/Response/Replay.antt =====
-- A response of app/proxy/chat_to_anthropic.py that the caller hands back as a turn of its next
-- request.
use inference_proxy.Prelude.{
  ℕ, suc, String, Bool, true, false, Option, none, some, List, [], ◌∷◌, ◌++◌, map, if◌then◌else◌,
  ◌≡◌, refl, sym, ◌∙◌, ap, arith, All, from_option,
}
use inference_proxy.Json.{
  Value, str, obj, Fields, end, get, lookup, or_value, is_empty_text, truthy, fields_of, or_null,
  field,
}
use inference_proxy.Upstream.Rewrites.{items-list}
use inference_proxy.Anthropic.Request.Result.{ok, err, crash, bind-eq-ok, ok-injective}
use inference_proxy.Anthropic.Request.Content.{
  Block, thinking, tool_use, thinking_blocks, reasoning_blocks, tool_use_block, calls_from,
  tool_use_blocks, arguments,
}
use inference_proxy.Anthropic.Request.Messages.{iterated}
use inference_proxy.Anthropic.Stream.State.{hashable}
use inference_proxy.Anthropic.Response.{
  ToolCall, Completion, no_parts, tool_call, add_blocks, usage_in,
  transform_anthropic_to_completions, call_value, message_of, message_fields, join_parts,
}
use inference_proxy.Anthropic.Response.Sorted.{
  thoughts, called, add_blocks-thoughts, add_blocks-calls,
}

thinking_blocks-thoughts :
    (vs : List Value) → thinking_blocks (map obj (thoughts vs)) ≡ map thinking (thoughts vs)
unfolding thinking_blocks
thinking_blocks-thoughts [] = refl
thinking_blocks-thoughts (obj block ∷ vs) = ground (arith, thinking_blocks-thoughts vs)
thinking_blocks-thoughts (_ ∷ vs) = thinking_blocks-thoughts vs

details_handed_back :
    (content : Option String) (calls : List ToolCall) (details : List Fields) (reasoning : String)
    → reasoning_blocks (get "reasoning_details" (message_of content calls details reasoning))
      ≡ thinking_blocks (map obj details)
unfolding reasoning_blocks get lookup
details_handed_back content [] [] reasoning = ground arith
details_handed_back content [] (d ∷ ds) reasoning =
    ap thinking_blocks (items-list (map obj (d ∷ ds)))
details_handed_back content (c ∷ cs) [] reasoning = ground arith
details_handed_back content (c ∷ cs) (d ∷ ds) reasoning =
    ap thinking_blocks (items-list (map obj (d ∷ ds)))

guarded : (b : Bool) (made c : Completion) → (if b then ok made else err crash) ≡ ok c → made ≡ c
guarded true made c h = ok-injective h
guarded false made c h = cc

or_object : (v : Value) (fs : Fields) → v ≡ obj fs → or_value v (obj end) ≡ v
or_object v end h = rw h refl
or_object v (field k w fs) h = rw h refl

kept_value :
    (o : Option Value) (d : Value)
    → truthy (or_null o) ≡ true
    → or_value (from_option (str "") o) d ≡ or_null o
kept_value none d h = cc
kept_value (some v) d h = rw h refl

module _ (dumps : Value → String) (loads : String → Option Value) (mint : ℕ → ℕ → String) where
  -- a call with a name, an identifier and an object as its input, which JSON reads back
  abbrev pub Replays : Fields → Type 0
  Replays block =
      (truthy (get "id" block) ≡ true)
      × (truthy (get "name" block) ≡ true)
      × (get "input" block ≡ obj (fields_of (get "input" block)))
      × (loads (dumps (get "input" block)) ≡ some (get "input" block))
      × (is_empty_text (dumps (get "input" block)) ≡ false)

  abbrev pub use_of : Fields → Block
  use_of block = tool_use (get "id" block) (get "name" block) (fields_of (get "input" block))

  call_handed_back :
      (i j : ℕ) (block : Fields)
      → Replays block
      → tool_use_block loads mint i j (call_value (tool_call dumps block)) ≡ use_of block ∷ []
  unfolding get lookup arguments
  call_handed_back i j block (id, name, input, read, text) =
      rw
        (
          kept_value (lookup "id" block) (str (mint i j)) id,
          kept_value (lookup "name" block) (str "") name,
          or_object (get "input" block) (fields_of (get "input" block)) input,
        )
        (ground arith)

  calls_from-called :
      (i j : ℕ) (blocks : List Fields)
      → All Replays blocks
      → calls_from loads mint i j (map call_value (map (tool_call dumps) blocks))
        ≡ map use_of blocks
  unfolding calls_from
  calls_from-called i j [] replays = refl
  calls_from-called i j (b ∷ bs) (here, there) =
      ap (λ r. r ++ calls_from loads mint i (suc j) (map call_value (map (tool_call dumps) bs)))
        (call_handed_back i j b here)
      ∙ ap (λ r. use_of b ∷ r) (calls_from-called i (suc j) bs there)

  calls_handed_back :
      (i : ℕ) (content : Option String) (calls : List ToolCall) (details : List Fields)
      (reasoning : String)
      → tool_use_blocks loads mint i (get "tool_calls" (message_of content calls details reasoning))
        ≡ calls_from loads mint i 0 (map call_value calls)
  unfolding tool_use_blocks calls_from get lookup
  calls_handed_back i content [] [] reasoning = ground arith
  calls_handed_back i content [] (d ∷ ds) reasoning = ground arith
  calls_handed_back i content (c ∷ cs) details reasoning =
      ap (calls_from loads mint i 0) (items-list (map call_value (c ∷ cs)))

  sorted :
      (payload : Fields) (model : String) (vs : List Value) (c : Completion)
      → iterated (get "content" payload) ≡ ok vs
      → transform_anthropic_to_completions dumps payload model ≡ ok c
      → (c.reasoning_details ≡ thoughts vs) × (c.tool_calls ≡ map (tool_call dumps) (called vs))
  unfolding transform_anthropic_to_completions
  sorted payload model vs c listed h =
      let (vs', e, h₁) = bind-eq-ok (iterated (get "content" payload)) _ h in
      let (text, e₁, h₂) =
        bind-eq-ok (join_parts (add_blocks dumps vs' no_parts).text_parts) _ h₁ in
      let (reasoning, e₂, h₃) =
        bind-eq-ok (join_parts (add_blocks dumps vs' no_parts).thinking_parts) _ h₂ in
      let (usage, e₃, h₄) = bind-eq-ok (usage_in (or_value (get "usage" payload) (obj end))) _ h₃ in
      let same = guarded (hashable (or_value (get "stop_reason" payload) (str ""))) _ c h₄ in
      let listed_as : vs' ≡ vs = ok-injective (sym e ∙ listed) in
      (
        sym (ap (λ c. c.reasoning_details) same)
            ∙ add_blocks-thoughts dumps vs' no_parts
            ∙ ap thoughts listed_as,
        sym (ap (λ c. c.tool_calls) same)
            ∙ add_blocks-calls dumps vs' no_parts
            ∙ ap (λ vs. map (tool_call dumps) (called vs)) listed_as,
      )

  pub blocks_replayed :
      (payload : Fields) (model : String) (vs : List Value) (c : Completion) (i : ℕ)
      → iterated (get "content" payload) ≡ ok vs
      → transform_anthropic_to_completions dumps payload model ≡ ok c
      → All Replays (called vs)
      → (reasoning_blocks (get "reasoning_details" (message_fields c)) ≡ map thinking (thoughts vs))
        × (tool_use_blocks loads mint i (get "tool_calls" (message_fields c))
            ≡ map use_of (called vs))
  unfolding message_fields
  blocks_replayed payload model vs c i listed h replays =
      let (details, calls) = sorted payload model vs c listed h in
      (
        details_handed_back c.content c.tool_calls c.reasoning_details c.reasoning_content
            ∙ ap (λ bs. thinking_blocks (map obj bs)) details
            ∙ thinking_blocks-thoughts vs,
        calls_handed_back i c.content c.tool_calls c.reasoning_details c.reasoning_content
            ∙ ap (λ cs. calls_from loads mint i 0 (map call_value cs)) calls
            ∙ calls_from-called i 0 (called vs) replays,
      )
