-- ===== src/Anthropic/Request/Results.antt =====
-- Which blocks of a translated request are tool results (app/proxy/chat_to_anthropic.py).
use inference_proxy.Prelude.{
  ℕ, suc, String, Bool, true, false, ◌||◌, Option, List, [], ◌∷◌, ◌++◌, ◌≡◌, refl, arith,
  if◌then◌else◌, any, any-append, ◌∙◌,
}
use inference_proxy.Json.{Value, null, str, arr, obj, Fields, get, has, items}
use inference_proxy.Anthropic.Request.Result.{Result, ok, err, ◌>>=◌, collect}
use inference_proxy.Anthropic.Request.Content.{
  Block, image, one_of, text_of, image_block, part_blocks, content_blocks, text_part, one_image,
  text_block, textual, unknown, part_text, is_nonempty_text, image_source, typed_source,
  image_part_types, text_part_types, reasoning_blocks, thinking_blocks, thinking_block,
  tool_use_blocks, calls_from, tool_use_block,
}
use inference_proxy.Anthropic.Request.Messages.{is_result}

abbrev pub HasNoResults : List Block → Type 0
HasNoResults bs = any is_result bs ≡ false

pub append_HasNoResults :
    (xs ys : List Block) → HasNoResults xs → HasNoResults ys → HasNoResults (xs ++ ys)
append_HasNoResults xs ys h k = any-append is_result xs ys ∙ (ground arith)

-- a step whose results hold none
abbrev Free : Result (List Block) → Type 0
Free (ok bs) = HasNoResults bs
Free (err e) = Unit

collect-Free :
    {A : Type 0} (f : A → Result (List Block)) (xs : List A)
    → ((x : A) → Free (f x))
    → Free (collect f xs)
unfolding collect
collect-Free f [] h = refl
collect-Free f (x ∷ xs) h = join_free (f x) (collect f xs) (h x) (collect-Free f xs h)
  where
    join_free :
        (m n : Result (List Block))
        → Free m
        → Free n
        → Free (m >>= λ here. n >>= λ rest. ok (here ++ rest))
    join_free (ok bs) (ok cs) h k = append_HasNoResults bs cs h k
    join_free (ok bs) (err e) h k = tt
    join_free (err e) n h k = tt

bind-Free :
    {A : Type 0} (m : Result A) (f : A → Result (List Block))
    → ((a : A) → Free (f a))
    → Free (m >>= f)
bind-Free (ok a) f h = h a
bind-Free (err e) f h = tt

text_block_free : (s : String) → HasNoResults (text_block s)
text_block_free s = ground arith

textual_free : (v : Value) → HasNoResults (textual v)
textual_free (str s) = refl
textual_free null = refl
textual_free _ = refl

unknown-Free : (part : Fields) (b : Bool) → Free (unknown part b)
unknown-Free part true = refl
unknown-Free part false = tt

if_Free : (b : Bool) (m n : Result (List Block)) → Free m → Free n → Free (if b then m else n)
if_Free true m n h k = h
if_Free false m n h k = k

text_part-Free : (part : Fields) → Free (text_part part)
text_part-Free part =
    if_Free (is_nonempty_text (part_text part)) (ok (textual (part_text part)))
      (one_of text_part_types (get "type" part) >>= unknown part) (textual_free (part_text part))
      (bind-Free (one_of text_part_types (get "type" part)) (unknown part) (unknown-Free part))

images-Free :
    (m : Result Fields) → Free ((m >>= λ source. ok (image source)) >>= λ block. ok (block ∷ []))
images-Free (ok fs) = refl
images-Free (err e) = tt

image_block-Free : (part : Fields) → Free (one_image part)
unfolding image_block
image_block-Free part = images-Free (image_source (typed_source (get "source" part)) part)

part_blocks-Free : (v : Value) → Free (part_blocks v)
unfolding part_blocks
part_blocks-Free (str s) = text_block_free s
part_blocks-Free (obj part) = bind-Free (one_of image_part_types (get "type" part)) _ (λ kind.
    if_Free (kind || has "image_url" part) (one_image part) (text_part part) (image_block-Free part)
      (text_part-Free part))
part_blocks-Free _ = refl

texts-Free : (m : Result String) → Free (m >>= λ s. ok (text_block s))
texts-Free (ok s) = text_block_free s
texts-Free (err e) = tt

content-Free : (dumps : Value → String) (v : Value) → Free (content_blocks dumps v)
unfolding content_blocks
content-Free dumps (str s) = text_block_free s
content-Free dumps (arr vs) = collect-Free part_blocks (items vs) part_blocks-Free
content-Free dumps null = texts-Free (text_of dumps null)
content-Free dumps v = texts-Free (text_of dumps v)

pub content_blocks_free :
    (dumps : Value → String) (v : Value) (bs : List Block)
    → content_blocks dumps v ≡ ok bs
    → HasNoResults bs
content_blocks_free dumps v bs h = (rw h at (content-Free dumps v))

thinking_blocks_free : (vs : List Value) → HasNoResults (thinking_blocks vs)
unfolding thinking_blocks
thinking_blocks_free [] = refl
thinking_blocks_free (v ∷ vs) =
    append_HasNoResults (thinking_block v) (thinking_blocks vs) (one v) (thinking_blocks_free vs)
  where
    one : (v : Value) → HasNoResults (thinking_block v)
    one (obj block) = ground arith
    one null = refl
    one _ = refl

pub reasoning_blocks_free : (v : Value) → HasNoResults (reasoning_blocks v)
unfolding reasoning_blocks
reasoning_blocks_free (arr vs) = thinking_blocks_free (items vs)
reasoning_blocks_free null = refl
reasoning_blocks_free _ = refl

module _ (loads : String → Option Value) (mint : ℕ → ℕ → String) where
  calls_free : (i j : ℕ) (calls : List Value) → HasNoResults (calls_from loads mint i j calls)
  unfolding calls_from
  calls_free i j [] = refl
  calls_free i j (call ∷ calls) =
      append_HasNoResults (tool_use_block loads mint i j call)
        (calls_from loads mint i (suc j) calls) (one call) (calls_free i (suc j) calls)
    where
      one : (call : Value) → HasNoResults (tool_use_block loads mint i j call)
      one (obj fs) = refl
      one null = refl
      one _ = refl

  pub tool_use_blocks_free : (i : ℕ) (v : Value) → HasNoResults (tool_use_blocks loads mint i v)
  unfolding tool_use_blocks
  tool_use_blocks_free i (arr calls) = calls_free i 0 (items calls)
  tool_use_blocks_free i null = refl
  tool_use_blocks_free i _ = refl
