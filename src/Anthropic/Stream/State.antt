-- ===== src/Anthropic/Stream/State.antt =====
-- app/proxy/chat_to_anthropic.py: what the stream yields, and the variables of its loop.
use inference_proxy.Prelude.{
  ℕ, String, Bool, true, false, Option, none, some, List, [], ◌∷◌, ◌&&◌, not, ◌==◌, if◌then◌else◌,
}
use inference_proxy.Prelude.Int.{ℤ, max_ℤ}
use inference_proxy.Json.{
  Value, null, int, str, arr, obj, Fields, end, field, get, put, ratio, ltb_ratio,
}
use inference_proxy.Anthropic.Counts.{Usage, as_count}

-- What is yielded: a chunk without its identifier, its time and the text of its JSON.
pub data Chunk : Type 0 where
  opening done : Chunk
  content reasoning : Value → Chunk
  tool_start : ℕ → Value → Value → Chunk
  tool_arguments : ℕ → Value → Chunk
  counts : Usage → Chunk
  error : Fields → Chunk
  finish : String → Option Usage → Chunk

-- `tool_index_for_block` and `captured` are dicts.
pub record State : Type 0 where
  pub captured : Fields
  pub tool_index_for_block : List (Value × ℕ)
  pub next_tool_index : ℕ
  pub saw_tool_use : Bool
  pub finish_reason : String
  pub ended : Bool
  pub failed : Option Value

abbrev pub start : State
start = record {
  captured = end;
  tool_index_for_block = [];
  next_tool_index = 0;
  saw_tool_use = false;
  finish_reason = "stop";
  ended = false;
  failed = none;
}

abbrev pub higher : Value → ℤ → ℤ
higher (int previous) count = max_ℤ previous count
higher _ count = count

unfoldable pub fold_count : String → Option ℤ → Fields → Fields
unfolding get put max_ℤ
fold_count key none captured = captured
fold_count key (some count) captured = put key (int (higher (get key captured) count)) captured

unfoldable pub fold_usage : Fields → Fields → Fields
unfolding as_count
fold_usage end captured = captured
fold_usage (field key raw rest) captured = fold_usage rest (fold_count key (as_count raw) captured)

-- `record_usage`: a high-water mark for each count
unfoldable pub record_usage : Value → State → State
record_usage (obj reported) s = record s { captured = fold_usage reported s.captured }
record_usage _ s = s

-- a key that a dict refuses raises
abbrev pub hashable : Value → Bool
hashable (arr vs) = false
hashable (obj fs) = false
hashable _ = true

abbrev same_number : Option (ℤ × ℕ) → Option (ℤ × ℕ) → Bool
same_number (some a) (some b) = not (ltb_ratio a b) && not (ltb_ratio b a)
same_number _ _ = false

-- Python's `==` of two hashable values
unfoldable pub same_key : Value → Value → Bool
same_key null null = true
same_key (str s) (str t) = s == t
same_key a b = same_number (ratio a) (ratio b)

unfoldable pub index_of : Value → List (Value × ℕ) → Option ℕ
unfolding same_key
index_of key [] = none
index_of key ((k, i) ∷ rest) = if same_key k key then some i else index_of key rest
