-- ===== src/Messages/Bytes.antt =====
-- The methods of bytes that app/proxy/anthropic.py calls.
use inference_proxy.Prelude.{
  ℕ, Bool, true, false, ◌&&◌, ◌||◌, Option, none, some, List, [], ◌∷◌, ◌++◌, eqb, leb,
  if◌then◌else◌,
}

abbrev pub Bytes : Type 0
Bytes = List ℕ

abbrev pub newline : ℕ → Bool
newline b = eqb b 10

abbrev pub extend : ℕ → Option (Bytes × Bytes) → Option (Bytes × Bytes)
extend b none = none
extend b (some (event, rest)) = some (b ∷ event, rest)

-- `buffer.split(b"\n\n", 1)`, with `none` where the two bytes are not in the buffer
unfoldable pub split_event : Bytes → Option (Bytes × Bytes)
split_event [] = none
split_event (b ∷ []) = none
split_event (b ∷ c ∷ rest) =
    let later = split_event (c ∷ rest) in
    if newline b && newline c then some ([], rest) else extend b later

lines_from : Bytes → Bytes → List Bytes
lines_from line [] = line ∷ []
lines_from line (b ∷ bs) =
    let next = lines_from [] bs in
    let more = lines_from (line ++ b ∷ []) bs in if newline b then line ∷ next else more

-- `event.split(b"\n")`
unfoldable pub split_lines : Bytes → List Bytes
unfolding lines_from
split_lines event = lines_from [] event

unfoldable pub same_bytes : Bytes → Bytes → Bool
same_bytes [] [] = true
same_bytes (a ∷ rest) (b ∷ bs) = eqb a b && same_bytes rest bs
same_bytes _ _ = false

-- `line.startswith(prefix)`, with what follows the prefix
unfoldable pub after_prefix : Bytes → Bytes → Option Bytes
after_prefix [] line = some line
after_prefix (p ∷ ps) [] = none
after_prefix (p ∷ ps) (b ∷ bs) = if eqb p b then after_prefix ps bs else none

abbrev is_space : ℕ → Bool
is_space b = (leb 9 b && leb b 13) || eqb b 32

left_strip : Bytes → Bytes
left_strip [] = []
left_strip (b ∷ bs) = let rest = left_strip bs in if is_space b then rest else b ∷ bs

push_trimmed : ℕ → Bytes → Bytes
push_trimmed b [] = if is_space b then [] else b ∷ []
push_trimmed b (c ∷ cs) = b ∷ c ∷ cs

right_strip : Bytes → Bytes
unfolding push_trimmed
right_strip [] = []
right_strip (b ∷ bs) = push_trimmed b (right_strip bs)

-- `bytes.strip`
unfoldable pub strip : Bytes → Bytes
unfolding left_strip right_strip
strip bs = right_strip (left_strip bs)

abbrev pub data_prefix : Bytes
data_prefix = 100 ∷ 97 ∷ 116 ∷ 97 ∷ 58 ∷ []

abbrev pub done_mark : Bytes
done_mark = 91 ∷ 68 ∷ 79 ∷ 78 ∷ 69 ∷ 93 ∷ []

abbrev pub concat : List Bytes → Bytes
concat [] = []
concat (c ∷ cs) = c ++ concat cs
