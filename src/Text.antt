-- ===== src/Text.antt =====
-- The string methods that the proxy calls: `strip`, `lower`, `split`, `in`, `startswith`,
-- `endswith` and `rstrip`, over code points. `lower` maps the letters A to Z; the case mappings of
-- other scripts are not modelled, and every constant it is compared with is lower-case ASCII.
use Prim.Native.Char.{Char, code}
use Prim.Native.String
use Prim.Native.String.{String, [], ◌∷◌}
use inference_proxy.Prelude.{
  ℕ, zero, suc, ◌+◌, ◌-◌, ◌*◌, Bool, true, false, ◌&&◌, ◌||◌, Option, none, some, List, leb, eqb,
  if◌then◌else◌,
}

lower_from : String → String → Char → Char
lower_from (u ∷ us) (l ∷ ls) c = if eqb (code u) (code c) then l else lower_from us ls c
lower_from _ _ c = c

abbrev lower_char : Char → Char
lower_char = lower_from "ABCDEFGHIJKLMNOPQRSTUVWXYZ" "abcdefghijklmnopqrstuvwxyz"

unfoldable pub lower : String → String
unfolding lower_from
lower [] = []
lower (c ∷ s) = lower_char c ∷ lower s

-- what `str.isspace` accepts
is_space : ℕ → Bool
is_space c =
    (leb 9 c && leb c 13)
    || (leb 28 c && leb c 32)
    || eqb c 0x85
    || eqb c 0xa0
    || eqb c 0x1680
    || (leb 0x2000 c && leb c 0x200a)
    || eqb c 0x2028
    || eqb c 0x2029
    || eqb c 0x202f
    || eqb c 0x205f
    || eqb c 0x3000

left_strip : String → String
left_strip [] = []
left_strip (c ∷ s) = let rest = left_strip s in if is_space (code c) then rest else c ∷ s

-- drops the characters at the end that the test accepts
push_trimmed : (ℕ → Bool) → Char → String → String
push_trimmed p c [] = if p (code c) then [] else c ∷ []
push_trimmed p c (d ∷ r) = c ∷ d ∷ r

trim_end : (ℕ → Bool) → String → String
unfolding push_trimmed
trim_end p [] = []
trim_end p (c ∷ s) = push_trimmed p c (trim_end p s)

unfoldable pub strip : String → String
unfolding left_strip trim_end is_space
strip s = trim_end is_space (left_strip s)

unfoldable pub strip_end_slash : String → String
unfolding trim_end
strip_end_slash s = trim_end (λ c. eqb c b'/') s

unfoldable pub strip_start_slash : String → String
strip_start_slash [] = []
strip_start_slash (c ∷ s) =
    let rest = strip_start_slash s in if eqb (code c) b'/' then rest else c ∷ s

unfoldable pub starts_with : String → String → Bool
starts_with s [] = true
starts_with [] (d ∷ t) = false
starts_with (c ∷ s) (d ∷ t) = eqb (code c) (code d) && starts_with s t

-- Python's `t in s`
unfoldable pub contains : String → String → Bool
unfolding starts_with
contains t [] = starts_with [] t
contains t (c ∷ s) = starts_with (c ∷ s) t || contains t s

unfoldable pub reverse_onto : String → String → String
reverse_onto acc [] = acc
reverse_onto acc (c ∷ s) = reverse_onto (c ∷ acc) s

unfoldable pub ends_with : String → String → Bool
unfolding starts_with reverse_onto
ends_with s t = starts_with (reverse_onto [] s) (reverse_onto [] t)

-- `s[n:]`
unfoldable pub drop : ℕ → String → String
drop zero s = s
drop (suc n) [] = []
drop (suc n) (c ∷ s) = drop n s

extend_head : Char → Option (String × String) → Option (String × String)
extend_head d none = none
extend_head d (some (head, tail)) = some (d ∷ head, tail)

-- `s.partition(c)`: `none` where the separator is not found
unfoldable pub partition : ℕ → String → Option (String × String)
unfolding extend_head
partition c [] = none
partition c (d ∷ s) = if eqb (code d) c then some ([], s) else extend_head d (partition c s)

split_from : ℕ → String → String → List String
split_from c cur [] = List.◌∷◌ cur List.[]
split_from c cur (d ∷ s) =
    let next = split_from c [] s in
    let more = split_from c (String.◌++◌ cur (d ∷ [])) s in
    if eqb (code d) c then List.◌∷◌ cur next else more

-- `s.split(c)`
unfoldable pub split : ℕ → String → List String
unfolding split_from
split c s = split_from c [] s

-- `str.isdigit` and `int`, over the ASCII digits
unfoldable pub is_digits : String → Bool
is_digits [] = false
is_digits (c ∷ []) = leb b'0' (code c) && leb (code c) b'9'
is_digits (c ∷ d ∷ s) = leb b'0' (code c) && leb (code c) b'9' && is_digits (d ∷ s)

digits_from : ℕ → String → ℕ
digits_from n [] = n
digits_from n (c ∷ s) = digits_from (n * 10 + (code c - b'0')) s

-- `int(s)` of a text that `is_digits` accepts
unfoldable pub digits : String → ℕ
unfolding digits_from
digits s = digits_from 0 s
