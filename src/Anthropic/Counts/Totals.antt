-- ===== src/Anthropic/Counts/Totals.antt =====
-- The usage object of app/proxy/chat_to_anthropic.py, against what Anthropic reported.
use inference_proxy.Prelude.{
  Bool, Option, none, some, ◌≡◌, refl, arith, String, if◌then◌else◌, List, [], ◌∷◌, sym, ap, ◌∙◌,
  subst,
}
use inference_proxy.Prelude.Int.{ℤ, pos, ◌+ℤ◌, ◌-ℤ◌, +ℤ_parts, -ℤ_parts, eq_of_parts}
use inference_proxy.Json.{Fields, get}
use inference_proxy.Anthropic.Counts.{
  as_count, prompt_total, Usage, or_zero, usage_to_chat, sum_known, nonzero, usage_of,
}

-- a count that Anthropic reported, or zero
abbrev pub reported : String → Fields → ℤ
reported key usage = or_zero (as_count (get key usage))

some-injective : {a b : Usage} → Option.some a ≡ some b → a ≡ b
some-injective h = cc

add_sub : (a m : ℤ) → (a +ℤ m) -ℤ m ≡ a
add_sub a m = eq_of_parts ((a +ℤ m) -ℤ m) a (omega (arith, -ℤ_parts (a +ℤ m) m, +ℤ_parts a m))

zero_add : (a : ℤ) → pos 0 +ℤ a ≡ a
zero_add a = eq_of_parts (pos 0 +ℤ a) a (omega (arith, +ℤ_parts (pos 0) a))

add_zero : (a : ℤ) → a +ℤ pos 0 ≡ a
add_zero a = eq_of_parts (a +ℤ pos 0) a (omega (arith, +ℤ_parts a (pos 0)))

sum_known-or_zero :
    (o : Option ℤ) (os : List (Option ℤ)) → sum_known (o ∷ os) ≡ or_zero o +ℤ sum_known os
sum_known-or_zero none os = sym (zero_add (sum_known os))
sum_known-or_zero (some k) os = refl

sum_known-three :
    (a b c : Option ℤ) → sum_known (a ∷ b ∷ c ∷ []) ≡ or_zero a +ℤ (or_zero b +ℤ or_zero c)
sum_known-three a b c =
    sum_known-or_zero a (b ∷ c ∷ [])
    ∙ ap (λ r. or_zero a +ℤ r)
        (sum_known-or_zero b (c ∷ [])
          ∙ ap (λ r. or_zero b +ℤ r) (sum_known-or_zero c [] ∙ add_zero (or_zero c)))

known_total : (b : Bool) (z p : ℤ) → (if b then none else nonzero z) ≡ some p → p ≡ z
known_total b z p h = ground arith

prompt_total-sum :
    (usage : Fields) (p : ℤ)
    → prompt_total usage ≡ some p
    → p
      ≡ reported "input_tokens" usage
        +ℤ (reported "cache_read_input_tokens" usage
            +ℤ reported "cache_creation_input_tokens" usage)
unfolding prompt_total
prompt_total-sum usage p h =
    known_total _ _ p h
    ∙ sum_known-three (as_count (get "input_tokens" usage))
        (as_count (get "cache_read_input_tokens" usage))
        (as_count (get "cache_creation_input_tokens" usage))

usage_of-total :
    (usage : Fields) (o : Option ℤ) (u : Usage)
    → usage_of usage o ≡ some u
    → (o ≡ some u.prompt_tokens)
      × (u.completion_tokens ≡ reported "output_tokens" usage)
      × (u.total_tokens ≡ u.prompt_tokens +ℤ u.completion_tokens)
      × (u.cached_tokens ≡ as_count (get "cache_read_input_tokens" usage))
      × (u.cache_write_tokens ≡ as_count (get "cache_creation_input_tokens" usage))
usage_of-total usage none u h = cc
usage_of-total usage (some p) u h =
    let e = some-injective h in
    (
      ap (λ u. some u.prompt_tokens) e,
      sym (ap (λ u. u.completion_tokens) e),
      subst (λ u. u.total_tokens ≡ u.prompt_tokens +ℤ u.completion_tokens) e refl,
      sym (ap (λ u. u.cached_tokens) e),
      sym (ap (λ u. u.cache_write_tokens) e),
    )

-- The usage object names the cached parts of the prompt as subsets of its total: taking them out of
-- `prompt_tokens` leaves the fresh input that Anthropic reported, and the total is the sum of prompt
-- and completion.
pub usage_to_chat_lem :
    (usage : Fields) (u : Usage)
    → usage_to_chat usage ≡ some u
    → (u.prompt_tokens -ℤ (or_zero u.cached_tokens +ℤ or_zero u.cache_write_tokens)
        ≡ reported "input_tokens" usage)
      × (u.completion_tokens ≡ reported "output_tokens" usage)
      × (u.total_tokens ≡ u.prompt_tokens +ℤ u.completion_tokens)
unfolding usage_to_chat
usage_to_chat_lem usage u h =
    let (total, out, sum, cached, written) = usage_of-total usage (prompt_total usage) u h in
    (
      ap (λ p. p -ℤ (or_zero u.cached_tokens +ℤ or_zero u.cache_write_tokens))
            (prompt_total-sum usage u.prompt_tokens total)
          ∙ ap
              (λ m.
                (reported "input_tokens" usage
                  +ℤ (reported "cache_read_input_tokens" usage
                      +ℤ reported "cache_creation_input_tokens" usage))
                -ℤ m)
              (ap (λ a. or_zero a +ℤ or_zero u.cache_write_tokens) cached
                ∙ ap (λ b. reported "cache_read_input_tokens" usage +ℤ or_zero b) written)
          ∙ add_sub (reported "input_tokens" usage) _,
      out,
      sum,
    )
