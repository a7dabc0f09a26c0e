-- ===== src/Overflow/Relay.antt =====
-- What the proxy says about an overflow is read as that overflow by the proxy itself.
use Prim.Native.Char.{code}
use Prim.Native.String
use Prim.Native.String.{[], ◌∷◌}
use text.Mathlib.TextLemmas.{cons-append, append_assoc}
use inference_proxy.Prelude.{
  String, ◌≡◌, refl, true, false, eq_iff, Option, some, arith, eqb_iff, Bool-cases, inl, inr,
}
use inference_proxy.Text.{lower, starts_with, contains}
use inference_proxy.Json.{Value, obj, is_empty_text}
use inference_proxy.Overflow.{overflow_code, prefixed, overflow_body, overflow_message}

starts_with-append : (t s : String) → starts_with (String.◌++◌ t s) t ≡ true
unfolding starts_with
starts_with-append [] s = refl
starts_with-append (c ∷ t) s =
    rw cons-append (ground (arith, eqb_iff (code c) (code c), starts_with-append t s))

contains_of_starts_with : (t s : String) → starts_with s t ≡ true → contains t s ≡ true
unfolding contains
contains_of_starts_with t [] h = h
contains_of_starts_with t (c ∷ s) h = ground arith

contains-prefixed : (m : String) → contains overflow_code (prefixed m) ≡ true
unfolding prefixed
contains-prefixed m = elim (Bool-cases (contains overflow_code m)) [
  | inl named ↦ rw named named
  | inr bare ↦ rw bare (
      contains_of_starts_with overflow_code (String.◌++◌ "context_length_exceeded: " m) (
        rw (append_assoc "context_length_exceeded" ": " m)
          (starts_with-append "context_length_exceeded" (String.◌++◌ ": " m))))
]

-- The code leads the message once, however often the message is passed on.
prefixed_idempotent : (m : String) → prefixed (prefixed m) ≡ prefixed m
unfolding prefixed
prefixed_idempotent m = rw (contains-prefixed m)

prefixed-ne-empty : (m : String) → is_empty_text (prefixed m) ≡ false
unfolding contains
prefixed-ne-empty m = elim (Bool-cases (is_empty_text (prefixed m))) [
  | inl empty ↦ cc (rw ((eq_iff (prefixed m) "").0 empty) at (contains-prefixed m))
  | inr full ↦ full
]

-- A body that the proxy sends for an overflow is read as an overflow, with the same sentence, by
-- whatever reads it next, and a proxy that relays it sends the same body again.
pub overflow_message-overflow_body :
    (loads : String → Option Value) (m : String)
    → (overflow_message loads (obj (overflow_body m)) ≡ some (prefixed m))
      × (overflow_body (prefixed m) ≡ overflow_body m)
unfolding overflow_message overflow_body lower
overflow_message-overflow_body loads m = (rw (prefixed-ne-empty m), rw (prefixed_idempotent m))
