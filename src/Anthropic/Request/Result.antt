-- ===== src/Anthropic/Request/Result.antt =====
-- The two ways in which a translation fails: `UntranslatableRequest`, with a constructor for each
-- place that raises it, and an exception that the code did not mean to raise.
use inference_proxy.Prelude.{List, [], ◌∷◌, ◌++◌, ◌≡◌, refl}
use inference_proxy.Json.{Value}

pub data Refusal : Type 0 where
  no_image_source no_image_data no_image_url crash : Refusal
  no_text nameless_tool no_equivalent : Value → Refusal

pub data Result (A : Type 0) : Type 0 where
  err : Refusal → Result A
  ok : A → Result A

infixl 5 ◌>>=◌
abbrev pub ◌>>=◌ : {A B : Type 0} → Result A → (A → Result B) → Result B
err e >>= f = err e
ok a >>= f = f a

-- a loop that appends what each item gives
unfoldable pub collect : {A B : Type 0} → (A → Result (List B)) → List A → Result (List B)
collect f [] = ok []
collect f (x ∷ xs) = do here ← f x; rest ← collect f xs; ok (here ++ rest)

-- Inversion of a step that succeeded.
pub bind-eq-ok :
    {A B : Type 0} (m : Result A) (f : A → Result B) {b : B}
    → (m >>= f) ≡ ok b
    → (made : A) × (m ≡ ok made) × (f made ≡ ok b)
bind-eq-ok (err e) f h = cc
bind-eq-ok (ok a) f h = (a, refl, h)

pub ok-injective : {A : Type 0} {a b : A} → Result.ok a ≡ ok b → a ≡ b
ok-injective h = cc
