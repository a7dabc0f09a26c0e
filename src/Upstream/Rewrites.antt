-- ===== src/Upstream/Rewrites.antt =====
-- A body of app/azure.py whose `input` list is replaced.
use inference_proxy.Prelude.{
  ℕ, zero, suc, ◌-◌, String, false, List, [], ◌∷◌, ◌==◌, arith, ◌≡◌, refl, ap, ◌∙◌,
}
use inference_proxy.Json.{Value, arr, Fields, items, of_items, list, lookup, get}
use inference_proxy.Json.Laws.{get-put, lookup-put}
use inference_proxy.Upstream.Strip.{with_input}

-- the items of a body's `input`, which are none where it is no list
abbrev pub list_of : Value → List Value
list_of (arr is) = items is
list_of _ = []

abbrev pub input_items : Fields → List Value
input_items body = list_of (get "input" body)

pub items-list : (vs : List Value) → items (of_items vs) ≡ vs
items-list [] = refl
items-list (v ∷ vs) = ap (λ r. v ∷ r) (items-list vs)

-- the two bodies agree on every key but one
abbrev pub AgreeBut : String → Fields → Fields → Type 0
AgreeBut k a b = (j : String) → (k == j) ≡ false → lookup j a ≡ lookup j b

pub sub_self : (n : ℕ) → n - n ≡ 0
sub_self n = omega arith

pub with_input-items :
    (body : Fields) (new : List Value) (n : ℕ)
    → (n ≡ 0 → input_items body ≡ new)
    → input_items (with_input body new n).0 ≡ new
with_input-items body new zero h = h refl
with_input-items body new (suc n) h = rw (get-put "input" "input" (list new) body) (items-list new)

pub with_input-AgreeBut :
    (body : Fields) (new : List Value) (n : ℕ) → AgreeBut "input" (with_input body new n).0 body
with_input-AgreeBut body new zero j apart = refl
with_input-AgreeBut body new (suc n) j apart = rw (lookup-put "input" j (list new) body, apart) refl

pub with_input-count : (body : Fields) (new : List Value) (n : ℕ) → (with_input body new n).1 ≡ n
with_input-count body new zero = refl
with_input-count body new (suc n) = refl

-- what both rewritings of the list do with it
pub record Rewritten (body : Fields) (new : List Value) (n : ℕ) (r : Fields × ℕ) : Type 0 where
  pub now : input_items r.0 ≡ new
  pub count : r.1 ≡ n
  pub agree : AgreeBut "input" r.0 body

pub unchanged :
    (body : Fields) (v : Value)
    → get "input" body ≡ v
    → list_of v ≡ []
    → Rewritten body [] 0 (body, 0)
unchanged body v h none_left = record {
  now = ap list_of h ∙ none_left;
  count = refl;
  agree = λ j apart. refl;
}
