-- ===== src/Responses/Declarations.antt =====
-- What app/proxy/chat_completions.py makes of tools that are in the Responses shape already.
use inference_proxy.Prelude.{
  Bool, true, false, List, [], ◌∷◌, ◌≡◌, refl, sym, ap, ◌∙◌, if◌then◌else◌, Bool-cases, inl, inr,
}
use inference_proxy.Json.{
  Value, null, bool, int, float, str, arr, obj, Fields, end, field, get, has, items, list, of_items,
  or_value, truthy,
}
use inference_proxy.Responses.Tools.{
  object_schema, function_of, declared, responses_tool, tools_of, responses_tools, parameters,
  described,
}

truthy-or_value : (a b : Value) → truthy b ≡ true → truthy (or_value a b) ≡ true
truthy-or_value a b h = elim (Bool-cases (truthy a)) [
  | inl is ↦ rw (is, is) refl
  | inr isnt ↦ rw isnt h
]

parameters-truthy : (fn : Fields) → truthy (parameters fn) ≡ true
parameters-truthy fn =
    truthy-or_value (get "parameters" fn) (or_value (get "input_schema" fn) object_schema)
      (truthy-or_value (get "input_schema" fn) object_schema refl)

or_value-truthy : (a b : Value) → truthy a ≡ true → or_value a b ≡ a
or_value-truthy a b h = rw h refl

-- a declaration, with its two optional fields
abbrev shape : Value → Value → Value → Value → Bool → Bool → Fields
shape name parameters description strict described is_strict = field "type" (str "function") (
    field "name" name (
      field "parameters" parameters (
        if described
        then field "description" description (if is_strict then field "strict" strict end else end)
        else if is_strict
        then field "strict" strict end
        else end)))

declared-shape :
    (name parameters description strict : Value) (described is_strict : Bool)
    → truthy parameters ≡ true
    → truthy description ≡ described
    → declared (shape name parameters description strict described is_strict)
      ≡ shape name parameters description strict described is_strict
unfolding declared get has
declared-shape name parameters description strict true true p d = rw (p, d) refl
declared-shape name parameters description strict true false p d = rw (p, d) refl
declared-shape name parameters description strict false true p d = rw p refl
declared-shape name parameters description strict false false p d = rw p refl

function-shape :
    (name parameters description strict : Value) (described is_strict : Bool)
    → get "function" (shape name parameters description strict described is_strict) ≡ null
unfolding get
function-shape name parameters description strict true true = refl
function-shape name parameters description strict true false = refl
function-shape name parameters description strict false true = refl
function-shape name parameters description strict false false = refl

declared_lem :
    (fn : Fields)
    → declared fn
      ≡ shape
          (get "name" fn)
          (parameters fn)
          (get "description" fn)
          (get "strict" fn)
          (truthy (get "description" fn))
          (has "strict" fn)
unfolding declared
declared_lem fn = refl

declared-declared : (fn : Fields) → declared (declared fn) ≡ declared fn
declared-declared fn =
    ap declared (declared_lem fn)
    ∙ declared-shape (get "name" fn) (parameters fn) (get "description" fn) (get "strict" fn)
        (truthy (get "description" fn)) (has "strict" fn) (parameters-truthy fn) refl
    ∙ sym (declared_lem fn)

abbrev inner : Fields → Fields
inner tool = function_of (get "function" tool) tool

inner-declared : (fn : Fields) → inner (declared fn) ≡ declared fn
inner-declared fn =
    ap (λ v. function_of v (declared fn))
      (ap (get "function") (declared_lem fn)
        ∙ function-shape (get "name" fn) (parameters fn) (get "description" fn) (get "strict" fn)
            (truthy (get "description" fn)) (has "strict" fn))

name-declared : (fn : Fields) → get "name" (declared fn) ≡ get "name" fn
unfolding declared get
name-declared fn = refl

responses_tool-named :
    (tool : Fields)
    → truthy (get "name" (inner tool)) ≡ true
    → responses_tool tool ≡ declared (inner tool)
unfolding responses_tool
responses_tool-named tool h = rw h refl

responses_tool-nameless :
    (tool : Fields) → truthy (get "name" (inner tool)) ≡ false → responses_tool tool ≡ tool
unfolding responses_tool
responses_tool-nameless tool h = rw h refl

responses_tool_idempotent :
    (tool : Fields) → responses_tool (responses_tool tool) ≡ responses_tool tool
responses_tool_idempotent tool = elim (Bool-cases (truthy (get "name" (inner tool)))) [
  | inl is_named ↦ rw (responses_tool-named tool is_named) (
      responses_tool-named (declared (inner tool)) (
        ap (λ fn. truthy (get "name" fn)) (inner-declared (inner tool))
        ∙ ap truthy (name-declared (inner tool))
        ∙ is_named)
      ∙ ap declared (inner-declared (inner tool))
      ∙ declared-declared (inner tool))
  | inr nameless ↦ ap responses_tool (responses_tool-nameless tool nameless)
]

tools_of_idempotent : (vs : List Value) → tools_of (tools_of vs) ≡ tools_of vs
unfolding tools_of
tools_of_idempotent [] = refl
tools_of_idempotent (obj tool ∷ vs) =
    ap (λ t. obj t ∷ tools_of (tools_of vs)) (responses_tool_idempotent tool)
    ∙ ap (λ rest. obj (responses_tool tool) ∷ rest) (tools_of_idempotent vs)
tools_of_idempotent (null ∷ vs) = tools_of_idempotent vs
tools_of_idempotent (bool b ∷ vs) = tools_of_idempotent vs
tools_of_idempotent (int z ∷ vs) = tools_of_idempotent vs
tools_of_idempotent (float m k ∷ vs) = tools_of_idempotent vs
tools_of_idempotent (str s ∷ vs) = tools_of_idempotent vs
tools_of_idempotent (arr ws ∷ vs) = tools_of_idempotent vs

pub items-of_items : (vs : List Value) → items (of_items vs) ≡ vs
items-of_items [] = refl
items-of_items (v ∷ vs) = ap (λ rest. v ∷ rest) (items-of_items vs)

pub responses_tools-list :
    (v : Value) → responses_tools (list (responses_tools v)) ≡ responses_tools v
unfolding responses_tools
responses_tools-list (arr vs) =
    ap tools_of (items-of_items (tools_of (items vs))) ∙ tools_of_idempotent (items vs)
responses_tools-list null = refl
responses_tools-list (bool b) = refl
responses_tools-list (int z) = refl
responses_tools-list (float m k) = refl
responses_tools-list (str s) = refl
responses_tools-list (obj fs) = refl
