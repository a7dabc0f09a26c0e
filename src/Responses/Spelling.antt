-- ===== src/Responses/Spelling.antt =====
-- Content of app/proxy/chat_completions.py that is in the Responses API's spelling already.
use inference_proxy.Prelude.{
  String, Bool, true, false, List, [], ◌∷◌, ◌≡◌, refl, sym, ap, subst, ◌∙◌, if◌then◌else◌,
  Bool-cases, inl, inr, All, All-append, eq_iff,
}
use inference_proxy.Json.{
  Value, null, bool, int, float, str, arr, obj, Fields, get, items, or_value, truthy, is_empty_text,
}
use inference_proxy.Anthropic.Request.Result.{
  Result, ok, err, collect, bind-eq-ok, ok-injective, no_image_url, no_equivalent,
}
use inference_proxy.Anthropic.Request.Content.{text_part_types, image_part_types}
use inference_proxy.Responses.Content.{
  text_item, image_item, image_of, inner_url, is_among, convert, responses_part, as_list,
  responses_content,
}
use inference_proxy.Responses.Declarations.{items-of_items}

module _ (f : Value → Result (List Value)) where
  -- what `f` gives for it is itself
  abbrev IsFixed : Value → Type 0
  IsFixed v = f v ≡ ok (v ∷ [])

  collect-All :
      ((v : Value) (made : List Value) → f v ≡ ok made → All IsFixed made)
      → (vs made : List Value) → collect f vs ≡ ok made
      → All IsFixed made
  unfolding collect
  collect-All fixes [] made h = subst (All IsFixed) (ok-injective h) tt
  collect-All fixes (v ∷ vs) made h =
      let (here, made_here, h') = bind-eq-ok (f v) _ h in
      let (rest, made_rest, h'') = bind-eq-ok (collect f vs) _ h' in
      subst (All IsFixed) (ok-injective h'') (
        All-append IsFixed here rest (fixes v here made_here) (collect-All fixes vs rest made_rest))

  collect-fixed : (vs : List Value) → All IsFixed vs → collect f vs ≡ ok vs
  unfolding collect
  collect-fixed [] all = refl
  collect-fixed (v ∷ vs) (fixed, rest) = rw (fixed, collect-fixed vs rest) refl

or_value-or_value : (a : Value) → or_value (or_value a (str "")) (str "") ≡ or_value a (str "")
or_value-or_value a = elim (Bool-cases (truthy a)) [
  | inl is ↦ rw (is, is) refl
  | inr isnt ↦ rw isnt refl
]

or_value-text : (s : String) → or_value (str s) (str "") ≡ str s
or_value-text s = elim (Bool-cases (is_empty_text s)) [
  | inl empty ↦ rw empty (ap str (sym ((eq_iff s "").0 empty)))
  | inr full ↦ rw full refl
]

text_item-IsFixed :
    (assistant : Bool) (v : Value)
    → or_value v (str "") ≡ v
    → IsFixed (responses_part assistant) (text_item assistant v)
unfolding responses_part get
text_item-IsFixed true v h = ap (λ w. ok (text_item true w ∷ [])) h
text_item-IsFixed false v h = ap (λ w. ok (text_item false w ∷ [])) h

image_item-IsFixed :
    (assistant : Bool) (url : String)
    → is_empty_text url ≡ false
    → IsFixed (responses_part assistant) (image_item url)
unfolding responses_part get
image_item-IsFixed assistant url h = rw (h, h) refl

module _ (assistant : Bool) where
  abbrev Settled : List Value → Type 0
  Settled = All (IsFixed (responses_part assistant))

  image_if-All :
      (empty : Bool) (url : String) (made : List Value)
      → is_empty_text url ≡ empty
      → (if empty then err no_image_url else ok (image_item url ∷ [])) ≡ ok made
      → Settled made
  image_if-All true url made e h = cc
  image_if-All false url made e h =
      subst Settled (ok-injective h) (image_item-IsFixed assistant url e, tt)

  image_of-All : (url : Value) (made : List Value) → image_of url ≡ ok made → Settled made
  image_of-All (str url) made h = image_if-All (is_empty_text url) url made refl h
  image_of-All _ made h = cc

  convert_if-All :
      (textual pictured : Bool) (kind text url : Value) (made : List Value)
      → (if textual
          then ok (text_item assistant (or_value text (str "")) ∷ [])
          else if pictured
          then image_of (inner_url url)
          else err (no_equivalent kind))
        ≡ ok made
      → Settled made
  convert_if-All true pictured kind text url made h =
      subst Settled (ok-injective h)
        (text_item-IsFixed assistant (or_value text (str "")) (or_value-or_value text), tt)
  convert_if-All false true kind text url made h = image_of-All (inner_url url) made h
  convert_if-All false false kind text url made h = cc

  convert-All :
      (part : Fields) (made : List Value) → convert assistant part ≡ ok made → Settled made
  convert-All part made h =
      convert_if-All (is_among text_part_types (get "type" part))
        (is_among image_part_types (get "type" part)) (get "type" part) (get "text" part)
        (or_value (get "image_url" part) (get "url" part)) made h

  part-All : (v : Value) (made : List Value) → responses_part assistant v ≡ ok made → Settled made
  unfolding responses_part
  part-All (str s) made h =
      subst Settled (ok-injective h) (text_item-IsFixed assistant (str s) (or_value-text s), tt)
  part-All (obj part) made h = convert-All part made h
  part-All _ made h = subst Settled (ok-injective h) tt

  list_fixed :
      (content : Value) (r : Result (List Value)) (made : Value)
      → ((vs : List Value) → r ≡ ok vs → Settled vs)
      → as_list r ≡ ok made
      → responses_content assistant made ≡ ok made
  unfolding responses_content
  list_fixed content (err e) made fixes h = cc
  list_fixed content (ok vs) made fixes h =
      subst (λ m. responses_content assistant m ≡ ok m) (ok-injective h)
        (ap (λ ws. as_list (collect (responses_part assistant) ws)) (items-of_items vs)
          ∙ ap as_list (collect-fixed (responses_part assistant) vs (fixes vs refl)))

  -- Content that is converted once goes through a second conversion unchanged.
  pub responses_content_settles :
      (content made : Value)
      → responses_content assistant content ≡ ok made
      → responses_content assistant made ≡ ok made
  unfolding responses_content
  responses_content_settles (arr parts) made h =
      list_fixed (arr parts) (collect (responses_part assistant) (items parts)) made
        (collect-All (responses_part assistant) part-All (items parts)) h
  responses_content_settles null made h =
      subst (λ m. responses_content assistant m ≡ ok m) (ok-injective h) refl
  responses_content_settles (bool b) made h =
      subst (λ m. responses_content assistant m ≡ ok m) (ok-injective h) refl
  responses_content_settles (int z) made h =
      subst (λ m. responses_content assistant m ≡ ok m) (ok-injective h) refl
  responses_content_settles (float m k) made h =
      subst (λ m. responses_content assistant m ≡ ok m) (ok-injective h) refl
  responses_content_settles (str s) made h =
      subst (λ m. responses_content assistant m ≡ ok m) (ok-injective h) refl
  responses_content_settles (obj fs) made h =
      subst (λ m. responses_content assistant m ≡ ok m) (ok-injective h) refl
