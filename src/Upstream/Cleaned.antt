-- ===== src/Upstream/Cleaned.antt =====
-- What `strip_unsupported_input_fields` of app/azure.py keeps and loses.
use inference_proxy.Prelude.{
  String, false, not, List, [], ◌∷◌, map, ◌==◌, keep, length, arith, ◌≡◌, refl, ap, ◌∙◌, eq_refl,
}
use inference_proxy.Json.{
  Value, null, bool, int, float, str, arr, obj, Fields, end, items, lookup, get, has, keep_keys,
  field,
}
use inference_proxy.Json.Laws.{lookup-keep_keys}
use inference_proxy.Upstream.Strip.{
  is_unsupported, without_unsupported, cleaned, cleaned_input, strip_unsupported_input_fields,
  unsupported_input_item_field,
}
use inference_proxy.Upstream.Rewrites.{
  list_of, input_items, AgreeBut, with_input-items, with_input-AgreeBut, with_input-count,
  Rewritten, unchanged,
}

keep_keys-absent :
    (k : String) (fs : Fields) → has k fs ≡ false → keep_keys (λ j. not (j == k)) fs ≡ fs
unfolding has lookup keep_keys
keep_keys-absent k end h = refl
keep_keys-absent k (field j v fs) h = ground (arith, keep_keys-absent k fs)

has-keep_keys : (k : String) (fs : Fields) → has k (keep_keys (λ j. not (j == k)) fs) ≡ false
unfolding has
has-keep_keys k fs = rw (lookup-keep_keys (λ j. not (j == k)) k fs, eq_refl k) refl

cleaned-without : (v : Value) → cleaned v ≡ without_unsupported v
cleaned-without (obj fs) = ground (arith, keep_keys-absent unsupported_input_item_field fs)
cleaned-without null = refl
cleaned-without (bool b) = refl
cleaned-without (int z) = refl
cleaned-without (float m k) = refl
cleaned-without (str t) = refl
cleaned-without (arr is) = refl

without_unsupported-clean : (v : Value) → is_unsupported (without_unsupported v) ≡ false
without_unsupported-clean (obj fs) = has-keep_keys unsupported_input_item_field fs
without_unsupported-clean null = refl
without_unsupported-clean (bool b) = refl
without_unsupported-clean (int z) = refl
without_unsupported-clean (float m k) = refl
without_unsupported-clean (str t) = refl
without_unsupported-clean (arr is) = refl

map-cleaned : (vs : List Value) → map cleaned vs ≡ map without_unsupported vs
map-cleaned [] = refl
map-cleaned (v ∷ vs) = rw (map-cleaned vs, cleaned-without v) refl

keep-unsupported : (vs : List Value) → keep is_unsupported (map without_unsupported vs) ≡ []
keep-unsupported [] = refl
keep-unsupported (v ∷ vs) = rw (without_unsupported-clean v) (keep-unsupported vs)

clean-same : (v : Value) → is_unsupported v ≡ false → without_unsupported v ≡ v
clean-same (obj fs) h = ap (λ r. obj r) (keep_keys-absent unsupported_input_item_field fs h)
clean-same null h = refl
clean-same (bool b) h = refl
clean-same (int z) h = refl
clean-same (float m k) h = refl
clean-same (str t) h = refl
clean-same (arr is) h = refl

all_clean :
    (vs : List Value) → length (keep is_unsupported vs) ≡ 0 → vs ≡ map without_unsupported vs
all_clean [] h = refl
all_clean (v ∷ vs) h = ground (arith, all_clean vs, clean-same v)

cleaned_input-Rewritten :
    (body : Fields) (v : Value)
    → get "input" body ≡ v
    → Rewritten body
        (map without_unsupported (list_of v))
        (length (keep is_unsupported (list_of v)))
        (cleaned_input body v)
cleaned_input-Rewritten body (arr is) h = rw (map-cleaned (items is)) (record {
  now =
      with_input-items body (map without_unsupported (items is)) _
        (λ none_left. ap list_of h ∙ all_clean (items is) none_left);
  count = with_input-count body _ _;
  agree = with_input-AgreeBut body _ _;
})
cleaned_input-Rewritten body null h = unchanged body null h refl
cleaned_input-Rewritten body (bool b) h = unchanged body (bool b) h refl
cleaned_input-Rewritten body (int z) h = unchanged body (int z) h refl
cleaned_input-Rewritten body (float m k) h = unchanged body (float m k) h refl
cleaned_input-Rewritten body (str t) h = unchanged body (str t) h refl
cleaned_input-Rewritten body (obj fs) h = unchanged body (obj fs) h refl

cleaned_input-fixed :
    (body : Fields) (v : Value)
    → keep is_unsupported (list_of v) ≡ []
    → cleaned_input body v ≡ (body, 0)
cleaned_input-fixed body (arr is) h = rw h refl
cleaned_input-fixed body null h = refl
cleaned_input-fixed body (bool b) h = refl
cleaned_input-fixed body (int z) h = refl
cleaned_input-fixed body (float m k) h = refl
cleaned_input-fixed body (str t) h = refl
cleaned_input-fixed body (obj fs) h = refl

-- Each item of `input` loses the field that the upstream rejects, and only that one, at its place in
-- the list, and every other key of the body stays as it was. The count is the number of items that
-- had the field, and doing the same to the result changes nothing and counts none.
pub strip_unsupported_input_fields_lem :
    (body : Fields)
    → let (new, modified) = strip_unsupported_input_fields body in
      (input_items new ≡ map without_unsupported (input_items body))
      × (modified ≡ length (keep is_unsupported (input_items body)))
      × AgreeBut "input" new body
      × (strip_unsupported_input_fields new ≡ (new, 0))
unfolding strip_unsupported_input_fields
strip_unsupported_input_fields_lem body =
    let r = cleaned_input-Rewritten body (get "input" body) refl in
    (
      r.now,
      r.count,
      r.agree,
      cleaned_input-fixed (strip_unsupported_input_fields body).0
          (get "input" (strip_unsupported_input_fields body).0)
          (ap (keep is_unsupported) r.now ∙ keep-unsupported (input_items body)),
    )
