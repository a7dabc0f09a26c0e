-- ===== src/Upstream/Stripped.antt =====
-- What `strip_encrypted_reasoning` of app/azure.py keeps and loses.
use inference_proxy.Prelude.{
  ◌+◌, ◌-◌, Bool, List, [], ◌∷◌, keep, length, arith, ◌≡◌, refl, ap, sym, ◌∙◌, length-keep-le,
  all-keep, keep-eq_of_all,
}
use inference_proxy.Json.{Value, null, bool, int, float, str, arr, obj, Fields, items, get}
use inference_proxy.Upstream.Strip.{is_kept, strip_encrypted_reasoning, without_reasoning}
use inference_proxy.Upstream.Rewrites.{
  list_of, input_items, AgreeBut, sub_self, with_input-items, with_input-AgreeBut, with_input-count,
  Rewritten, unchanged,
}

keep-same :
    (p : Value → Bool) (vs : List Value) → length vs - length (keep p vs) ≡ 0 → keep p vs ≡ vs
keep-same p [] h = refl
keep-same p (v ∷ vs) h = ground (arith, keep-same p vs, length-keep-le p vs)

without_reasoning-Rewritten :
    (body : Fields) (v : Value)
    → get "input" body ≡ v
    → Rewritten body
        (keep is_kept (list_of v))
        (length (list_of v) - length (keep is_kept (list_of v)))
        (without_reasoning body v)
without_reasoning-Rewritten body (arr is) h = record {
  now =
      with_input-items body (keep is_kept (items is)) _
        (λ none_left. ap list_of h ∙ sym (keep-same is_kept (items is) none_left));
  count = with_input-count body _ _;
  agree = with_input-AgreeBut body _ _;
}
without_reasoning-Rewritten body null h = unchanged body null h refl
without_reasoning-Rewritten body (bool b) h = unchanged body (bool b) h refl
without_reasoning-Rewritten body (int z) h = unchanged body (int z) h refl
without_reasoning-Rewritten body (float m k) h = unchanged body (float m k) h refl
without_reasoning-Rewritten body (str t) h = unchanged body (str t) h refl
without_reasoning-Rewritten body (obj fs) h = unchanged body (obj fs) h refl

without_reasoning-fixed :
    (body : Fields) (v : Value)
    → keep is_kept (list_of v) ≡ list_of v
    → without_reasoning body v ≡ (body, 0)
without_reasoning-fixed body (arr is) h = rw (h, sub_self (length (items is))) refl
without_reasoning-fixed body null h = refl
without_reasoning-fixed body (bool b) h = refl
without_reasoning-fixed body (int z) h = refl
without_reasoning-fixed body (float m k) h = refl
without_reasoning-fixed body (str t) h = refl
without_reasoning-fixed body (obj fs) h = refl

-- Stripping a body of its reasoning leaves the other items of `input` in their order and every other
-- key of the body as it was. The count is the number of items that went, and stripping the result
-- again changes nothing and counts none.
pub strip_encrypted_reasoning_lem :
    (body : Fields)
    → let (new, removed) = strip_encrypted_reasoning body in
      (input_items new ≡ keep is_kept (input_items body))
      × (length (input_items body) ≡ removed + length (input_items new))
      × AgreeBut "input" new body
      × (strip_encrypted_reasoning new ≡ (new, 0))
unfolding strip_encrypted_reasoning
strip_encrypted_reasoning_lem body =
    let r = without_reasoning-Rewritten body (get "input" body) refl in
    (
      r.now,
      omega (arith, r.count, ap length r.now, length-keep-le is_kept (input_items body)),
      r.agree,
      without_reasoning-fixed (strip_encrypted_reasoning body).0 _ (
          ap (keep is_kept) r.now
          ∙ keep-eq_of_all is_kept _ (all-keep is_kept (input_items body))
          ∙ sym r.now),
    )
