-- ===== src/Upstream/Sanitized.antt =====
-- What `sanitize_stream_options` of app/azure.py keeps and loses.
use inference_proxy.Prelude.{
  String, Bool, true, false, not, Option, none, some, List, [], ◌==◌, ◌≡◌, refl, sym, ap, ◌∙◌,
  arith, eq_iff, subst,
}
use inference_proxy.Json.{
  Value, null, bool, int, float, str, arr, obj, Fields, end, field, get, lookup, keep_keys,
  fields_of,
}
use inference_proxy.Json.Laws.{get-put, lookup-put, lookup-keep_keys}
use inference_proxy.Upstream.Strip.{
  delivery, is_rejected, with_options, without_delivery, sanitized, sanitize_stream_options,
}
use inference_proxy.Upstream.Rewrites.{AgreeBut}

-- the options of a body, which are none where it has no object there
abbrev pub options : Fields → Fields
options body = fields_of (get "stream_options" body)

abbrev kept_options : Fields → Fields
kept_options opts = keep_keys (λ k. not (k == delivery)) opts

kept-delivery : (opts : Fields) → get delivery (kept_options opts) ≡ null
unfolding get
kept-delivery opts = rw (lookup-keep_keys (λ k. not (k == delivery)) delivery opts) refl

kept-others :
    (opts : Fields) (k : String)
    → (k == delivery) ≡ false
    → lookup k (kept_options opts) ≡ lookup k opts
kept-others opts k apart = rw (lookup-keep_keys (λ k. not (k == delivery)) k opts, apart) refl

dropped :
    (body : Fields)
    → get "stream_options" (keep_keys (λ k. not (k == "stream_options")) body) ≡ null
unfolding get
dropped body = rw (lookup-keep_keys (λ k. not (k == "stream_options")) "stream_options" body) refl

with_options-options : (body opts : Fields) → options (with_options body opts) ≡ opts
with_options-options body end = ap fields_of (dropped body)
with_options-options body (field k v fs) =
    ap fields_of (get-put "stream_options" "stream_options" (obj (field k v fs)) body)

with_options-AgreeBut :
    (body opts : Fields) → AgreeBut "stream_options" (with_options body opts) body
with_options-AgreeBut body end j apart =
    rw (lookup-keep_keys (λ k. not (k == "stream_options")) j body)
      (ground (arith, eq_iff "stream_options" j, eq_iff j "stream_options"))
with_options-AgreeBut body (field k v fs) j apart =
    rw (lookup-put "stream_options" j (obj (field k v fs)) body, apart) refl

with_options-fixed :
    (body opts : Fields)
    → get delivery opts ≡ null
    → sanitize_stream_options (with_options body opts) ≡ some (with_options body opts, [])
unfolding sanitize_stream_options
with_options-fixed body end h = rw (dropped body) refl
with_options-fixed body (field k v fs) h =
    rw (get-put "stream_options" "stream_options" (obj (field k v fs)) body, h) refl

abbrev answer : Fields → List String → Option (Fields × List String)
answer new removed = some (new, removed)

same_body : {a b : Fields} {r s : List String} → answer a r ≡ answer b s → a ≡ b
same_body h = cc

record Sanitary (body new : Fields) : Type 0 where
  pub fixed : sanitize_stream_options new ≡ some (new, [])
  pub agree : AgreeBut "stream_options" new body
  pub others :
      (k : String) → (k == delivery) ≡ false → lookup k (options new) ≡ lookup k (options body)

untouched :
    (body new : Fields) (removed : List String)
    → sanitize_stream_options body ≡ some (body, [])
    → answer body [] ≡ answer new removed
    → Sanitary body new
untouched body new removed clean e =
    subst (Sanitary body) (same_body e)
      (record { fixed = clean; agree = λ j apart. refl; others = λ k apart. refl })

without_delivery-Sanitary :
    (body opts new : Fields) (removed : List String) (r : Option Bool)
    → get "stream_options" body ≡ obj opts
    → sanitize_stream_options body ≡ without_delivery body opts r
    → without_delivery body opts r ≡ some (new, removed)
    → Sanitary body new
without_delivery-Sanitary body opts new removed none at clean h = cc
without_delivery-Sanitary body opts new removed (some false) at clean h =
    untouched body new removed clean h
without_delivery-Sanitary body opts new removed (some true) at clean h =
    subst (Sanitary body) (same_body h) (record {
      fixed = with_options-fixed body (kept_options opts) (kept-delivery opts);
      agree = with_options-AgreeBut body (kept_options opts);
      others = λ k apart.
          ap (lookup k) (with_options-options body (kept_options opts))
          ∙ kept-others opts k apart
          ∙ sym (ap (λ v. lookup k (fields_of v)) at);
    })

sanitized-Sanitary :
    (body new : Fields) (removed : List String) (v : Value)
    → get "stream_options" body ≡ v
    → sanitize_stream_options body ≡ sanitized body v
    → sanitized body v ≡ some (new, removed)
    → Sanitary body new
sanitized-Sanitary body new removed (obj opts) at clean h =
    without_delivery-Sanitary body opts new removed (is_rejected (get delivery opts)) at clean h
sanitized-Sanitary body new removed null at clean h = untouched body new removed clean h
sanitized-Sanitary body new removed (bool b) at clean h = untouched body new removed clean h
sanitized-Sanitary body new removed (int z) at clean h = untouched body new removed clean h
sanitized-Sanitary body new removed (float m k) at clean h = untouched body new removed clean h
sanitized-Sanitary body new removed (str t) at clean h = untouched body new removed clean h
sanitized-Sanitary body new removed (arr vs) at clean h = untouched body new removed clean h

-- Where the stream options of a body can be looked at, at most the rejected delivery goes: every
-- other option and every other key of the body stays, and doing the same to the result removes
-- nothing and changes nothing.
pub sanitize_stream_options_lem :
    (body new : Fields) (removed : List String)
    → sanitize_stream_options body ≡ some (new, removed)
    → (sanitize_stream_options new ≡ some (new, []))
      × AgreeBut "stream_options" new body
      × ((k : String) → (k == delivery) ≡ false → lookup k (options new) ≡ lookup k (options body))
unfolding sanitize_stream_options
sanitize_stream_options_lem body new removed h =
    let s = sanitized-Sanitary body new removed (get "stream_options" body) refl refl h in
    (s.fixed, s.agree, s.others)
