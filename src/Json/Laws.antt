-- ===== src/Json/Laws.antt =====
-- Reading a key after writing, filtering and building an object.
use inference_proxy.Prelude.{
  String, Bool, true, ◌≡◌, refl, none, some, arith, ◌==◌, eq_iff, if◌then◌else◌,
}
use inference_proxy.Json.{
  Value, null, bool, int, float, str, arr, obj, is_text, Fields, end, field, lookup, put, keep_keys,
  get,
}

pub lookup-put :
    (k j : String) (v : Value) (fs : Fields)
    → lookup j (put k v fs) ≡ (if k == j then some v else lookup j fs)
unfolding lookup put
lookup-put k j v end = refl
lookup-put k j v (field i w fs) =
    ground (arith, lookup-put k j v fs, eq_iff k j, eq_iff i k, eq_iff i j)

pub lookup-keep_keys :
    (p : String → Bool) (j : String) (fs : Fields)
    → lookup j (keep_keys p fs) ≡ (if p j then lookup j fs else none)
unfolding lookup keep_keys
lookup-keep_keys p j end = ground arith
lookup-keep_keys p j (field i w fs) = ground (arith, lookup-keep_keys p j fs, eq_iff i j)

pub get-put :
    (k j : String) (v : Value) (fs : Fields) → get j (put k v fs) ≡ (if k == j then v else get j fs)
unfolding get
get-put k j v fs = ground (arith, lookup-put k j v fs)

pub is_text-same : (t : String) (v : Value) → is_text t v ≡ true → v ≡ str t
is_text-same t (str s) h = ground (arith, eq_iff s t)
is_text-same t null h = cc
is_text-same t (bool b) h = cc
is_text-same t (int z) h = cc
is_text-same t (float m k) h = cc
is_text-same t (arr vs) h = cc
is_text-same t (obj fs) h = cc
