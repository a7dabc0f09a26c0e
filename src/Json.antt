-- ===== src/Json.antt =====
-- The Python values that `json.loads` makes and `json.dumps` takes: the request bodies, replies and
-- events of the proxy. A float is m / 2 ** k, so every finite double is one; NaN and the infinities
-- are left out. An object keeps its keys in order, as a dict does.
pub mod Laws
use inference_proxy.Prelude.{
  ℕ, String, Bool, true, false, not, ◌||◌, ◌&&◌, Option, none, some, List, [], ◌∷◌, ◌==◌,
  if◌then◌else◌, is_some, ◌^◌,
}
use inference_proxy.Text.{strip, is_digits, digits}
use inference_proxy.Prelude.Int.{ℤ, pos, is_zero, truncate, scale, ltb_ℤ}

mutual
  pub data Value : Type 0 where
    null : Value
    bool : Bool → Value
    int : ℤ → Value
    float : ℤ → ℕ → Value
    str : String → Value
    arr : Items → Value
    obj : Fields → Value

  pub data Fields : Type 0 where
    end : Fields
    field : String → Value → Fields → Fields

  pub data Items : Type 0 where
    nil : Items
    cons : Value → Items → Items

abbrev pub items : Items → List Value
items nil = []
items (cons v vs) = v ∷ items vs

abbrev pub of_items : List Value → Items
of_items [] = nil
of_items (v ∷ vs) = cons v (of_items vs)

abbrev pub list : List Value → Value
list vs = arr (of_items vs)

abbrev pub object : List (String × Value) → Fields
object [] = end
object ((k, v) ∷ rest) = field k v (object rest)

-- `d.get(k)`, with `none` for a missing key
unfoldable pub lookup : String → Fields → Option Value
lookup k end = none
lookup k (field j v fs) = if j == k then some v else lookup k fs

-- `d.get(k)`: None for a missing key
abbrev pub or_null : Option Value → Value
or_null none = null
or_null (some v) = v

unfoldable pub get : String → Fields → Value
unfolding lookup
get k fs = or_null (lookup k fs)

-- `k in d`
unfoldable pub has : String → Fields → Bool
unfolding lookup
has k fs = is_some (lookup k fs)

-- `d[k] = v`
unfoldable pub put : String → Value → Fields → Fields
put k v end = field k v end
put k v (field j w fs) = if j == k then field j v fs else field j w (put k v fs)

-- `{k: v for k, v in d.items() if keep(k)}`
unfoldable pub keep_keys : (String → Bool) → Fields → Fields
keep_keys p end = end
keep_keys p (field k v fs) = if p k then field k v (keep_keys p fs) else keep_keys p fs

abbrev pub is_empty_text : String → Bool
is_empty_text s = s == ""

-- Python's truth value
abbrev pub truthy : Value → Bool
truthy null = false
truthy (bool b) = b
truthy (int z) = not (is_zero z)
truthy (float m k) = not (is_zero m)
truthy (str s) = not (is_empty_text s)
truthy (arr nil) = false
truthy (arr (cons v vs)) = true
truthy (obj end) = false
truthy (obj (field k v fs)) = true

-- `a or b`
abbrev pub or_value : Value → Value → Value
or_value a b = if truthy a then a else b

-- `d.get(k)` of a value that may be no dict, where the code has tested for that
abbrev pub fields_of : Value → Fields
fields_of (obj fs) = fs
fields_of _ = end

abbrev pub is_object : Value → Bool
is_object (obj fs) = true
is_object _ = false

-- `value == s` for a constant text
abbrev pub is_text : String → Value → Bool
is_text t (str s) = s == t
is_text t _ = false

-- A number as m / 2 ** k. A bool is an int in Python.
abbrev pub ratio : Value → Option (ℤ × ℕ)
ratio (bool true) = some (pos 1, 0)
ratio (bool false) = some (pos 0, 0)
ratio (int z) = some (z, 0)
ratio (float m k) = some (m, k)
ratio _ = none

-- a < b between two such numbers
abbrev pub ltb_ratio : ℤ × ℕ → ℤ × ℕ → Bool
ltb_ratio (a, j) (b, k) = ltb_ℤ (scale a (2 ^ k)) (scale b (2 ^ j))

-- Python's `int(value)`: `none` where it raises. A text is read as its decimal digits, without the
-- sign and the underscores that `int` would also accept.
unfoldable pub python_int : Value → Option ℤ
unfolding strip is_digits digits truncate
python_int (bool true) = some (pos 1)
python_int (bool false) = some (pos 0)
python_int (int z) = some z
python_int (float m k) = some (truncate m k)
python_int (str s) = if is_digits (strip s) then some (pos (digits (strip s))) else none
python_int _ = none
