-- ===== src/Prelude/Maps.antt =====
-- A dict from texts, as a list of pairs in the order of insertion.
use Prim.Native.String.{String}
use mathlib.Core.Path.{◌≡◌, refl}
use mathlib.Core.List.{List, [], ◌∷◌}
use mathlib.Core.Option.{Option, none, some}
use native.Mathlib.Omega.{arith}
use text.Mathlib.Text.{◌==◌}
use text.Mathlib.TextEquality.{eq_iff}
use inference_proxy.Prelude.Tests.{if◌then◌else◌}

abbrev pub Map : Type 0 → Type 0
Map A = List (String × A)

module _ {A : Type 0} where
  -- `d.get(key)`
  unfoldable pub value_at : String → Map A → Option A
  value_at h [] = none
  value_at h ((k, a) ∷ rest) = if k == h then some a else value_at h rest

  -- `d[key] = value`: a key that is there keeps its place
  unfoldable pub set_at : String → A → Map A → Map A
  set_at h a [] = (h, a) ∷ []
  set_at h a ((k, b) ∷ rest) = if k == h then (k, a) ∷ rest else (k, b) ∷ set_at h a rest

  pub value_at-set_at :
      (h j : String) (a : A) (m : Map A)
      → value_at j (set_at h a m) ≡ (if h == j then some a else value_at j m)
  unfolding value_at set_at
  value_at-set_at h j a [] = refl
  value_at-set_at h j a ((k, b) ∷ m) =
      ground (arith, value_at-set_at h j a m, eq_iff h j, eq_iff k h, eq_iff k j)
