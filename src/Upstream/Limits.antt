-- ===== src/Upstream/Limits.antt =====
-- app/provider_limits.py. A number is m / 2 ** k, as in Json, and a moment is counted in millionths
-- of a second. `float_of` is Python's `float` of a text, `percent` is `round(x * 100, 4)` and
-- `round4` is `round(x, 4)` on floats; the stored window keeps its fields as a record.
-- A header that `float` reads as an infinity or as NaN, on which `int` raises, is left out.
use Prim.Native.String
use inference_proxy.Prelude.{
  ℕ, String, Bool, false, Option, none, some, List, [], ◌∷◌, ◌++◌, if◌then◌else◌, Map, value_at,
  set_at, map, eqb,
}
use inference_proxy.Prelude.Int.{ℤ, pos, ◌-ℤ◌, ltb_ℤ, truncate}
use inference_proxy.Text.{lower}
use inference_proxy.Json.{is_empty_text}

abbrev pub Number : Type 0
Number = ℤ × ℕ

-- 900 seconds
abbrev pub stale_after : ℤ
stale_after = pos 900000000

pub record LimitWindow : Type 0 where
  pub label : String
  pub used_percent : Number
  pub resets_at : Option ℤ
  pub window_minutes : Option ℤ

pub record Reading : Type 0 where
  pub windows : List LimitWindow
  pub observed_at : ℤ

pub record Figure : Type 0 where
  pub windows : List LimitWindow
  pub observed_at : ℤ
  pub age : ℤ
  pub stale : Bool

abbrev pub Store : Type 0
Store = Map Reading

abbrev pub Headers : Type 0
Headers = List (String × String)

lowered_onto : Map String → Headers → Map String
unfolding set_at lower
lowered_onto m [] = m
lowered_onto m ((k, v) ∷ rest) = lowered_onto (set_at (lower k) v m) rest

abbrev epoch : Option Number → Option ℤ
epoch none = none
epoch (some (m, k)) = some (truncate m k)

abbrev is_seven_day : Option ℤ → Bool
is_seven_day (some (pos n)) = eqb n 10080
is_seven_day _ = false

module _ (float_of : String → Option Number) (percent round4 : Number → Number) where
  -- `_number(headers.get(name))`
  abbrev number : Option String → Option Number
  number none = none
  number (some raw) = float_of raw

  abbrev anthropic_window : String → ℤ → Option Number → Option String → List LimitWindow
  anthropic_window label minutes none reset = []
  anthropic_window label minutes (some utilization) reset =
      (record {
        label = label;
        used_percent = percent utilization;
        resets_at = epoch (number reset);
        window_minutes = some minutes;
      })
      ∷ []

  abbrev anthropic_named : Map String → String → ℤ → List LimitWindow
  anthropic_named headers label minutes =
      let prefix = String.◌++◌ "anthropic-ratelimit-unified-" label in
      anthropic_window label minutes (number (value_at (String.◌++◌ prefix "-utilization") headers))
        (value_at (String.◌++◌ prefix "-reset") headers)

  abbrev anthropic_windows : Map String → List LimitWindow
  anthropic_windows headers =
      anthropic_named headers "5h" (pos 300) ++ anthropic_named headers "7d" (pos 10080)

  abbrev codex_window : Option Number → Option ℤ → Option String → List LimitWindow
  codex_window none minutes reset = []
  codex_window (some used) minutes reset =
      (record {
        label = if is_seven_day minutes then "7d" else "5h";
        used_percent = round4 used;
        resets_at = epoch (number reset);
        window_minutes = minutes;
      })
      ∷ []

  abbrev codex_ranked : Map String → String → List LimitWindow
  codex_ranked headers rank =
      let prefix = String.◌++◌ "x-codex-" rank in
      codex_window (number (value_at (String.◌++◌ prefix "-used-percent") headers))
        (epoch (number (value_at (String.◌++◌ prefix "-window-minutes") headers)))
        (value_at (String.◌++◌ prefix "-reset-at") headers)

  abbrev codex_windows : Map String → List LimitWindow
  codex_windows headers = codex_ranked headers "primary" ++ codex_ranked headers "secondary"

  unfoldable pub parse_headers : Headers → List LimitWindow
  unfolding lowered_onto value_at truncate
  parse_headers headers =
      anthropic_windows (lowered_onto [] headers) ++ codex_windows (lowered_onto [] headers)

  abbrev pub record_windows : String → List LimitWindow → ℤ → Store → Store
  record_windows host [] now store = store
  record_windows host (w ∷ ws) now store =
      if is_empty_text host
      then store
      else set_at host (record { windows = w ∷ ws; observed_at = now }) store

  -- `record`, which is a keyword here
  unfoldable pub remember : String → Headers → ℤ → Store → Store
  unfolding parse_headers set_at
  remember host headers now store = record_windows host (parse_headers headers) now store

abbrev pub figure : ℤ → Reading → Figure
figure moment entry = record {
  windows = entry.windows;
  observed_at = entry.observed_at;
  age = moment -ℤ entry.observed_at;
  stale = ltb_ℤ stale_after (moment -ℤ entry.observed_at);
}

abbrev pub with_age : ℤ → String × Reading → String × Figure
with_age moment (host, entry) = (host, figure moment entry)

unfoldable pub snapshot : ℤ → Store → Map Figure
unfolding ◌-ℤ◌
snapshot moment store = map (with_age moment) store

abbrev pub reset : Store → Store
reset store = []
