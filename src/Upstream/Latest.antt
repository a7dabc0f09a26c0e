-- ===== src/Upstream/Latest.antt =====
-- What the store of app/provider_limits.py holds after a run of replies.
use inference_proxy.Prelude.{
  String, false, Option, none, some, List, [], ◌∷◌, ◌==◌, ◌≡◌, refl, if◌then◌else◌, value_at,
  value_at-set_at, arith, or_else, eq_iff, subst, sym,
}
use inference_proxy.Prelude.Int.{ℤ, pos, ◌-ℤ◌, ltb_ℤ}
use inference_proxy.Json.{is_empty_text}
use inference_proxy.Upstream.Limits.{
  Number, LimitWindow, Reading, Figure, Store, Headers, parse_headers, remember, figure, snapshot,
  record_windows,
}

-- a reply: the host that was called, its headers, and the moment
pub record Reply : Type 0 where
  pub host : String
  pub headers : Headers
  pub at : ℤ

abbrev figure_of : ℤ → Option Reading → Option Figure
figure_of moment none = none
figure_of moment (some entry) = some (figure moment entry)

-- What a figure says of a reading: its windows, how old they are, and whether that is more than 900
-- seconds.
abbrev pub Shows : ℤ → Option Reading → Option Figure → Type 0
unfolding ◌-ℤ◌
Shows moment none f = f ≡ none
Shows moment (some entry) f =
    (shown : Figure) × (f ≡ some shown)
    × (shown.windows ≡ entry.windows)
    × (shown.observed_at ≡ entry.observed_at)
    × (shown.age ≡ moment -ℤ entry.observed_at)
    × (shown.stale ≡ ltb_ℤ (pos 900000000) (moment -ℤ entry.observed_at))

figure_of-Shows :
    (moment : ℤ) (entry : Option Reading) → Shows moment entry (figure_of moment entry)
unfolding ◌-ℤ◌
figure_of-Shows moment none = refl
figure_of-Shows moment (some entry) = (figure moment entry, refl, refl, refl, refl, refl)

module _ (float_of : String → Option Number) (percent round4 : Number → Number) where
  abbrev pub observe : List Reply → Store → Store
  observe [] store = store
  observe (r ∷ rest) store =
      observe rest (remember float_of percent round4 r.host r.headers r.at store)

  -- what one reply says of a host: nothing, where it is another host's or reports no limit
  abbrev reported : List LimitWindow → ℤ → Option Reading
  reported [] at = none
  reported (w ∷ ws) at = some (record { windows = w ∷ ws; observed_at = at })

  abbrev pub says : String → Reply → Option Reading
  says host r =
      if r.host == host
      then reported (parse_headers float_of percent round4 r.headers) r.at
      else none

  -- the last reply that says something of a host
  abbrev pub last_word : String → List Reply → Option Reading
  last_word host [] = none
  last_word host (r ∷ rest) = or_else (last_word host rest) (says host r)

  value_at-record_windows :
      (host k : String) (ws : List LimitWindow) (at : ℤ) (store : Store)
      → is_empty_text host ≡ false
      → value_at host (record_windows float_of percent round4 k ws at store)
        ≡ or_else (if k == host then reported ws at else none) (value_at host store)
  value_at-record_windows host k [] at store text = ground arith
  value_at-record_windows host k (w ∷ ws) at store text = ground (
    arith,
    eq_iff k host,
    value_at-set_at k host (record { windows = w ∷ ws; observed_at = at }) store,
  )

  value_at-remember :
      (host : String) (r : Reply) (store : Store)
      → is_empty_text host ≡ false
      → value_at host (remember float_of percent round4 r.host r.headers r.at store)
        ≡ or_else (says host r) (value_at host store)
  unfolding remember
  value_at-remember host r store text =
      value_at-record_windows host r.host (parse_headers float_of percent round4 r.headers) r.at
        store text

  value_at-observe :
      (host : String) (replies : List Reply) (store : Store)
      → is_empty_text host ≡ false
      → value_at host (observe replies store)
        ≡ or_else (last_word host replies) (value_at host store)
  value_at-observe host [] store text = refl
  value_at-observe host (r ∷ rest) store text = ground (
    arith,
    value_at-remember host r store text,
    value_at-observe host rest (remember float_of percent round4 r.host r.headers r.at store) text,
  )

  value_at-snapshot :
      (moment : ℤ) (host : String) (store : Store)
      → value_at host (snapshot moment store) ≡ figure_of moment (value_at host store)
  unfolding snapshot value_at
  value_at-snapshot moment host [] = refl
  value_at-snapshot moment host ((k, e) ∷ store) =
      ground (arith, value_at-snapshot moment host store)

  figure_of-last_word :
      (moment : ℤ) (host : String) (replies : List Reply)
      → is_empty_text host ≡ false
      → value_at host (snapshot moment (observe replies []))
        ≡ figure_of moment (last_word host replies)
  unfolding value_at
  figure_of-last_word moment host replies text =
      rw (value_at-snapshot moment host (observe replies []), value_at-observe host replies [] text)
        (ground arith)

  -- After any run of replies from an empty store, the figure of a host is the one of the last reply
  -- of that host that reported a limit, with its age at the moment of asking, stale past 900 seconds,
  -- and there is none if no reply of the host has reported any. Replies that report no limit, and
  -- those of other hosts, change nothing.
  pub snapshot-observe :
      (moment : ℤ) (host : String) (replies : List Reply)
      → is_empty_text host ≡ false
      → Shows moment (last_word host replies) (value_at host (snapshot moment (observe replies [])))
  snapshot-observe moment host replies text =
      subst (Shows moment (last_word host replies))
        (sym (figure_of-last_word moment host replies text))
        (figure_of-Shows moment (last_word host replies))
