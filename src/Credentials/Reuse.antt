-- ===== src/Credentials/Reuse.antt =====
-- Two requests on one stale Claude credential: the one that waited for the lock reuses the token
-- that the other has stored.
use inference_proxy.Prelude.{
  ℕ, String, ◌≡◌, ap, ◌∙◌, some, Bool, true, false, arith, if◌then◌else◌, Bool-cases, inl, inr,
  eqb_iff, subst,
}
use inference_proxy.Prelude.Int.{ℤ}
use inference_proxy.Json.{Fields}
use inference_proxy.Credentials.World.{
  Timestamp, World, Credential, Result, ok, err, Exec, continue, ◌>>=◌, pure, has_text, is_fresh,
}
use inference_proxy.Credentials.Files.{Reply}
use inference_proxy.Credentials.Resolve.{
  text_or_empty, store_token, under_lock, renew_anthropic, resolve_secret, resolve_anthropic_oauth,
}

-- what the action returns is the access token of the row that it has written
record Stores (i : ℕ) (m : Exec String) : Type 0 where
  at : (w : World) (t : String) → (m w).0 ≡ ok t → ((m w).1.rows i).access_token ≡ some t

continue-Stores :
    {A : Type 0} {i : ℕ} (r : Result A) (f : A → Exec String) (w : World) (t : String)
    → ((a : A) → Stores i (f a))
    → (continue r f w).0 ≡ ok t
    → ((continue r f w).1.rows i).access_token ≡ some t
continue-Stores (ok a) f w t h p = (h a).at w t p
continue-Stores (err e) f w t h p = cc

Stores-bind :
    {A : Type 0} {i : ℕ} (m : Exec A) (f : A → Exec String)
    → ((a : A) → Stores i (f a))
    → Stores i (m >>= f)
Stores-bind m f h = record { at = λ w t p. continue-Stores (m w).0 f (m w).1 t h p }

Stores-store : (row : Credential) (a : String) (e : Timestamp) → Stores row.id (store_token row a e)
unfolding store_token
Stores-store row a e = record {
  at = λ w t p. elim (Bool-cases w.commits) [
    | inl taken ↦ let done = (rw taken at p) in rw taken (ground (arith, eqb_iff row.id row.id))
    | inr refused ↦ cc (rw refused at p)
  ];
}

branch :
    (i : ℕ) (b : Bool) (m n : Exec String) (w : World) (t : String)
    → ((m w).0 ≡ ok t → text_or_empty ((m w).1.rows i).access_token ≡ t)
    → ((n w).0 ≡ ok t → text_or_empty ((n w).1.rows i).access_token ≡ t)
    → ((if b then m else n) w).0 ≡ ok t
    → text_or_empty (((if b then m else n) w).1.rows i).access_token ≡ t
branch i true m n w t h k = h
branch i false m n w t h k = k

module _ (claims : String → Fields) (grant : String → Reply) (stamp : ℤ → String) where
  Stores-renew : (row : Credential) → Stores row.id (renew_anthropic claims grant stamp row)
  unfolding renew_anthropic
  Stores-renew row = search (Stores-bind, Stores-store) depth 12

  Stores-renew_at :
      {i : ℕ} (row : Credential) → row.id ≡ i → Stores i (renew_anthropic claims grant stamp row)
  Stores-renew_at row p =
      subst (λ j. Stores j (renew_anthropic claims grant stamp row)) p (Stores-renew row)

  abbrev renew : Credential → Exec String
  renew = renew_anthropic claims grant stamp

  module _ (cred : Credential) where
    -- With no usable token at hand the row is read again under the lock.
    resolve_stale :
        (w : World)
        → cred.kind ≡ "anthropic_oauth"
        → has_text cred.secret ≡ false
        → is_fresh w.now cred ≡ false
        → has_text cred.source_path ≡ true
        → resolve_secret claims grant stamp (some cred) w ≡ under_lock cred renew w
    unfolding resolve_secret resolve_anthropic_oauth
    resolve_stale w k s f h = simp (k, s, f, h)

    resolve_needs_source :
        (w : World) (t : String)
        → cred.kind ≡ "anthropic_oauth"
        → has_text cred.secret ≡ false
        → is_fresh w.now cred ≡ false
        → (resolve_secret claims grant stamp (some cred) w).0 ≡ ok t
        → has_text cred.source_path ≡ true
    unfolding resolve_secret resolve_anthropic_oauth
    resolve_needs_source w t k s f h = elim (Bool-cases (has_text cred.source_path)) [
      | inl given ↦ given
      | inr absent ↦ cc (simp (k, s, f, absent) at h)
    ]

    -- the answer of the locked section is in the row that it leaves
    lock_stores :
        (w : World) (t : String)
        → (w.rows cred.id).id ≡ cred.id
        → (under_lock cred renew w).0 ≡ ok t
        → text_or_empty ((under_lock cred renew w).1.rows cred.id).access_token ≡ t
    lock_stores w t i =
        branch cred.id (is_fresh w.now (w.rows cred.id))
          (pure (text_or_empty (w.rows cred.id).access_token)) (renew (w.rows cred.id)) w t
          (λ p. cc p) (λ p. ap text_or_empty ((Stores-renew_at (w.rows cred.id) i).at w t p))

    lock_fresh :
        (w : World)
        → is_fresh w.now (w.rows cred.id) ≡ true
        → under_lock cred renew w ≡ (ok (text_or_empty (w.rows cred.id).access_token), w)
    lock_fresh w f = rw f

    -- A Claude credential with no stored secret, whose token is stale in the hands of two requests.
    -- The first resolution returns `t`. In any later state with the rows that it left, while the row
    -- is still fresh, the second returns `t` too and changes nothing: it posts no refresh token,
    -- and writes no row and no file.
    pub resolve_twice :
        (w w' : World) (t : String)
        → cred.kind ≡ "anthropic_oauth"
        → has_text cred.secret ≡ false
        → is_fresh w.now cred ≡ false
        → (w.rows cred.id).id ≡ cred.id
        → (resolve_secret claims grant stamp (some cred) w).0 ≡ ok t
        → w'.rows ≡ (resolve_secret claims grant stamp (some cred) w).1.rows
        → is_fresh w'.now cred ≡ false
        → is_fresh w'.now (w'.rows cred.id) ≡ true
        → resolve_secret claims grant stamp (some cred) w' ≡ (ok t, w')
    resolve_twice w w' t k s f i h rows f' fresh =
        let source = resolve_needs_source w t k s f h in
        let first = resolve_stale w k s f source in
        let held = lock_stores w t i (rw first at h) in
        let same : text_or_empty (w'.rows cred.id).access_token ≡ t =
          ap (λ r. text_or_empty (r cred.id).access_token) (rw first at rows) ∙ held in
        resolve_stale w' k s f' source ∙ lock_fresh w' fresh ∙ ap (λ x. (ok x, w')) same
