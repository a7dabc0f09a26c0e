-- ===== src/Deployments/Offered.antt =====
-- A model that is offered to a harness, and what its requests meet (app/deployments.py).
use inference_proxy.Prelude.{
  String, Bool, true, false, ◌&&◌, not, Option, none, some, List, [], ◌∷◌, ◌==◌, ◌≡◌, refl, first,
  keep, any, arith, inl, inr, sym, In, All, is_some, eq_refl, subst,
}
use inference_proxy.Prelude.Int.{ℤ}
use inference_proxy.Json.{Fields, is_empty_text}
use inference_proxy.Credentials.World.{World}
use inference_proxy.Credentials.Files.{Reply}
use inference_proxy.Credentials.Resolve.{text_or_empty}
use inference_proxy.Deployments.Registry.{
  Wire, anthropic_messages, openai_responses, chat_completions, systemone, Model, visible_to,
}
use inference_proxy.Deployments.Wires.{
  same_wire, judged_harness, resolve_target_uri, is_served, wires_for, listed_in, harness_wires,
  all_wires,
}
use inference_proxy.Deployments.Resolve.{
  ErrorKind, is_row, hidden_from, resolve_deployment, secret_or_error,
}
use inference_proxy.Deployments.Listing.{wires_offered, offered, is_listed, or_harness}

-- the rows have different names
abbrev pub HasUniqueNames : List Model → Type 0
HasUniqueNames [] = Unit
HasUniqueNames (row ∷ rows) =
    All (λ other. (row.deployment_name == other.deployment_name) ≡ false) rows × HasUniqueNames rows

pub same_wire_sound : (v w : Wire) → same_wire v w ≡ true → v ≡ w
same_wire_sound anthropic_messages anthropic_messages h = refl
same_wire_sound openai_responses openai_responses h = refl
same_wire_sound chat_completions chat_completions h = refl
same_wire_sound systemone systemone h = refl
same_wire_sound _ _ h = cc

pub any-keep :
    (wire : Wire) (p : Wire → Bool) (ws : List Wire)
    → any (same_wire wire) (keep p ws) ≡ (p wire && any (same_wire wire) ws)
any-keep wire p [] = ground arith
any-keep wire p (v ∷ ws) = ground (arith, any-keep wire p ws, same_wire_sound wire v)

kept :
    (wire : Wire) (p : Wire → Bool) (ws : List Wire)
    → any (same_wire wire) (keep p ws) ≡ true
    → (p wire ≡ true) × (any (same_wire wire) ws ≡ true)
kept wire p ws h = ground (arith, any-keep wire p ws)

pub all_at {κ} : {A : Type 0} (P : A → Type κ) (a : A) (xs : List A) → In a xs → All P xs → P a
all_at P a [] i h = elim i [ ]
all_at P a (x ∷ xs) (inl e) (p, h) = subst P (sym e) p
all_at P a (x ∷ xs) (inr i) (p, h) = all_at P a xs i h

first-is_row :
    (row : Model) (rows : List Model)
    → In row rows
    → HasUniqueNames rows
    → row.enabled ≡ true
    → first (is_row row.deployment_name) rows ≡ some row
first-is_row row [] i unique enabled = elim i [ ]
first-is_row row (r ∷ rows) (inl e) unique enabled =
    subst (λ r. first (is_row row.deployment_name) (r ∷ rows) ≡ some row) e
      (ground (arith, eq_refl row.deployment_name))
first-is_row row (r ∷ rows) (inr i) (apart, unique) enabled = ground (
  arith,
  first-is_row row rows i unique enabled,
  all_at (λ other. (r.deployment_name == other.deployment_name) ≡ false) row rows i apart,
)

listed-open :
    (harness : Option String) (is_admin : Bool) (row : Model)
    → is_listed harness is_admin row ≡ true
    → (row.enabled ≡ true) × ((row.admin_only && not is_admin) ≡ false)
listed-open harness is_admin row h = ground arith

judged-is_some :
    (wire : Wire) (declared : Option String)
    → any (same_wire wire) all_wires ≡ true
    → is_some (judged_harness (some wire) declared) ≡ true
unfolding judged_harness
judged-is_some anthropic_messages declared h = ground arith
judged-is_some openai_responses declared h = ground arith
judged-is_some chat_completions declared h = ground arith
judged-is_some systemone declared h = cc

hidden_from-visible :
    (harness : String) (row : Model) (o : Option String)
    → is_some o ≡ true
    → visible_to row (or_harness o harness) ≡ true
    → hidden_from o row ≡ false
hidden_from-visible harness row none s v = cc
hidden_from-visible harness row (some judged) s v = ground arith

offered-served :
    (harness : String) (row : Model) (wire : Wire)
    → any (same_wire wire) (wires_offered (some harness) row) ≡ true
    → (hidden_from (judged_harness (some wire) (some harness)) row ≡ false)
      × (is_served row wire ≡ true)
unfolding wires_for
offered-served harness row wire h =
    let (seen, on) = kept wire (offered row harness) _ h in
    let (accepted, on') = kept wire (listed_in (harness_wires harness)) (wires_for row) on in
    let (served, known) = kept wire (is_served row) all_wires on' in
    (
      hidden_from-visible harness row (judged_harness (some wire) (some harness))
          (judged-is_some wire (some harness) known) (ground arith),
      served,
    )

module _ (claims : String → Fields) (grant : String → Reply) (stamp : ℤ → String) where
  -- A model that the listing offers to a harness on a request shape is served on it to a caller that
  -- is judged as that harness, with the same admin rights: the name is found, nothing about the
  -- model or its harnesses refuses the request, it has an upstream for the shape, and the answer is
  -- whatever the credential of the row gives. The condition on the table is that no two rows have
  -- one name, and the model has a name.
  pub offered_is_served :
      (rows : List Model) (row : Model) (kind : ErrorKind) (is_admin : Bool) (wire : Wire)
      (harness : String) (declared : Option String) (w : World)
      → In row rows
      → HasUniqueNames rows
      → is_empty_text row.deployment_name ≡ false
      → is_listed (some harness) is_admin row ≡ true
      → any (same_wire wire) (wires_offered (some harness) row) ≡ true
      → judged_harness (some wire) declared ≡ judged_harness (some wire) (some harness)
      → resolve_deployment claims grant stamp rows
          (some row.deployment_name)
          kind
          is_admin
          (some wire)
          declared
          w
        ≡ secret_or_error claims grant stamp kind row.deployment_name row
            (text_or_empty (resolve_target_uri row (some wire)))
            w
  unfolding resolve_deployment
  offered_is_served rows row kind is_admin wire harness declared w i unique named listed on judged =
      let (enabled, open_to) = listed-open (some harness) is_admin row listed in
      let (seen, served) = offered-served harness row wire on in
      rw (first-is_row row rows i unique enabled, judged, seen, open_to) (ground arith)
