-- ===== src/Messages/Aliases.antt =====
-- What `_resolve_anthropic_deployment` of app/proxy/anthropic.py falls back to, and what it never
-- reaches.
use inference_proxy.Prelude.{
  String, Bool, true, false, Option, none, some, List, ◌≡◌, refl, sym, ap, ◌∙◌, ◌⊎◌, ◌≢◌, eqb,
  if◌then◌else◌, is_some, Bool-cases, inl, inr,
}
use inference_proxy.Prelude.Int.{ℤ}
use inference_proxy.Json.{Fields}
use inference_proxy.Credentials.World.{World}
use inference_proxy.Credentials.Files.{Reply}
use inference_proxy.Deployments.Registry.{Model}
use inference_proxy.Deployments.Target.{DeploymentTarget}
use inference_proxy.Deployments.Resolve.{Refusal, Outcome, found, refused, raised}
use inference_proxy.Messages.Alias.{
  dated, base_model, has_row, with_rewrite, resolve, by_alias, or_alias,
  resolve_anthropic_deployment,
}

module _ (claims : String → Fields) (grant : String → Reply) (stamp : ℤ → String)
    (rows : List Model) (is_admin : Bool) where
  by_alias-present :
      (model base : Option String) (r : Refusal) (w : World)
      → has_row model rows ≡ true
      → by_alias claims grant stamp rows is_admin model base r w ≡ (refused r, w)
  unfolding by_alias
  by_alias-present model none r w h = refl
  by_alias-present model (some name) r w h = rw h refl

  or_alias-present :
      (model : Option String) (o : Outcome DeploymentTarget) (w : World)
      → has_row model rows ≡ true
      → or_alias claims grant stamp rows is_admin model o w ≡ (with_rewrite false o, w)
  unfolding or_alias by_alias
  or_alias-present model (found t) w h = refl
  or_alias-present model raised w h = refl
  or_alias-present model (refused r) w h = elim (Bool-cases (eqb r.status 404)) [
    | inl missing ↦ rw missing (by_alias-present model (base_model model) r w h)
    | inr other ↦ rw other refl
  ]

  row_decides_alone :
      (model : Option String) (w : World)
      → has_row model rows ≡ true
      → resolve_anthropic_deployment claims grant stamp rows is_admin model w ≡ (
          let (o, w') = resolve claims grant stamp rows is_admin model w in
          (with_rewrite false o, w'))
  unfolding resolve_anthropic_deployment
  row_decides_alone model w h =
      or_alias-present model (resolve claims grant stamp rows is_admin model w).0
        (resolve claims grant stamp rows is_admin model w).1 h

  -- that the name is an alias of a row
  abbrev pub Reached : Option String → DeploymentTarget → Bool → Type 0
  Reached model target rewrite =
      (name : String) × (w : World) × (base_model model ≡ some name)
      × (rewrite ≡ is_some (dated model))
      × (has_row model rows ≡ false)
      × ((resolve claims grant stamp rows is_admin (some name) w).0 ≡ found target)

  with_rewrite-found :
      (rewrite flag : Bool) (o : Outcome DeploymentTarget) (target : DeploymentTarget)
      → with_rewrite rewrite o ≡ found (target, flag)
      → (o ≡ found target) × (flag ≡ rewrite)
  with_rewrite-found rewrite flag (found t) target h = (cc, cc)
  with_rewrite-found rewrite flag (refused r) target h = cc
  with_rewrite-found rewrite flag raised target h = cc

  refused_not_found :
      (r : Refusal) (target : DeploymentTarget) (flag : Bool)
      → with_rewrite flag (refused r) ≢ found (target, flag)
  refused_not_found r target flag h = cc

  by_alias-none :
      (model : Option String) (r : Refusal) (w : World) (target : DeploymentTarget) (flag : Bool)
      → (by_alias claims grant stamp rows is_admin model none r w).0 ≢ found (target, flag)
  unfolding by_alias
  by_alias-none model r w target flag h = cc

  by_alias-absent :
      (model : Option String) (name : String) (r : Refusal) (w : World)
      → has_row model rows ≡ false
      → (by_alias claims grant stamp rows is_admin model (some name) r w).0
        ≡ with_rewrite
            (is_some (dated model))
            (resolve claims grant stamp rows is_admin (some name) w).0
  unfolding by_alias
  by_alias-absent model name r w h = rw h refl

  by_alias-found :
      (model : Option String) (base : Option String) (r : Refusal) (w : World)
      (target : DeploymentTarget) (flag : Bool)
      → base_model model ≡ base
      → (by_alias claims grant stamp rows is_admin model base r w).0 ≡ found (target, flag)
      → Reached model target flag
  by_alias-found model none r w target flag named h =
      elim (by_alias-none model r w target flag h) [ ]
  by_alias-found model (some name) r w target flag named h =
      elim (Bool-cases (has_row model rows)) [
        | inl present ↦
            elim (refused_not_found r target flag
              (sym (ap (λ x. x.0) (by_alias-present model (some name) r w present)) ∙ h)) [ ]
        | inr absent ↦
            let (o, f) =
              with_rewrite-found (is_some (dated model)) flag
                (resolve claims grant stamp rows is_admin (some name) w).0 target
                (sym (by_alias-absent model name r w absent) ∙ h) in
            (name, w, named, f, absent, o)
      ]

  refusal_followed :
      (missing : Bool) (model : Option String) (r : Refusal) (w : World) (target : DeploymentTarget)
      (flag : Bool)
      → (if missing
          then by_alias claims grant stamp rows is_admin model (base_model model) r w
          else (refused r, w)).0
        ≡ found (target, flag)
      → ((refused r ≡ found target) × (flag ≡ false)) ⊎ Reached model target flag
  refusal_followed true model r w target flag h =
      inr (by_alias-found model (base_model model) r w target flag refl h)
  refusal_followed false model r w target flag h = elim (refused_not_found r target flag h) [ ]

  or_alias-found :
      (model : Option String) (o : Outcome DeploymentTarget) (w : World) (target : DeploymentTarget)
      (flag : Bool)
      → (or_alias claims grant stamp rows is_admin model o w).0 ≡ found (target, flag)
      → ((o ≡ found target) × (flag ≡ false)) ⊎ Reached model target flag
  unfolding or_alias
  or_alias-found model (found t) w target flag h =
      inl (with_rewrite-found false flag (found t) target h)
  or_alias-found model raised w target flag h = cc
  or_alias-found model (refused r) w target flag h =
      refusal_followed (eqb r.status 404) model r w target flag h

  -- A target is that of the name as it stands, or that of the alias of a name that no row has; and
  -- the body is rewritten for a dated alias only.
  pub alias_only_without_row :
      (model : Option String) (w : World) (target : DeploymentTarget) (rewrite : Bool)
      → (resolve_anthropic_deployment claims grant stamp rows is_admin model w).0
        ≡ found (target, rewrite)
      → (((resolve claims grant stamp rows is_admin model w).0 ≡ found target) × (rewrite ≡ false))
        ⊎ Reached model target rewrite
  unfolding resolve_anthropic_deployment
  alias_only_without_row model w target rewrite h =
      or_alias-found model (resolve claims grant stamp rows is_admin model w).0
        (resolve claims grant stamp rows is_admin model w).1 target rewrite h
