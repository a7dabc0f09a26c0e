-- ===== src/Messages/Alias.antt =====
-- app/proxy/anthropic.py: `DATED_MODEL_ALIAS_RE`, `BRACKET_VARIANT_RE` and
-- `_resolve_anthropic_deployment`. The expressions are run from the end of the text. `\d` is read as
-- the ASCII digits; `$` also stands before a newline at the end, and `.` takes no newline.
use Prim.Native.Char.{code}
use Prim.Native.String.{[], ◌∷◌}
use inference_proxy.Prelude.{
  ℕ, zero, suc, String, Bool, true, false, ◌&&◌, not, Option, none, some, List, ◌==◌, if◌then◌else◌,
  any, eqb, leb, or_else, is_some,
}
use inference_proxy.Prelude.Int.{ℤ}
use inference_proxy.Text.{reverse_onto}
use inference_proxy.Json.{Fields}
use inference_proxy.Credentials.World.{World}
use inference_proxy.Credentials.Files.{Reply}
use inference_proxy.Deployments.Registry.{anthropic_messages, Model}
use inference_proxy.Deployments.Target.{DeploymentTarget}
use inference_proxy.Deployments.Resolve.{
  anthropic, Refusal, Outcome, found, refused, raised, resolve_deployment,
}

-- what `.+` takes: some characters, and no newline
has_no_newline : String → Bool
has_no_newline [] = true
has_no_newline (c ∷ s) = not (eqb (code c) 10) && has_no_newline s

is_name : String → Bool
unfolding has_no_newline
is_name [] = false
is_name (c ∷ s) = has_no_newline (c ∷ s)

base : String → Option String
unfolding is_name reverse_onto
base reversed = if is_name reversed then some (reverse_onto [] reversed) else none

-- the text before `-` and the digits, from the end
before_digits : ℕ → String → Option String
unfolding base
before_digits n [] = none
before_digits zero (c ∷ s) = if eqb (code c) b'-' then base s else none
before_digits (suc n) (c ∷ s) =
    let rest = before_digits n s in if leb b'0' (code c) && leb (code c) b'9' then rest else none

-- the text before the last `[` that the expression can take, from the end
before_bracket : String → Option String
unfolding base
before_bracket [] = none
before_bracket (c ∷ s) =
    let longer = before_bracket s in
    if eqb (code c) b'[' && is_some (base s)
    then base s
    else if eqb (code c) b']'
    then none
    else longer

inside_bracket : String → Option String
unfolding before_bracket
inside_bracket [] = none
inside_bracket (c ∷ s) = if eqb (code c) b']' then none else before_bracket s

variant : String → Option String
unfolding inside_bracket
variant [] = none
variant (c ∷ s) = if eqb (code c) b']' then inside_bracket s else none

without_newline : String → String
without_newline [] = []
without_newline (c ∷ s) = if eqb (code c) 10 then s else c ∷ s

-- `_base_model_from_dated_alias` of a text
unfoldable pub base_model_from_dated_alias : String → Option String
unfolding reverse_onto before_digits without_newline
base_model_from_dated_alias model = before_digits 8 (without_newline (reverse_onto [] model))

-- `_base_model_from_bracket_variant` of a text
unfoldable pub base_model_from_bracket_variant : String → Option String
unfolding reverse_onto variant without_newline
base_model_from_bracket_variant model = variant (without_newline (reverse_onto [] model))

unfoldable pub dated : Option String → Option String
unfolding base_model_from_dated_alias
dated none = none
dated (some model) = base_model_from_dated_alias model

unfoldable pub bracketed : Option String → Option String
unfolding base_model_from_bracket_variant
bracketed none = none
bracketed (some model) = base_model_from_bracket_variant model

unfoldable pub base_model : Option String → Option String
unfolding dated bracketed
base_model model = or_else (dated model) (bracketed model)

-- whether the table has the row, enabled or not
abbrev pub has_row : Option String → List Model → Bool
has_row none rows = false
has_row (some name) rows = any (λ row. row.deployment_name == name) rows

-- the target, and whether the body gets its name
abbrev pub with_rewrite : Bool → Outcome DeploymentTarget → Outcome (DeploymentTarget × Bool)
with_rewrite rewrite (found target) = found (target, rewrite)
with_rewrite rewrite (refused r) = refused r
with_rewrite rewrite raised = raised

module _ (claims : String → Fields) (grant : String → Reply) (stamp : ℤ → String)
    (rows : List Model) (is_admin : Bool) where
  abbrev pub Resolved : Type 0
  Resolved = Outcome (DeploymentTarget × Bool) × World

  unfoldable pub resolve : Option String → World → Outcome DeploymentTarget × World
  unfolding resolve_deployment
  resolve model w =
      resolve_deployment claims grant stamp rows model anthropic is_admin (some anthropic_messages)
        none w

  unfoldable pub by_alias : Option String → Option String → Refusal → World → Resolved
  unfolding resolve dated
  by_alias model none r w = (refused r, w)
  by_alias model (some name) r w =
      if has_row model rows
      then (refused r, w)
      else (let (o, w') = resolve (some name) w in (with_rewrite (is_some (dated model)) o, w'))

  unfoldable pub or_alias : Option String → Outcome DeploymentTarget → World → Resolved
  unfolding by_alias base_model
  or_alias model (refused r) w =
      if eqb r.status 404 then by_alias model (base_model model) r w else (refused r, w)
  or_alias model o w = (with_rewrite false o, w)

  unfoldable pub resolve_anthropic_deployment : Option String → World → Resolved
  unfolding resolve or_alias
  resolve_anthropic_deployment model w = let (o, w') = resolve model w in or_alias model o w'
