-- ===== src/Deployments/Hidden.antt =====
-- What a caller learns of a model that it may not use (app/deployments.py).
use inference_proxy.Prelude.{
  String, Bool, true, ◌&&◌, ◌||◌, not, Option, none, some, List, [], ◌∷◌, ◌==◌, ◌≡◌, refl, first,
  keep, arith,
}
use inference_proxy.Prelude.Int.{ℤ}
use inference_proxy.Json.{Fields}
use inference_proxy.Credentials.World.{World}
use inference_proxy.Credentials.Files.{Reply}
use inference_proxy.Deployments.Registry.{Wire, Model}
use inference_proxy.Deployments.Wires.{judged_harness}
use inference_proxy.Deployments.Resolve.{ErrorKind, is_row, hidden_from, resolve_deployment}

abbrev pub is_named : String → Model → Bool
is_named name row = row.deployment_name == name

abbrev pub without : String → List Model → List Model
without name rows = keep (λ row. not (is_named name row)) rows

first-without : (name : String) (rows : List Model) → first (is_row name) (without name rows) ≡ none
first-without name [] = refl
first-without name (row ∷ rows) = ground (arith, first-without name rows)

-- a model that this request may not use: for admins only, or withheld from the harness
abbrev pub is_hidden : Bool → Option Wire → Option String → Model → Bool
is_hidden is_admin wire declared row =
    (row.admin_only && not is_admin) || hidden_from (judged_harness wire declared) row

module _ (claims : String → Fields) (grant : String → Reply) (stamp : ℤ → String) where
  -- A request for a model that it may not use is answered as it would be if no row of that name
  -- were in the table: the refusal is the same, and nothing is read or refreshed on the way.
  pub hidden_as_absent :
      (rows : List Model) (name : String) (kind : ErrorKind) (is_admin : Bool) (wire : Option Wire)
      (declared : Option String) (w : World) (row : Model)
      → first (is_row name) rows ≡ some row
      → is_hidden is_admin wire declared row ≡ true
      → resolve_deployment claims grant stamp rows (some name) kind is_admin wire declared w
        ≡ resolve_deployment claims grant stamp
            (without name rows)
            (some name)
            kind
            is_admin
            wire
            declared
            w
  unfolding resolve_deployment
  hidden_as_absent rows name kind is_admin wire declared w row here hidden =
      rw (here, first-without name rows) (ground arith)
