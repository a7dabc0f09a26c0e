-- ===== src/Credentials/Rules.antt =====
-- What an action leaves alone: one rule for each way to build an action.
use inference_proxy.Prelude.{Bool, true, false, ◌≡◌, refl, ◌∙◌, if◌then◌else◌}
use inference_proxy.Credentials.World.{
  World, Result, ok, err, CredentialError, Exec, continue, ◌>>=◌, pure, raise, gets,
}

-- the rows are untouched, whether the action returns or raises
pub record KeepsRows {A : Type 0} (m : Exec A) : Type 0 where
  pub at : (w : World) → (m w).1.rows ≡ w.rows

-- the rows are untouched if the action raises
pub record IsAtomic {A : Type 0} (m : Exec A) : Type 0 where
  pub at : (w : World) (e : CredentialError) → (m w).0 ≡ err e → (m w).1.rows ≡ w.rows

module _ {A : Type 0} where
  pub KeepsRows-pure : (a : A) → KeepsRows (pure a)
  KeepsRows-pure a = record { at = λ w. refl }

  pub KeepsRows-raise : (e : CredentialError) → KeepsRows (raise {A = A} e)
  KeepsRows-raise e = record { at = λ w. refl }

  pub KeepsRows-gets : (f : World → A) → KeepsRows (gets f)
  KeepsRows-gets f = record { at = λ w. refl }

  pub KeepsRows-if :
      (b : Bool) (m n : Exec A) → KeepsRows m → KeepsRows n → KeepsRows (if b then m else n)
  KeepsRows-if true m n h k = h
  KeepsRows-if false m n h k = k

  pub IsAtomic-if :
      (b : Bool) (m n : Exec A) → IsAtomic m → IsAtomic n → IsAtomic (if b then m else n)
  IsAtomic-if true m n h k = h
  IsAtomic-if false m n h k = k

  pub IsAtomic-KeepsRows : {m : Exec A} → KeepsRows m → IsAtomic m
  IsAtomic-KeepsRows h = record { at = λ w e _. h.at w }

module _ {A B : Type 0} where
  continue-rows :
      (r : Result A) (f : A → Exec B) (w : World)
      → ((a : A) → KeepsRows (f a))
      → (continue r f w).1.rows ≡ w.rows
  continue-rows (ok a) f w h = (h a).at w
  continue-rows (err e) f w h = refl

  pub KeepsRows-bind :
      (m : Exec A) (f : A → Exec B)
      → KeepsRows m
      → ((a : A) → KeepsRows (f a))
      → KeepsRows (m >>= f)
  KeepsRows-bind m f h k = record { at = λ w. continue-rows (m w).0 f (m w).1 k ∙ h.at w }

  continue-atomic :
      (r : Result A) (f : A → Exec B) (w : World) (e : CredentialError)
      → ((a : A) → IsAtomic (f a))
      → (continue r f w).0 ≡ err e
      → (continue r f w).1.rows ≡ w.rows
  continue-atomic (ok a) f w e h p = (h a).at w e p
  continue-atomic (err e') f w e h p = refl

  pub IsAtomic-bind :
      (m : Exec A) (f : A → Exec B) → KeepsRows m → ((a : A) → IsAtomic (f a)) → IsAtomic (m >>= f)
  IsAtomic-bind m f h k = record { at = λ w e p. continue-atomic (m w).0 f (m w).1 e k p ∙ h.at w }

  -- Inversion of a bind that returned.
  pub bind-eq-ok :
      (m : Exec A) (f : A → Exec B) (w : World) (b : B)
      → ((m >>= f) w).0 ≡ ok b
      → (a : A) × ((m w).0 ≡ ok a) × ((f a (m w).1).0 ≡ ok b) × ((m >>= f) w ≡ f a (m w).1)
  bind-eq-ok m f w b = continue-eq-ok (m w).0
    where
      continue-eq-ok :
          (r : Result A)
          → (continue r f (m w).1).0 ≡ ok b
          → (a : A) × (r ≡ ok a) × ((f a (m w).1).0 ≡ ok b) × (continue r f (m w).1 ≡ f a (m w).1)
      continue-eq-ok (ok a) p = (a, refl, p, refl)
      continue-eq-ok (err e) p = cc

pub ruleset keeps_rules =
    (KeepsRows-pure, KeepsRows-raise, KeepsRows-gets, KeepsRows-if, KeepsRows-bind)
