-- ===== src/Outcome/Laws.antt =====
-- Equations between actions.
use lib_tpm.Base.{◌≡◌, refl, fun_ext}
use lib_tpm.Outcome.{Outcome, ok, fail, M, continue, ◌>>=◌}

module _ {S A B C : Type 0} where
  continue-bind :
      (r : Outcome A) (s : S) (f : A → M S B) (g : B → M S C)
      → (continue r f >>= g) s ≡ continue r (λ a. f a >>= g) s
  continue-bind (ok a) s f g = refl
  continue-bind (fail x) s f g = refl

  pub bind_assoc :
      (m : M S A) (f : A → M S B) (g : B → M S C) → (m >>= f >>= g) ≡ (m >>= λ a. f a >>= g)
  bind_assoc m f g = fun_ext λ s. let (r, s') = m s in continue-bind r s' f g
