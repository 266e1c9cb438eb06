-- ===== src/Outcome/Spec.antt =====
-- Postconditions of actions, for every way to end, and one rule for each way to build an action.
use lib_tpm.Base.{Option, some, sym, subst, ◌≡◌, refl, Bool, true, false, if◌then◌else◌}
use lib_tpm.Outcome.{
  deref, TpmError, Failure, err, Outcome, ok, fail, M, pure, raise, stop_with, raise_if, ◌>>=◌,
  continue,
}

-- `Q` at the value of a call that succeeds, `E` at the failure of one that does not.
abbrev pub Post :
    {S A : Type 0} → (A → S → Type 0) → (Failure → S → Type 0) → Outcome A × S → Type 0
Post Q E (ok a, s) = Q a s
Post Q E (fail x, s) = E x s

-- From each state in `P` the action ends as `Q` and `E` say.
pub record Spec {S A : Type 0} (P : S → Type 0) (m : M S A) (Q : A → S → Type 0)
    (E : Failure → S → Type 0) : Type 0 where
  pub at : (s : S) → P s → Post Q E (m s)

module _ {S A : Type 0} {P : S → Type 0} {Q : A → S → Type 0} {E : Failure → S → Type 0} where
  pub Spec-pure : (a : A) → ((s : S) → P s → Q a s) → Spec P (pure a) Q E
  Spec-pure a h = record { at = h }

  pub Spec-stop_with : (x : Failure) → ((s : S) → P s → E x s) → Spec P (stop_with x) Q E
  Spec-stop_with x h = record { at = h }

  pub Spec-raise : (e : TpmError) → ((s : S) → P s → E (err e) s) → Spec P (raise e) Q E
  Spec-raise e h = record { at = h }

  pub Spec-if :
      (b : Bool) (m n : M S A)
      → (b ≡ true → Spec P m Q E)
      → (b ≡ false → Spec P n Q E)
      → Spec P (if b then m else n) Q E
  Spec-if true m n hm hn = hm refl
  Spec-if false m n hm hn = hn refl

continue-Post :
    {S A B : Type 0} {R : B → S → Type 0} {E : Failure → S → Type 0} (Q : A → S → Type 0)
    (r : Outcome A) (s : S) (f : A → M S B)
    → Post Q E (r, s)
    → ((a : A) → Spec (Q a) (f a) R E)
    → Post R E (continue r f s)
continue-Post Q (ok a) s f h k = (k a).at s h
continue-Post Q (fail x) s f h k = h

module _ {S A B : Type 0} {P : S → Type 0} {R : B → S → Type 0} {E : Failure → S → Type 0} where
  pub Spec-bind :
      (Q : A → S → Type 0) {m : M S A} {f : A → M S B}
      → Spec P m Q E
      → ((a : A) → Spec (Q a) (f a) R E)
      → Spec P (m >>= f) R E
  Spec-bind Q {m} {f} hm hf = record {
    at = λ s h. let (r, s') = m s in continue-Post Q r s' f (hm.at s h) hf;
  }

Post-map :
    {S A : Type 0} (Q' : A → S → Type 0) (E' : Failure → S → Type 0) (Q : A → S → Type 0)
    (E : Failure → S → Type 0) (r : Outcome A × S)
    → ((a : A) (s : S) → Q' a s → Q a s)
    → ((x : Failure) (s : S) → E' x s → E x s)
    → Post Q' E' r
    → Post Q E r
Post-map Q' E' Q E (ok a, s) h g p = h a s p
Post-map Q' E' Q E (fail x, s) h g p = g x s p

module _ {S A : Type 0} {P : S → Type 0} {Q : A → S → Type 0} {E : Failure → S → Type 0} where
  -- A stronger precondition.
  pub Spec-pre :
      (P' : S → Type 0) {m : M S A} → ((s : S) → P s → P' s) → Spec P' m Q E → Spec P m Q E
  Spec-pre P' h k = record { at = λ s p. k.at s (h s p) }

  -- Weaker postconditions.
  pub Spec-post :
      (Q' : A → S → Type 0) (E' : Failure → S → Type 0) {m : M S A}
      → ((a : A) (s : S) → Q' a s → Q a s)
      → ((x : Failure) (s : S) → E' x s → E x s)
      → Spec P m Q' E'
      → Spec P m Q E
  Spec-post Q' E' {m} h g k = record { at = λ s p. Post-map Q' E' Q E (m s) h g (k.at s p) }

  -- A choice written as an `elim`.
  pub Spec-choice :
      (b : Bool) (m n : M S A)
      → (b ≡ true → Spec P m Q E)
      → (b ≡ false → Spec P n Q E)
      → Spec P (elim b [ true ↦ m | false ↦ n ]) Q E
  Spec-choice true m n hm hn = hm refl
  Spec-choice false m n hm hn = hn refl

-- An early return.
pub Spec-raise_if :
    {S : Type 0} {P : S → Type 0} {E : Failure → S → Type 0} (b : Bool) (e : TpmError)
    → ((s : S) → P s → b ≡ true → E (err e) s)
    → Spec P (raise_if b e) (λ _ s. P s × (b ≡ false)) E
Spec-raise_if true e h = record { at = λ s p. h s p refl }
Spec-raise_if false e h = record { at = λ s p. (p, refl) }

-- An access inside its array.
pub Spec-deref :
    {S A B : Type 0} {P : S → Type 0} {R : B → S → Type 0} {E : Failure → S → Type 0} (o : Option A)
    (a : A) (f : A → M S B)
    → o ≡ some a
    → Spec P (f a) R E
    → Spec P (deref o >>= f) R E
Spec-deref {P = P} {R} {E} o a f e k = subst (λ o. Spec P (deref o >>= f) R E) (sym e) k

-- A fact about no state.
pub Spec-fact :
    {S A : Type 0} {P : S → Type 0} {Q : A → S → Type 0} {E : Failure → S → Type 0} (F : Type 0)
    {m : M S A}
    → (F → Spec P m Q E)
    → Spec (λ s. P s × F) m Q E
Spec-fact F k = record { at = λ s h. (k h.1).at s h.0 }

-- A value that the state decides.
pub Spec-exists :
    {S A B : Type 0} {Q : A → S → Type 0} {E : Failure → S → Type 0} (P : B → S → Type 0)
    {m : M S A}
    → ((b : B) → Spec (P b) m Q E)
    → Spec (λ s. (b : B) × P b s) m Q E
Spec-exists P k = record { at = λ s h. (k h.0).at s h.1 }

Post-also :
    {S A : Type 0} (Q Q' : A → S → Type 0) (E : Failure → S → Type 0) (r : Outcome A × S)
    → Post Q E r
    → Post Q' (λ _ _. Unit {0}) r
    → Post (λ a s. Q a s × Q' a s) E r
Post-also Q Q' E (ok a, s) h k = (h, k)
Post-also Q Q' E (fail x, s) h k = h

-- What a run of any kind satisfies.
pub Post-any : {S A : Type 0} (r : Outcome A × S) → Post (λ _ _. Unit {0}) (λ _ _. Unit {0}) r
Post-any (ok a, s) = tt
Post-any (fail x, s) = tt

-- One more fact about a call that succeeds.
pub Spec-also :
    {S A : Type 0} {P : S → Type 0} {Q Q' : A → S → Type 0} {E : Failure → S → Type 0} {m : M S A}
    → Spec P m Q E
    → Spec (λ _. Unit {0}) m Q' (λ _ _. Unit {0})
    → Spec P m (λ a s. Q a s × Q' a s) E
Spec-also {Q = Q} {Q'} {E} {m} k k' = record {
  at = λ s h. Post-also Q Q' E (m s) (k.at s h) (k'.at s tt);
}
