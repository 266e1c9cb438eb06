-- ===== src/Outcome.antt =====
-- Return codes (include/tpm2.h) and the calls that use them. A C function that returns an
-- `int` status and writes its results through pointers is an action: it takes the state of the
-- world below it and gives an outcome and the new state.
pub mod Spec
pub mod Laws
use lib_tpm.Base.{⊤, ℕ, Bool, Option, none, some, List, get_elem?, set?, if◌then◌else◌}

-- The negative members of `enum tpm_ret_value`.
pub data TpmError : Type 0 where
  err_response invalid_param err_timeout err_transfer err_iteration_limit : TpmError
  err_already_init : TpmError

-- `enum tpm_ret_value`: `none` is TPM_SUCCESS.
abbrev pub TpmRetValue : Type 0
TpmRetValue = Option TpmError

-- How a call fails: with an error code, by undefined behaviour (a NULL dereference, an access
-- outside an array), or by a loop that has run through its fuel.
pub data Failure : Type 0 where
  err : TpmError → Failure
  fault : Failure
  hang : Failure

-- `ok a` is a status of zero or more, with what the call wrote through its pointers.
pub data Outcome (A : Type 0) : Type 0 where
  ok : A → Outcome A
  fail : Failure → Outcome A

abbrev pub M : Type 0 → Type 0 → Type 0
M S A = S → Outcome A × S

module _ {S A : Type 0} where
  abbrev pub pure : A → M S A
  pure a s = (ok a, s)

  abbrev pub stop_with : Failure → M S A
  stop_with x s = (fail x, s)

  -- `return TPM_ERR_...`
  abbrev pub raise : TpmError → M S A
  raise e s = (fail (err e), s)

  abbrev pub lift : Outcome A → M S A
  lift r s = (r, s)

  -- A pointer that must not be NULL, an index that must be inside its array.
  abbrev pub deref : Option A → M S A
  deref none s = (fail fault, s)
  deref (some a) s = (ok a, s)

module _ {S A B : Type 0} where
  abbrev pub continue : Outcome A → (A → M S B) → M S B
  continue (ok a) f s = f a s
  continue (fail x) f s = (fail x, s)

  -- `err = m(); if (err < 0) return err; ...`
  infixl 5 ◌>>=◌ ◌>>◌
  abbrev pub ◌>>=◌ : M S A → (A → M S B) → M S B
  ◌>>=◌ m f s = let (r, s') = m s in continue r f s'

  abbrev pub ◌>>◌ : M S A → M S B → M S B
  m >> k = m >>= λ _. k

-- `array[i]`, and `array[i] = v`.
abbrev pub load : {S : Type 0} → List ℕ → ℕ → M S ℕ
load xs i = deref (get_elem? xs i)

abbrev pub store : {S : Type 0} → List ℕ → ℕ → ℕ → M S (List ℕ)
store xs i v = deref (set? xs i v)

abbrev pub raise_if : {S : Type 0} → Bool → TpmError → M S ⊤
raise_if b e s = (if b then fail (err e) else ok tt, s)

-- Actions on one of two states, and on a variable of the caller.
module _ {S T A : Type 0} where
  abbrev pub on_left : M S A → M (S × T) A
  on_left m (s, t) = let (r, s') = m s in (r, (s', t))

  abbrev pub on_right : M T A → M (S × T) A
  on_right m (s, t) = let (r, t') = m t in (r, (s, t'))

abbrev pub modify : {S : Type 0} → (S → S) → M S ⊤
modify f s = (ok tt, f s)
