-- ===== src/Command/Pcr/Read.antt =====
-- What `tpm_pcr_read_single` leaves in the caller's array.
use lib_tpm.Base.{
  ◌%◌, ◌^◌, ◌==◌, get_or, ⊤, ℕ, ◌+◌, ◌-◌, ◌≤◌, ◌<◌, ◌≡◌, refl, ap, Bool, true, false, ◌||◌, not,
  Option, List, length, take, drop, length-take, length-drop, length-append, length-replicate, ltb,
  ltb→le, arith,
}
use lib_tpm.Outcome.{Outcome, ok, fail, M, on_left, on_right, modify, invalid_param, err_response}
use lib_tpm.Outcome.Spec.{Spec, Post, Spec-bind, Spec-pure, Spec-post, Spec-fact, Spec-raise_if}
use lib_tpm.Endian.{Host, be16toh, word16}
use lib_tpm.Buffer.{TpmCmd, size_of, code_of}
use lib_tpm.Registers.{TpmChipData, tpm_header_size, max_digest_size, tpm_response_success}
use lib_tpm.Interface.{InterfaceOps}
use lib_tpm.Command.Builder.{finished}
use lib_tpm.Command.Transfer.{tpm_xfer}
use lib_tpm.Command.Pcr.{
  digest_offset, digest_size_offset, single_read_res_size, read_builder, read_digest, copy_into,
  clear, tpm_pcr_read_single,
}

or_right : (a b : Bool) → (a || b) ≡ false → b ≡ false
or_right true b e = absurd cc
or_right false b e = e

length-copy_into :
    (dest src : List ℕ)
    → length src ≤ length dest
    → length (copy_into dest src (length src)) ≡ length dest
length-copy_into dest src h = omega (
  arith,
  length-append (take (length src) src) (drop (length src) dest),
  length-take (length src) src,
  length-drop (length src) dest,
)

length-take_le : (n len : ℕ) (xs : List ℕ) → ltb len n ≡ false → length (take n xs) ≤ len
length-take_le n len xs e = omega (arith, length-take n xs, ltb→le _ _ e)

-- The digest fits the caller's array.
read_digest-Spec :
    {S : Type 0} (h : Host) (response : TpmCmd) (len : ℕ)
    → Spec {S = S}
        (λ _. ⊤)
        (read_digest h response len)
        (λ digest _. ⊤ × (length digest ≤ len))
        (λ _ _. ⊤)
unfolding read_digest
read_digest-Spec h response len =
    let data_size : ℕ = (size_of h response + 2 ^ 32 - tpm_header_size) % 2 ^ 32 in
    let res : List ℕ = take single_read_res_size response.data_bytes in
    let n : ℕ =
      be16toh h
        (word16 h (get_or res digest_size_offset 0) (get_or res (digest_size_offset + 1) 0)) in
    Spec-bind _
      (Spec-raise_if (not (code_of h response == tpm_response_success)) err_response λ s p _. tt)
      λ _.
        Spec-bind _
          (Spec-raise_if (ltb single_read_res_size data_size || ltb data_size digest_offset)
            err_response λ s p _. tt)
          λ _.
            Spec-bind _
              (Spec-raise_if (ltb max_digest_size n || ltb len n) invalid_param λ s p _. tt)
              λ _.
                Spec-bind _
                  (Spec-raise_if (ltb data_size (digest_offset + n)) err_response λ s p _. tt)
                  λ _.
                    Spec-pure (take n (drop digest_offset res))
                      λ s p. (tt, length-take_le n len _ (or_right _ _ p.0.1))

module _ {S : Type 0} (c : List ℕ) where
  abbrev Holds : S × List ℕ → Type 0
  Holds st = st.1 ≡ c

  -- What happens below the caller's array.
  below-Spec :
      {A : Type 0} (F : A → Type 0) {m : M S A}
      → Spec (λ _. ⊤) m (λ a _. ⊤ × F a) (λ _ _. ⊤)
      → Spec Holds (on_left m) (λ a st. Holds st × F a) (λ _. Holds)
  below-Spec F {m} k = record { at = λ (s, out) e. keep F (m s).0 (m s).1 out e (k.at s tt) }
    where
      keep :
          {A : Type 0} (F : A → Type 0) (r : Outcome A) (s : S) (out : List ℕ)
          → out ≡ c
          → Post (λ a (_ : S). ⊤ × F a) (λ _ _. ⊤) (r, s)
          → Post (λ a st. Holds st × F a) (λ _. Holds) (r, (s, out))
      keep F (ok a) s out e p = (e, p.1)
      keep F (fail x) s out e p = e

  any-Spec : {A : Type 0} (m : M S A) → Spec Holds (on_left m) (λ _. Holds) (λ _. Holds)
  any-Spec m =
      Spec-post _ _ (λ a st p. p.0) (λ x st p. p)
        (below-Spec (λ _. ⊤) (record { at = λ s _. trivial (m s) }))
    where
      trivial : {A : Type 0} (r : Outcome A × S) → Post (λ _ _. ⊤ × ⊤) (λ _ _. ⊤) r
      trivial (ok a, s) = (tt, tt)
      trivial (fail x, s) = tt

  length-Spec :
      Spec {S = S × List ℕ} Holds
        (on_right (λ out. (ok (length out), out)))
        (λ len st. Holds st × (len ≡ length c))
        (λ _. Holds)
  length-Spec = record { at = λ (s, out) e. (e, ap length e) }

  write-Spec :
      (k : ℕ) (digest : List ℕ)
      → length c ≡ k
      → length digest ≤ length c
      → Spec Holds
          (on_right (modify (λ out. copy_into out digest (length digest))))
          (λ _ st. length st.1 ≡ k)
          (λ _. Holds)
  write-Spec k digest e fits = record {
    at = λ (s, out) held.
        let l : length out ≡ length c = ap length held in
        omega (arith, e, l, length-copy_into out digest (omega (arith, fits, l)));
  }

module _ {S : Type 0} (interface : Option (InterfaceOps S)) (h : Host) (chip : TpmChipData)
    (pcr_read_res : TpmCmd) where
  -- For every interface and whatever the response buffer holds before the call: for a PCR index
  -- below 24 and an array of the caller's, `tpm_pcr_read_single` keeps the length of the array if
  -- it succeeds, and however it fails, the array is all zero behind it.
  pub tpm_pcr_read_single-clear :
      (index algorithm : ℕ) (s : S) (out : List ℕ)
      → index < 24
      → Post
          (λ _ st. length st.1 ≡ length out)
          (λ _ st. st.1 ≡ clear out)
          (tpm_pcr_read_single interface h chip pcr_read_res index algorithm true (s, out))
  unfolding tpm_pcr_read_single
  tpm_pcr_read_single-clear index algorithm s out lt =
      let c = clear out in
      (Spec-bind {P = λ st. st.1 ≡ out} _
          (Spec-raise_if (not (ltb index 24)) invalid_param λ st e bad. absurd (ground arith))
          λ _. Spec-bind _ (Spec-raise_if (not true) invalid_param λ st e bad. absurd cc) λ _.
            Spec-bind {A = ⊤} (λ _. Holds c) {m = on_right (modify clear)}
              (record { at = λ st e. ap clear e.0.0 })
              λ _. Spec-bind _ (any-Spec c (finished (read_builder h index algorithm))) λ cmd.
                Spec-bind _ (any-Spec c (tpm_xfer interface chip cmd pcr_read_res)) λ response.
                  Spec-bind (λ len st. Holds c st × (len ≡ length c)) (length-Spec c)
                    λ len. Spec-fact _ λ same.
                      Spec-bind _
                        (below-Spec c (λ d. length d ≤ len) (read_digest-Spec h response len))
                        λ digest. Spec-fact _ λ fits.
                          write-Spec c (length out) digest (length-replicate (length out) 0)
                            (omega (arith, fits, same))).at
        (s, out) refl
