-- ===== src/Fifo/Locality.antt =====
-- `tpm2_fifo_request_access` and `tpm2_get_info` of src/tpm2_fifo.c, over any bus that obeys the
-- laws.
pub mod Written
use lib_tpm.Base.{
  ⊤, ℕ, zero, suc, ◌≡◌, refl, ◌∙◌, ap, ◌⊎◌, inl, inr, Bool, true, false, List, [], ◌∷◌, ◌++◌,
  if◌then◌else◌, ◌*◌, ◌%◌, ◌^◌,
}
use lib_tpm.Outcome.{
  M, Outcome, ok, fail, Failure, err, fault, hang, pure, raise, continue, err_response, err_timeout,
}
use lib_tpm.Outcome.Spec.{
  Spec, Post, Spec-bind, Spec-pure, Spec-raise, Spec-stop_with, Spec-post, Spec-choice, Spec-also,
  Post-any,
}
use lib_tpm.Bus.{RegisterBus}
use lib_tpm.Bus.Laws.{BusLaws, Safe, read_byte_keeps}
use lib_tpm.Bus.Log.{Log, LogIs, logged, logged-ReadLaws, logged-write, log_write}
use lib_tpm.Registers.{
  TpmChipData, locality_start_address, tpm_fifo_reg_access, tpm_access_active_locality,
  tpm_access_request_use,
}
use lib_tpm.Fifo.{
  reg_addr, bits_set, any_bit, wait_loop, tpm2_wait_reg_bits, tpm2_get_info,
  tpm2_fifo_request_access, tpm2_fifo_release_locality,
}
use lib_tpm.Fifo.Wait.{tpm2_wait_reg_bits-Spec}

abbrev pub access_reg : ℕ → ℕ
access_reg locality = reg_addr (locality_start_address locality) tpm_fifo_reg_access

module _ {S : Type 0} (bus : RegisterBus S) where
  -- The state behind a read of a register that shows the bits of `set`.
  abbrev pub Shown : ℕ → ℕ → S → Type 0
  Shown reg set s' =
      (s : S) × ((status : ℕ) × ((bus.read_byte reg s ≡ (ok status, s'))
          × (bits_set status set ≡ true)))

  -- The same, with the value that was read.
  abbrev pub ShownAs : ℕ → ℕ → ℕ → S → Type 0
  ShownAs reg set status s' =
      (s : S) × ((bus.read_byte reg s ≡ (ok status, s')) × (bits_set status set ≡ true))

  read_from :
      {A : Type 0} (m : M S A) (s : S) (r : Outcome A × S)
      → m s ≡ r
      → Post (λ a s'. (s0 : S) × (m s0 ≡ (ok a, s'))) (λ _ _. ⊤) r
  read_from m s (ok a, s') e = (s, e)
  read_from m s (fail x, s') e = tt

  wait_loop-Shown :
      (rounds reg set cnt : ℕ)
      → Spec
          (λ _. ⊤)
          (wait_loop bus rounds reg set cnt)
          (λ status s'. ShownAs reg set status s')
          (λ _ _. ⊤)
  unfolding wait_loop
  wait_loop-Shown zero reg set cnt = record { at = λ s h. tt }
  wait_loop-Shown (suc rounds) reg set cnt =
      Spec-bind (λ status s'. (s0 : S) × (bus.read_byte reg s0 ≡ (ok status, s')))
        (record { at = λ s _. read_from (bus.read_byte reg) s _ refl })
        λ status.
          Spec-choice (bits_set status set) _ _
            (λ e. Spec-pure status λ s' (s0, got). (s0, (got, e)))
            λ _.
              Spec-bind (λ _ _. ⊤) (record { at = λ s _. Post-any (bus.timeout_elapsed cnt s) })
                λ elapsed.
                  Spec-choice elapsed _ _ (λ _. Spec-raise err_timeout λ s _. tt)
                    λ _. wait_loop-Shown rounds reg set cnt

  pub wait-Shown :
      (reg set timeout polls : ℕ)
      → Spec
          (λ _. ⊤)
          (tpm2_wait_reg_bits bus polls reg set timeout)
          (λ status s'. ShownAs reg set status s')
          (λ _ _. ⊤)
  unfolding tpm2_wait_reg_bits
  wait-Shown reg set timeout polls =
      Spec-bind (λ _ _. ⊤)
        (record { at = λ s _. Post-any (bus.timeout_init_us (timeout * 1000 % 2 ^ 32) s) })
        λ cnt. wait_loop-Shown polls reg set cnt

module _ {S : Type 0} {bus : RegisterBus S} {polls : ℕ} (laws : BusLaws bus polls)
    (chip : TpmChipData) (locality : ℕ) where
  pub request_access-Spec :
      Spec laws.I
        (tpm2_fifo_request_access bus polls chip locality)
        (λ chip' s.
          laws.I s
          × ((chip' ≡ record chip { locality = locality })
              × Shown bus (access_reg locality) tpm_access_active_locality s))
        (Safe laws.I)
  unfolding tpm2_fifo_request_access
  request_access-Spec = Spec-bind _ (laws.write_byte_safe _ _) λ _.
      Spec-bind _
        (Spec-also (tpm2_wait_reg_bits-Spec bus polls laws.reads _ _ _)
          (wait-Shown bus _ tpm_access_active_locality _ polls))
        λ status. Spec-pure _ λ s h. (h.0.0, (refl, (h.1.0, (status, h.1.1))))

  pub get_info-Spec :
      (chip' : TpmChipData)
      → Spec laws.I (tpm2_get_info bus chip' locality) (λ _. laws.I) (Safe laws.I)
  unfolding tpm2_get_info
  get_info-Spec chip' =
      Spec-bind _ (laws.reads.read_chunk_safe _ _)
        λ vendid. Spec-bind _ (read_byte_keeps laws.reads _) λ revid. Spec-pure tt λ s h. h
