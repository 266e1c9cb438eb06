-- ===== src/Fifo/Send/Rounds.antt =====
-- The loop of `tpm2_fifo_send` over the data, and its end, over a bus that logs its writes.
use lib_tpm.Base.{
  ⊤, refl, ℕ, zero, suc, ◌+◌, ◌≤◌, ◌<◌, ◌≡◌, subst, false, List, [], ◌∷◌, ◌++◌, length, take, ltb,
  ltb→lt, tests, arith,
}
use lib_tpm.Outcome.{Outcome, ok, fail, M, Failure, pure, err_transfer}
use lib_tpm.Outcome.Spec.{
  Post, Spec-also, Spec, Spec-bind, Spec-pure, Spec-pre, Spec-post, Spec-choice, Spec-if, Spec-fact,
  Spec-raise_if,
}
use lib_tpm.Bus.{RegisterBus}
use lib_tpm.Bus.Laws.{BusLaws, Safe}
use lib_tpm.Bus.Log.{Log, LogIs, logged, logged-ReadLaws, logged-write}
use lib_tpm.Registers.{
  TpmChipData, tpm_header_size, tpm_fifo_reg_status, tpm_stat_go, tpm_stat_expect,
}
use lib_tpm.Fifo.{reg_addr, any_bit, base_of}
use lib_tpm.Fifo.Locality.{ShownAs, wait-Shown}
use lib_tpm.Fifo.Wait.{tpm2_wait_reg_bits-Spec, tpm2_fifo_get_burstcount-Spec}
use lib_tpm.Fifo.Send.{send_data, send_go}
use lib_tpm.Fifo.Send.Stream.{fifo_writes, SentIs, CutShort, cut_at, send_burst-sends}

at_end : (i len : ℕ) → i ≤ len → ltb i len ≡ false → i ≡ len
at_end i len hi done = omega (tests, done)

-- The last read of the status register before TPM_STAT_GO showed bit 7 (valid) and not bit 3 (more
-- data is expected).
abbrev pub Complete : {S : Type 0} → RegisterBus S → ℕ → S × Log → Type 0
Complete {S = S} bus base st' =
    (st : S × Log) × ((status : ℕ) × (ShownAs (logged bus) (reg_addr base tpm_fifo_reg_status) 0x80
          status st
        × ((any_bit status 0x08 ≡ false)
            × ((logged bus).write_byte (reg_addr base tpm_fifo_reg_status) 0x20 st
                ≡ (ok tt, st')))))

module _ {S : Type 0} {bus : RegisterBus S} {polls : ℕ} (laws : BusLaws bus polls)
    (chip : TpmChipData) (start : Log) (stream header_data data_bytes : List ℕ) (len : ℕ)
    (e : stream ≡ header_data ++ data_bytes) (hl : length header_data ≡ tpm_header_size)
    (room : len ≤ length stream) where
  -- The state after `i` bytes, and the failures.
  abbrev Sent : ℕ → S × Log → Type 0
  Sent = SentIs laws (base_of chip) start stream len

  abbrev Cut : Failure → S × Log → Type 0
  Cut = CutShort laws (base_of chip) start stream len

  finished-Spec :
      (i : ℕ) → i ≤ len → ltb i len ≡ false → Spec (Sent i) (pure tt) (λ _. Sent len) Cut
  finished-Spec i hi done = Spec-pure tt λ st h. subst (λ k. Sent k st) (at_end i len hi done) h

  -- An action that writes nothing.
  no_write :
      {A : Type 0} (i : ℕ) (Q : A → S × Log → Type 0) (m : M (S × Log) A)
      → i ≤ len
      → Spec (Sent i) m Q (Safe (Sent i))
      → Spec (Sent i) m Q Cut
  no_write i Q m le k =
      Spec-post _ _ (λ _ st h. h) (cut_at laws (base_of chip) start stream len i le) k

  -- Every round moves on, so `len` rounds reach the end.
  pub send_data-sends :
      (rounds i : ℕ)
      → tpm_header_size ≤ i
      → i ≤ len
      → len ≤ i + rounds
      → Spec
          (Sent i)
          (send_data (logged bus) polls rounds chip i len data_bytes)
          (λ _. Sent len)
          Cut
  unfolding send_data logged-ReadLaws
  send_data-sends zero i lo hi enough =
      Spec-if (ltb i len) _ _ (λ more. absurd (omega (tests, more))) (finished-Spec i hi)
  send_data-sends (suc rounds) i lo hi enough =
      Spec-choice (ltb i len) _ _
        (λ more.
          Spec-bind _
            (no_write i _ _ hi (
              tpm2_fifo_get_burstcount-Spec (logged bus) polls (logged-ReadLaws laws.reads _) chip))
            λ burstcnt. Spec-fact _ λ pos.
              Spec-bind _
                (send_burst-sends laws (base_of chip) start stream len burstcnt i len header_data
                  data_bytes e hl lo hi (omega arith) room)
                λ i'.
                  Spec-pre (λ st. Sent i' st × ((i' ≤ len) × (i < i')))
                    (λ st h. (h.0, (h.2, h.3 pos (ltb→lt _ _ more))))
                    (Spec-fact _ λ f. send_data-sends rounds i' (omega arith) f.0 (omega arith)))
        (finished-Spec i hi)

  -- The log behind TPM_STAT_GO.
  abbrev GoWritten : S × Log → Type 0
  GoWritten = LogIs laws.I (
      (start ++ fifo_writes (base_of chip) (take len stream))
      ++ (reg_addr (base_of chip) tpm_fifo_reg_status, tpm_stat_go) ∷ [])

  wrote_go :
      (status : ℕ) (st : S × Log) (w : Outcome ⊤ × (S × Log))
      → (logged bus).write_byte (reg_addr (base_of chip) tpm_fifo_reg_status) 0x20 st ≡ w
      → ShownAs (logged bus) (reg_addr (base_of chip) tpm_fifo_reg_status) 0x80 status st
      → any_bit status 0x08 ≡ false
      → Post (λ _. GoWritten) Cut w
      → Post (λ _ st'. GoWritten st' × Complete bus (base_of chip) st') Cut w
  wrote_go status st (ok a, st') e shown complete h = (h, (st, (status, (shown, (complete, e)))))
  wrote_go status st (fail x, st') e shown complete h = h

  -- TPM_STAT_GO comes last.
  pub send_go-sends :
      Spec
        (Sent len)
        (send_go (logged bus) polls chip)
        (λ _ st. GoWritten st × Complete bus (base_of chip) st)
        Cut
  unfolding send_go logged-ReadLaws
  send_go-sends =
      let reg = reg_addr (base_of chip) tpm_fifo_reg_status in
      Spec-bind _
        (Spec-also
          (no_write len _ _ (omega arith)
            (tpm2_wait_reg_bits-Spec (logged bus) polls (logged-ReadLaws laws.reads _) _ _ _))
          (wait-Shown (logged bus) reg 0x80 chip.timeouts.msec_c polls))
        λ status.
          Spec-bind _
            (Spec-raise_if (any_bit status tpm_stat_expect) err_transfer
              λ st h _. (h.0.0.0, (len, omega arith, h.0.0.1)))
            λ _. record {
              at = λ st (((sent, _), shown), complete). wrote_go status st _ refl shown complete (
                  (no_write len _ _ (omega arith) (logged-write laws _ reg tpm_stat_go)).at st
                    sent);
            }
