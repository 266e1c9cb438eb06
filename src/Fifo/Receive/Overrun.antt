-- ===== src/Fifo/Receive/Overrun.antt =====
-- `tpm2_fifo_read_data` when the response is longer than the data array: the inner loop counts
-- `loop_index` against the size of the whole response, header included.
use lib_tpm.Base.{
  ⊤, ℕ, zero, suc, ◌+◌, ◌*◌, ◌%◌, ◌^◌, ◌≤◌, ◌<◌, ◌≡◌, refl, sym, subst, true, some, List, length,
  set?-some, set?-none, ltb, ltb→lt, lt→ltb, tests, arith, ◌==◌, Bool-cases, inl, inr, [],
}
use lib_tpm.Outcome.{M, fail, fault, pure}
use lib_tpm.Outcome.Spec.{Spec, Post, Spec-bind, Spec-pure, Spec-pre, Spec-choice, Spec-fact}
use lib_tpm.Buffer.{TpmCmd}
use lib_tpm.Bus.{RegisterBus}
use lib_tpm.Registers.{
  TpmChipData, tpm_header_size, max_cmd_data, tpm_fifo_reg_status, tpm_fifo_reg_burst_count_lo,
  tpm_fifo_reg_burst_count_hi, tpm_stat_avail, tpm_fifo_reg_data_fifo,
}
use lib_tpm.Fifo.{
  reg_addr, base_of, bits_set, wait_loop, burst_loop, tpm2_wait_reg_bits, tpm2_fifo_get_burstcount,
}
use lib_tpm.Fifo.Receive.{
  ReadState, read_one, read_burst, read_loop, read_available, tpm2_fifo_read_data,
}

-- A TPM whose registers keep their values.
abbrev pub steady : (ℕ → ℕ) → RegisterBus ⊤
steady regs = record {
  write_byte = λ reg val. pure tt;
  read_byte = λ reg. pure (regs reg);
  read_chunk = λ reg len. pure [];
  timeout_init_us = λ usec. pure 0;
  timeout_elapsed = λ cnt. pure true;
}

-- The burst count that it shows.
abbrev pub burst_of : (ℕ → ℕ) → ℕ → ℕ
burst_of regs base =
    (regs (reg_addr base tpm_fifo_reg_burst_count_hi) * 2 ^ 8
      + regs (reg_addr base tpm_fifo_reg_burst_count_lo))
    % 2 ^ 16

module _ (regs : ℕ → ℕ) where
  -- Enough bytes in one burst run over the end of the array.
  read_burst-faults :
      (burstcnt base read_size : ℕ) (r : ReadState)
      → r.loop_index ≤ length r.read_data
      → length r.read_data < read_size
      → length r.read_data < r.loop_index + burstcnt
      → read_burst (steady regs) burstcnt base read_size r tt ≡ (fail fault, tt)
  unfolding read_burst read_one
  read_burst-faults zero base read_size r le long many = absurd (omega arith)
  read_burst-faults (suc burstcnt) base read_size r le long many =
      let more : ltb r.loop_index read_size ≡ true = lt→ltb _ _ (omega arith) in
      let byte = regs (reg_addr base tpm_fifo_reg_data_fifo) in
      elim (Bool-cases (ltb r.loop_index (length r.read_data))) [
        | inl inside ↦
            let (ys, e, l) = set?-some r.read_data r.loop_index byte (ltb→lt _ _ inside) in
            rw (read_burst, more, e)
              (read_burst-faults burstcnt base read_size
                (record { read_data = ys; loop_index = r.loop_index + 1; size = r.size + 1 })
                (omega (tests, inside)) (omega arith) (omega arith))
        | inr outside ↦
            rw (read_burst, more, set?-none r.read_data r.loop_index byte (omega (tests, outside)))
              refl
      ]

  abbrev Faults : {A : Type 0} → M ⊤ A → Type 0
  Faults m = Spec (λ _. ⊤) m (λ _ _. ⊥) (λ x _. x ≡ fault)

  -- An action that succeeds with a value.
  abbrev Gives : {A : Type 0} → M ⊤ A → A → Type 0
  Gives m a = Spec (λ _. ⊤) m (λ a' _. ⊤ × (a' ≡ a)) (λ x _. x ≡ fault)

  wait_loop-steady :
      (polls reg set cnt : ℕ)
      → bits_set (regs reg) set ≡ true
      → Gives (wait_loop (steady regs) (suc polls) reg set cnt) (regs reg)
  unfolding wait_loop
  wait_loop-steady polls reg set cnt e =
      Spec-choice (bits_set (regs reg) set) _ _ (λ _. Spec-pure (regs reg) λ s _. (tt, refl))
        λ clear. absurd cc

  wait-steady :
      (polls reg set timeout : ℕ)
      → bits_set (regs reg) set ≡ true
      → Gives (tpm2_wait_reg_bits (steady regs) (suc polls) reg set timeout) (regs reg)
  unfolding tpm2_wait_reg_bits
  wait-steady polls reg set timeout e = record { at = (wait_loop-steady polls reg set 0 e).at }

  burst_loop-steady :
      (polls base cnt : ℕ)
      → 0 < burst_of regs base
      → Gives (burst_loop (steady regs) (suc polls) base cnt) (burst_of regs base)
  unfolding burst_loop
  burst_loop-steady polls base cnt pos =
      Spec-choice (burst_of regs base == 0) _ _ (λ zero_left. absurd (ground arith))
        λ _. Spec-pure (burst_of regs base) λ s _. (tt, refl)

  burstcount-steady :
      (polls : ℕ) (chip : TpmChipData)
      → 0 < burst_of regs (base_of chip)
      → Gives
          (tpm2_fifo_get_burstcount (steady regs) (suc polls) chip)
          (burst_of regs (base_of chip))
  unfolding tpm2_fifo_get_burstcount
  burstcount-steady polls chip pos = record {
    at = (burst_loop-steady polls (base_of chip) 0 pos).at;
  }

  burst-Faults :
      (burstcnt base read_size : ℕ) (bytes : List ℕ)
      → length bytes < read_size
      → length bytes < burstcnt
      → Faults (
          read_burst
            (steady regs)
            burstcnt
            base
            read_size
            (record { read_data = bytes; loop_index = 0; size = tpm_header_size }))
  burst-Faults burstcnt base read_size bytes long many = record {
    at = λ s _.
        subst (Post (λ _ _. ⊥) (λ x _. x ≡ fault))
          (sym (read_burst-faults burstcnt base read_size _ (omega arith) long (omega arith))) refl;
  }

  -- Over a TPM whose registers keep their values and whose accesses never fail: if it shows a
  -- response available and a burst count of more than 246, the read of the data of a response of
  -- more than 246 bytes writes behind the end of the data array, and does not return.
  pub tpm2_fifo_read_data-overruns :
      (polls : ℕ) (chip : TpmChipData) (buf : TpmCmd) (n : ℕ)
      → bits_set (regs (reg_addr (base_of chip) tpm_fifo_reg_status)) tpm_stat_avail ≡ true
      → max_cmd_data < burst_of regs (base_of chip)
      → length buf.data_bytes ≡ max_cmd_data
      → max_cmd_data < n
      → Post
          (λ _ _. ⊥)
          (λ x _. x ≡ fault)
          (tpm2_fifo_read_data
            (steady regs)
            (suc polls)
            chip
            buf
            (base_of chip)
            tpm_header_size
            (some n)
            tt)
  unfolding tpm2_fifo_read_data read_available read_loop
  tpm2_fifo_read_data-overruns polls chip buf (suc n) avail many full long =
      (Spec-bind (λ _ _. ⊥)
          (Spec-bind _ (wait-steady polls _ tpm_stat_avail chip.timeouts.msec_c avail) λ status.
            Spec-pre (λ _. ⊤) (λ s _. tt)
              (Spec-choice (ltb tpm_header_size (suc n)) _ _
                (λ _. Spec-bind _ (burstcount-steady polls chip (omega arith)) λ burstcnt.
                  Spec-fact _ λ same.
                    Spec-bind (λ _ _. ⊥)
                      (burst-Faults burstcnt (base_of chip) (suc n) buf.data_bytes (omega arith)
                        (omega arith))
                      λ r. record { at = λ s. absurd })
                λ done. absurd (omega (tests, done))))
          λ r. record { at = λ s. absurd }).at
        tt tt
  tpm2_fifo_read_data-overruns polls chip buf zero avail many full long = absurd (omega arith)
