-- ===== src/Fifo/Wait.antt =====
-- The timed loops of src/tpm2_fifo.c, over any bus that obeys the laws for reads and timers.
use lib_tpm.Base.{ℕ, zero, suc, ◌+◌, ◌*◌, ◌%◌, ◌^◌, ◌≤◌, ◌<◌, ◌≡◌, true, arith, ◌==◌}
use lib_tpm.Outcome.{err_timeout}
use lib_tpm.Outcome.Spec.{Post, Spec, Spec-bind, Spec-pure, Spec-raise, Spec-pre, Spec-choice}
use lib_tpm.Bus.{RegisterBus}
use lib_tpm.Bus.Laws.{ReadLaws, PollLaws, poll_laws, Safe}
use lib_tpm.Registers.{TpmChipData, tpm_fifo_reg_burst_count_lo, tpm_fifo_reg_burst_count_hi}
use lib_tpm.Fifo.{
  reg_addr, base_of, wait_loop, burst_loop, bits_set, tpm2_wait_reg_bits, tpm2_fifo_get_burstcount,
}

module _ {S : Type 0} (bus : RegisterBus S) (polls : ℕ) {Polled : ℕ → Type 0}
    (laws : PollLaws bus polls Polled) where
  open laws use {I, ticks, read_byte_safe, timeout_init_safe, timeout_elapsed_safe}

  -- With fewer ticks left than rounds, the loop ends, and on success the bits are set.
  wait_loop-ends :
      (rounds reg set cnt : ℕ)
      → Polled reg
      → Spec
          (λ s. I s × (ticks cnt s < rounds))
          (wait_loop bus rounds reg set cnt)
          (λ status s. I s × (bits_set status set ≡ true))
          (Safe I)
  unfolding wait_loop
  wait_loop-ends zero reg set cnt polled = record { at = λ s h. absurd (omega arith) }
  wait_loop-ends (suc rounds) reg set cnt polled =
      Spec-pre (λ s. I s × (ticks cnt s ≤ rounds)) (λ s h. (h.0, omega arith))
        (Spec-bind _ (read_byte_safe reg cnt rounds polled) λ status.
          Spec-choice (bits_set status set) _ _ (λ e. Spec-pure status λ s h. (h.0, e))
            λ _. Spec-bind _ (timeout_elapsed_safe cnt rounds) λ elapsed.
              Spec-choice elapsed _ _ (λ _. Spec-raise err_timeout λ s h. h.0)
                λ more.
                  Spec-pre _ (λ s h. (h.0, h.1 more)) (wait_loop-ends rounds reg set cnt polled))

  burst_loop-ends :
      (rounds base cnt : ℕ)
      → Polled (reg_addr base tpm_fifo_reg_burst_count_lo)
      → Polled (reg_addr base tpm_fifo_reg_burst_count_hi)
      → Spec
          (λ s. I s × (ticks cnt s < rounds))
          (burst_loop bus rounds base cnt)
          (λ burstcount s. I s × (0 < burstcount))
          (Safe I)
  unfolding burst_loop
  burst_loop-ends zero base cnt lo hi = record { at = λ s h. absurd (omega arith) }
  burst_loop-ends (suc rounds) base cnt lo hi =
      Spec-pre (λ s. I s × (ticks cnt s ≤ rounds)) (λ s h. (h.0, omega arith))
        (Spec-bind _ (read_byte_safe _ cnt rounds lo) λ byte0.
          Spec-bind _ (read_byte_safe _ cnt rounds hi) λ byte1.
            Spec-choice (((byte1 * 2 ^ 8 + byte0) % 2 ^ 16) == 0) _ _
              (λ _. Spec-bind _ (timeout_elapsed_safe cnt rounds) λ elapsed.
                Spec-choice elapsed _ _ (λ _. Spec-raise err_timeout λ s h. h.0)
                  λ more.
                    Spec-pre _ (λ s h. (h.0, h.1 more)) (burst_loop-ends rounds base cnt lo hi))
              λ e. Spec-pure _ λ s h. (h.0, ground arith))

  pub wait-polls :
      (reg set timeout : ℕ)
      → Polled reg
      → Spec I
          (tpm2_wait_reg_bits bus polls reg set timeout)
          (λ status s. I s × (bits_set status set ≡ true))
          (Safe I)
  unfolding tpm2_wait_reg_bits
  wait-polls reg set timeout polled =
      Spec-bind _ (timeout_init_safe _) λ cnt. wait_loop-ends polls reg set cnt polled

  pub burstcount-polls :
      (chip : TpmChipData)
      → Polled (reg_addr (base_of chip) tpm_fifo_reg_burst_count_lo)
      → Polled (reg_addr (base_of chip) tpm_fifo_reg_burst_count_hi)
      → Spec I
          (tpm2_fifo_get_burstcount bus polls chip)
          (λ burstcount s. I s × (0 < burstcount))
          (Safe I)
  unfolding tpm2_fifo_get_burstcount
  burstcount-polls chip lo hi =
      Spec-bind _ (timeout_init_safe _) λ cnt. burst_loop-ends polls _ cnt lo hi

module _ {S : Type 0} (bus : RegisterBus S) (polls : ℕ) (laws : ReadLaws bus polls) where
  open laws use {I}

  pub tpm2_wait_reg_bits-Spec :
      (reg set timeout : ℕ)
      → Spec I
          (tpm2_wait_reg_bits bus polls reg set timeout)
          (λ status s. I s × (bits_set status set ≡ true))
          (Safe I)
  tpm2_wait_reg_bits-Spec reg set timeout = wait-polls bus polls (poll_laws laws) reg set timeout tt

  pub tpm2_fifo_get_burstcount-Spec :
      (chip : TpmChipData)
      → Spec I
          (tpm2_fifo_get_burstcount bus polls chip)
          (λ burstcount s. I s × (0 < burstcount))
          (Safe I)
  tpm2_fifo_get_burstcount-Spec chip = burstcount-polls bus polls (poll_laws laws) chip tt tt

  -- Over any bus that obeys the laws for reads and timers, whatever the registers hold,
  -- `tpm2_wait_reg_bits` ends with no undefined behaviour and keeps the bus's invariant. If it
  -- succeeds, the status it returns has every bit of `set`.
  pub tpm2_wait_reg_bits-ends :
      (reg set timeout : ℕ) (s : S)
      → I s
      → Post
          (λ status s'. I s' × (bits_set status set ≡ true))
          (Safe I)
          (tpm2_wait_reg_bits bus polls reg set timeout s)
  tpm2_wait_reg_bits-ends reg set timeout s i = (tpm2_wait_reg_bits-Spec reg set timeout).at s i

  -- Over any bus that obeys the laws for reads and timers, whatever the registers hold,
  -- `tpm2_fifo_get_burstcount` ends with no undefined behaviour and keeps the bus's invariant.
  -- If it succeeds, the burst count is not zero.
  pub tpm2_fifo_get_burstcount-ends :
      (chip : TpmChipData) (s : S)
      → I s
      → Post
          (λ burstcount s'. I s' × (0 < burstcount))
          (Safe I)
          (tpm2_fifo_get_burstcount bus polls chip s)
  tpm2_fifo_get_burstcount-ends chip s i = (tpm2_fifo_get_burstcount-Spec chip).at s i
