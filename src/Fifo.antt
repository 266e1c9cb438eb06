-- ===== src/Fifo.antt =====
-- src/tpm2_fifo.c: the FIFO register protocol, over any register bus. `polls` bounds the rounds of
-- each loop that a timeout ends. The log output is left out.
pub mod Wait
pub mod Locality
pub mod Send
pub mod Receive
use lib_tpm.Base.{
  ⊤, ℕ, zero, suc, ◌+◌, ◌*◌, ◌%◌, ◌^◌, bit_and, bit_or, Bool, true, false, not, ◌==◌, if◌then◌else◌,
}
use lib_tpm.Outcome.{M, pure, raise, stop_with, hang, ◌>>=◌, ◌>>◌, err_response, err_timeout}
use lib_tpm.Bus.{RegisterBus}
use lib_tpm.Registers.{
  TpmChipData, locality_start_address, tpm_fifo_reg_access, tpm_fifo_reg_status,
  tpm_fifo_reg_burst_count_lo, tpm_fifo_reg_burst_count_hi, tpm_fifo_reg_vendid, tpm_fifo_reg_revid,
  tpm_access_active_locality, tpm_access_valid, tpm_access_relinquish_locality,
  tpm_access_request_use, tpm_access_request_pending, tpm_stat_command_ready,
}

-- `tpm_base_addr + reg`, passed as a `uint16_t`.
abbrev pub reg_addr : ℕ → ℕ → ℕ
reg_addr tpm_base_addr reg = (tpm_base_addr + reg) % 2 ^ 16

-- `(status & set) == set`, and `status & set` as a condition.
abbrev pub bits_set : ℕ → ℕ → Bool
bits_set status set = bit_and status set == set

abbrev pub any_bit : ℕ → ℕ → Bool
any_bit status set = not (bit_and status set == 0)

abbrev pub base_of : TpmChipData → ℕ
base_of chip_data = locality_start_address chip_data.locality

module _ {S : Type 0} (bus : RegisterBus S) where
  -- The vendor, device and revision are only logged.
  unfoldable pub tpm2_get_info : TpmChipData → ℕ → M S ⊤
  tpm2_get_info chip_data locality = do
    let tpm_base_addr = locality_start_address locality
    bus.read_chunk (reg_addr tpm_base_addr tpm_fifo_reg_vendid) 4
    bus.read_byte (reg_addr tpm_base_addr tpm_fifo_reg_revid)
    pure tt

  -- The `do` loop: `timeout_delay` is the expiry that the timer gave.
  unfoldable pub wait_loop : ℕ → ℕ → ℕ → ℕ → M S ℕ
  wait_loop zero reg set timeout_delay = stop_with hang
  wait_loop (suc polls) reg set timeout_delay = do
    status ← bus.read_byte reg
    elim (bits_set status set) [
      | true ↦ pure status
      | false ↦ do
        elapsed ← bus.timeout_elapsed timeout_delay
        elim elapsed [ true ↦ raise err_timeout | false ↦ wait_loop polls reg set timeout_delay ]
    ]

  unfoldable pub burst_loop : ℕ → ℕ → ℕ → M S ℕ
  burst_loop zero tpm_base_addr timeout_delay = stop_with hang
  burst_loop (suc polls) tpm_base_addr timeout_delay = do
    byte0 ← bus.read_byte (reg_addr tpm_base_addr tpm_fifo_reg_burst_count_lo)
    byte1 ← bus.read_byte (reg_addr tpm_base_addr tpm_fifo_reg_burst_count_hi)
    let burstcount = (byte1 * 2 ^ 8 + byte0) % 2 ^ 16
    elim (burstcount == 0) [
      | false ↦ pure burstcount
      | true ↦ do
        elapsed ← bus.timeout_elapsed timeout_delay
        elim elapsed [
          | true ↦ raise err_timeout
          | false ↦ burst_loop polls tpm_base_addr timeout_delay
        ]
    ]

  unfoldable pub tpm2_fifo_release_locality : TpmChipData → ℕ → M S ⊤
  tpm2_fifo_release_locality chip_data locality = do
    let tpm_base_addr = locality_start_address locality
    let access_reg = reg_addr tpm_base_addr tpm_fifo_reg_access
    buf ← bus.read_byte access_reg
    let held = any_bit buf (bit_or tpm_access_request_pending tpm_access_valid)
    if held then bus.write_byte access_reg tpm_access_relinquish_locality else raise err_response

module _ {S : Type 0} (bus : RegisterBus S) (polls : ℕ) where
  -- Returns what the C code leaves in `*status`. The timeout is in milliseconds.
  unfoldable pub tpm2_wait_reg_bits : ℕ → ℕ → ℕ → M S ℕ
  tpm2_wait_reg_bits reg set timeout = do
    timeout_delay ← bus.timeout_init_us (timeout * 1000 % 2 ^ 32)
    wait_loop bus polls reg set timeout_delay

  -- Returns the chip data with the locality that was granted.
  unfoldable pub tpm2_fifo_request_access : TpmChipData → ℕ → M S TpmChipData
  tpm2_fifo_request_access chip_data locality = do
    let tpm_base_addr = locality_start_address locality
    bus.write_byte (reg_addr tpm_base_addr tpm_fifo_reg_access) tpm_access_request_use
    tpm2_wait_reg_bits (reg_addr tpm_base_addr tpm_fifo_reg_access) tpm_access_active_locality
        chip_data.timeouts.msec_a
    pure (record chip_data { locality = locality })

  unfoldable pub tpm2_fifo_prepare : TpmChipData → M S ⊤
  tpm2_fifo_prepare chip_data = do
    let reg = reg_addr (base_of chip_data) tpm_fifo_reg_status
    bus.write_byte reg tpm_stat_command_ready
    tpm2_wait_reg_bits reg tpm_stat_command_ready chip_data.timeouts.msec_b
    pure tt

  -- `burstcount` is never NULL at a call.
  unfoldable pub tpm2_fifo_get_burstcount : TpmChipData → M S ℕ
  tpm2_fifo_get_burstcount chip_data = do
    timeout_delay ← bus.timeout_init_us (chip_data.timeouts.msec_a * 1000 % 2 ^ 32)
    burst_loop bus polls (base_of chip_data) timeout_delay
