-- ===== src/Fifo/Send.antt =====
-- `tpm2_fifo_send` of src/tpm2_fifo.c.
pub mod Stream
pub mod Rounds
pub mod Total
use lib_tpm.Base.{⊤, ℕ, zero, suc, ◌+◌, ◌-◌, true, false, List, ltb, if◌then◌else◌}
use lib_tpm.Outcome.{
  M, pure, raise_if, stop_with, hang, load, ◌>>=◌, ◌>>◌, invalid_param, err_transfer,
}
use lib_tpm.Endian.{Host}
use lib_tpm.Bus.{RegisterBus}
use lib_tpm.Buffer.{TpmCmd, size_of}
use lib_tpm.Registers.{
  TpmChipData, tpm_header_size, tpm_fifo_reg_status, tpm_fifo_reg_data_fifo, tpm_stat_command_ready,
  tpm_stat_valid, tpm_stat_expect, tpm_stat_go,
}
use lib_tpm.Fifo.{
  reg_addr, any_bit, base_of, tpm2_wait_reg_bits, tpm2_fifo_prepare, tpm2_fifo_get_burstcount,
}

module _ {S : Type 0} (bus : RegisterBus S) where
  -- `for (; index < TPM_HEADER_SIZE; index++)`, with the number of rounds left.
  unfoldable pub send_header : ℕ → ℕ → ℕ → List ℕ → M S ⊤
  send_header zero tpm_base_addr index header_data = pure tt
  send_header (suc left) tpm_base_addr index header_data = do
    byte ← load header_data index
    bus.write_byte (reg_addr tpm_base_addr tpm_fifo_reg_data_fifo) byte
    send_header left tpm_base_addr (index + 1) header_data

  -- `for (; burstcnt > 0U && index < len; burstcnt--)`; returns `index`.
  unfoldable pub send_burst : ℕ → ℕ → ℕ → ℕ → List ℕ → M S ℕ
  send_burst zero tpm_base_addr index len data_bytes = pure index
  send_burst (suc burstcnt) tpm_base_addr index len data_bytes = elim (ltb index len) [
    | false ↦ pure index
    | true ↦ do
      byte ← load data_bytes (index - tpm_header_size)
      bus.write_byte (reg_addr tpm_base_addr tpm_fifo_reg_data_fifo) byte
      send_burst burstcnt tpm_base_addr (index + 1) len data_bytes
  ]

module _ {S : Type 0} (bus : RegisterBus S) (polls : ℕ) where
  -- `while (index < len)`: each round sends a byte or fails, so `len` rounds are enough.
  unfoldable pub send_data : ℕ → TpmChipData → ℕ → ℕ → List ℕ → M S ⊤
  send_data zero chip_data index len data_bytes = if ltb index len then stop_with hang else pure tt
  send_data (suc rounds) chip_data index len data_bytes = elim (ltb index len) [
    | false ↦ pure tt
    | true ↦ do
      burstcnt ← tpm2_fifo_get_burstcount bus polls chip_data
      index' ← send_burst bus burstcnt (base_of chip_data) index len data_bytes
      send_data rounds chip_data index' len data_bytes
  ]

  -- `if (!(status & TPM_STAT_COMMAND_READY))`
  unfoldable pub prepare_unless_ready : TpmChipData → ℕ → M S ⊤
  prepare_unless_ready chip_data status =
      if any_bit status tpm_stat_command_ready
      then pure tt
      else tpm2_fifo_prepare bus polls chip_data

  -- Behind the last byte: the command is complete, and TPM_STAT_GO starts it.
  unfoldable pub send_go : TpmChipData → M S ⊤
  send_go chip_data = do
    let status_reg = reg_addr (base_of chip_data) tpm_fifo_reg_status
    status ← tpm2_wait_reg_bits bus polls status_reg tpm_stat_valid chip_data.timeouts.msec_c
    raise_if (any_bit status tpm_stat_expect) err_transfer
    bus.write_byte status_reg tpm_stat_go

  -- The header's size is ten bytes by a static assertion, so the first test of the C code passes.
  unfoldable pub tpm2_fifo_send : Host → TpmChipData → TpmCmd → M S ⊤
  tpm2_fifo_send host chip_data buf = do
    let tpm_base_addr = base_of chip_data
    status ← bus.read_byte (reg_addr tpm_base_addr tpm_fifo_reg_status)
    prepare_unless_ready chip_data status
    send_header bus tpm_header_size tpm_base_addr 0 buf.header
    let len = size_of host buf
    raise_if (ltb len tpm_header_size) invalid_param
    send_data len chip_data tpm_header_size len buf.data_bytes
    send_go chip_data
