-- ===== src/Fifo/Receive.antt =====
-- `tpm2_fifo_read_data` and `tpm2_fifo_receive` of src/tpm2_fifo.c.
pub mod Bounds
pub mod Content
pub mod Data
pub mod Response
pub mod Overrun
pub mod Whole
use lib_tpm.Base.{
  ℕ, zero, suc, ◌+◌, ◌-◌, true, false, Option, none, some, List, ltb, ◌==◌, if◌then◌else◌,
}
use lib_tpm.Outcome.{
  M, pure, raise_if, stop_with, hang, store, ◌>>=◌, ◌>>◌, invalid_param, err_response,
}
use lib_tpm.Endian.{Host}
use lib_tpm.Bus.{RegisterBus}
use lib_tpm.Buffer.{TpmCmd, size_of}
use lib_tpm.Registers.{
  TpmChipData, tpm_header_size, max_size_cmdbuf, tpm_fifo_reg_status, tpm_fifo_reg_data_fifo,
  tpm_stat_avail,
}
use lib_tpm.Fifo.{reg_addr, base_of, tpm2_wait_reg_bits, tpm2_fifo_get_burstcount}

-- The variables that the two loops change: the array behind `read_data`, `loop_index`, `*size`.
pub record ReadState : Type 0 where
  pub read_data : List ℕ
  pub loop_index : ℕ
  pub size : ℕ

module _ {S : Type 0} (bus : RegisterBus S) where
  -- One round of the `for` loop.
  unfoldable pub read_one : ℕ → ReadState → M S ReadState
  read_one tpm_base_addr r = do
    byte ← bus.read_byte (reg_addr tpm_base_addr tpm_fifo_reg_data_fifo)
    read_data' ← store r.read_data r.loop_index byte
    pure (record { read_data = read_data'; loop_index = r.loop_index + 1; size = r.size + 1 })

  -- `for (; burstcnt > 0U && loop_index < read_size; burstcnt--, loop_index++, (*size)++)`
  unfoldable pub read_burst : ℕ → ℕ → ℕ → ReadState → M S ReadState
  read_burst zero tpm_base_addr read_size r = pure r
  read_burst (suc burstcnt) tpm_base_addr read_size r = elim (ltb r.loop_index read_size) [
    | false ↦ pure r
    | true ↦ do r' ← read_one tpm_base_addr r; read_burst burstcnt tpm_base_addr read_size r'
  ]

module _ {S : Type 0} (bus : RegisterBus S) (polls : ℕ) where
  -- `while (*size < read_size)`
  unfoldable pub read_loop : ℕ → TpmChipData → ℕ → ℕ → ReadState → M S ReadState
  read_loop zero chip_data tpm_base_addr read_size r =
      if ltb r.size read_size then stop_with hang else pure r
  read_loop (suc rounds) chip_data tpm_base_addr read_size r = elim (ltb r.size read_size) [
    | false ↦ pure r
    | true ↦ do
      burstcnt ← tpm2_fifo_get_burstcount bus polls chip_data
      r' ← read_burst bus burstcnt tpm_base_addr read_size r
      read_loop rounds chip_data tpm_base_addr read_size r'
  ]

  -- The part of `tpm2_fifo_read_data` behind the choice of the array: both calls of it wait for
  -- TPM_STAT_AVAIL first. `read_size` rounds are enough.
  unfoldable pub read_available : TpmChipData → ℕ → ℕ → ReadState → M S ReadState
  read_available chip_data tpm_base_addr read_size r = do
    tpm2_wait_reg_bits bus polls (reg_addr tpm_base_addr tpm_fifo_reg_status) tpm_stat_avail
        chip_data.timeouts.msec_c
    read_loop read_size chip_data tpm_base_addr read_size r

  -- `bytes_expected` is `none` for TPM_READ_HEADER. Returns the buffer and `*size`.
  unfoldable pub tpm2_fifo_read_data : TpmChipData → TpmCmd → ℕ → ℕ → Option ℕ → M S (TpmCmd × ℕ)
  tpm2_fifo_read_data chip_data buf tpm_base_addr size none = do
    r ←
        read_available chip_data tpm_base_addr tpm_header_size
          (record { read_data = buf.header; loop_index = size; size = size })
    pure (record buf { header = r.read_data }, r.size)
  tpm2_fifo_read_data chip_data buf tpm_base_addr size (some bytes_expected) = do
    r ←
        read_available chip_data tpm_base_addr bytes_expected
          (record { read_data = buf.data_bytes; loop_index = size - tpm_header_size; size = size })
    pure (record buf { data_bytes = r.read_data }, r.size)

  -- The part behind the header. The comparison with `sizeof (*buf)` is unsigned, so a size from
  -- 2^31 on, negative in `bytes_expected`, is refused too. Returns the status, which is the size
  -- of a bare header, and the buffer.
  unfoldable pub receive_rest : Host → TpmChipData → TpmCmd → ℕ → M S (ℕ × TpmCmd)
  receive_rest host chip_data buf size = do
    let bytes_expected = size_of host buf
    raise_if (ltb max_size_cmdbuf bytes_expected) invalid_param
    if size == bytes_expected then pure (size, buf) else do
      (buf', size') ←
          tpm2_fifo_read_data chip_data buf (base_of chip_data) size (some bytes_expected)
      raise_if (ltb size' bytes_expected) err_response
      pure (0, buf')

  unfoldable pub tpm2_fifo_receive : Host → TpmChipData → TpmCmd → M S (ℕ × TpmCmd)
  tpm2_fifo_receive host chip_data buf = do
    (buf', size) ← tpm2_fifo_read_data chip_data buf (base_of chip_data) 0 none
    receive_rest host chip_data buf' size
