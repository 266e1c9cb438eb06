-- ===== src/Spi.antt =====
-- src/tpm2_fifo_spi.c: register reads and writes as SPI transactions.
pub mod Header
pub mod Laws
pub mod Safety
pub mod Obeys
use lib_tpm.Base.{
  ⊤, ℕ, zero, suc, ◌+◌, ◌/◌, ◌%◌, ◌^◌, bit_and, bit_or, Bool, true, false, not, ◌&&◌, Option, none,
  some, List, [], ◌∷◌, ltb, ◌==◌, if◌then◌else◌,
}
use lib_tpm.Base.Int.{ℤ, nonzero}
use lib_tpm.Outcome.{
  Outcome, ok, fail, err, fault, hang, M, pure, raise, raise_if, load, ◌>>=◌, ◌>>◌, invalid_param,
  err_transfer, err_timeout,
}
use lib_tpm.Platform.{Platform, Link}
use lib_tpm.Timer.{timeout_init_us, timeout_elapsed}
use lib_tpm.Bus.{RegisterBus}

abbrev pub encode_limit : ℕ
encode_limit = 64

abbrev pub tpm_spi_addr_prefix : ℕ
tpm_spi_addr_prefix = 0xd4

abbrev pub retry_count : ℕ
retry_count = 50

-- `tpm_access_t`
pub data TpmAccess : Type 0 where
  tpm_access_read tpm_access_write : TpmAccess

abbrev pub read_bit : TpmAccess → ℕ
read_bit tpm_access_write = 0x00
read_bit tpm_access_read = 0x80

-- The four bytes that open a transaction; `header[0]` keeps the low 8 bits of `len - 1`.
unfoldable pub spi_header : ℕ → TpmAccess → ℕ → List ℕ
spi_header tpm_reg access len =
    bit_or (read_bit access) ((len + 0xff) % 2 ^ 8)
    ∷ tpm_spi_addr_prefix
    ∷ tpm_reg / 2 ^ 8 % 2 ^ 8
    ∷ tpm_reg % 2 ^ 8
    ∷ []

-- The wait state is over when bit 0 is set.
abbrev pub wait_over : ℕ → Bool
wait_over byte = not (bit_and byte 0x01 == 0)

module _ {D : Type 0} (p : Platform D) where
  -- The bytes received come with the status of the transfer.
  unfoldable pub tpm2_spi_transfer : Option (List ℕ) → Bool → ℕ → M (Link D) (ℤ × List ℕ)
  tpm2_spi_transfer data_out wanted len w =
      if w.tpm_spidev
      then (let (r, din, d') = p.spi.xfer len data_out wanted w.dev in
          let w' : Link D = record w { dev = d' } in
          (ok (r, din), if nonzero r then record w' { tpm_last_transport_error = r } else w'))
      else (fail fault, w)

  -- A transfer whose failure makes the caller return TPM_ERR_TRANSFER.
  unfoldable pub transfer_or_fail : Option (List ℕ) → Bool → ℕ → M (Link D) (List ℕ)
  unfolding tpm2_spi_transfer
  transfer_or_fail data_out wanted len = do
    (r, din) ← tpm2_spi_transfer data_out wanted len
    if nonzero r then raise err_transfer else pure din

  -- The `for` loop over `retries`, and the timeout behind it.
  unfoldable pub poll_wait_state : ℕ → M (Link D) ⊤
  poll_wait_state zero = raise err_timeout
  poll_wait_state (suc retries) = do
    din ← transfer_or_fail (some (0 ∷ [])) true 1
    byte ← load din 0
    elim (wait_over byte) [ true ↦ pure tt | false ↦ poll_wait_state retries ]

  unfoldable pub tpm2_spi_start_transaction : ℕ → TpmAccess → ℕ → M (Link D) ⊤
  tpm2_spi_start_transaction tpm_reg access len = do
    raise_if (ltb encode_limit len) invalid_param
    header_response ← transfer_or_fail (some (spi_header tpm_reg access len)) true 4
    last ← load header_response 3
    if wait_over last then pure tt else poll_wait_state retry_count

  unfoldable pub tpm2_spi_end_transaction : Link D → Link D
  tpm2_spi_end_transaction w = record w { dev = p.spi.release_access (p.spi.stop w.dev) }

  unfoldable pub tpm2_spi_init : M (Link D) ⊤
  tpm2_spi_init w =
      if w.tpm_spidev
      then (let (rc, d') = p.spi.get_access w.dev in
          if nonzero rc
          then (fail (err err_transfer), record w { dev = d'; tpm_last_transport_error = rc })
          else (ok tt, record w { dev = p.spi.start d' }))
      else (fail fault, w)

  -- `tpm2_spi_end_transaction (); return rc;`, which closes every path after `tpm2_spi_init`.
  unfoldable pub end_and_return : {A : Type 0} → Outcome A × Link D → Outcome A × Link D
  unfolding tpm2_spi_end_transaction
  end_and_return (ok a, w) = (ok a, tpm2_spi_end_transaction w)
  end_and_return (fail (err e), w) = (fail (err e), tpm2_spi_end_transaction w)
  end_and_return (fail fault, w) = (fail fault, w)
  end_and_return (fail hang, w) = (fail hang, w)

  -- `val` is sent by a write; a read returns what was received.
  abbrev pub spi_payload : TpmAccess → List ℕ → ℕ → M (Link D) (List ℕ)
  spi_payload tpm_access_write val len = transfer_or_fail (some val) false len
  spi_payload tpm_access_read val len = transfer_or_fail none true len

  abbrev pub spi_exchange : ℕ → TpmAccess → ℕ → List ℕ → M (Link D) (List ℕ)
  spi_exchange tpm_reg access len val =
      tpm2_spi_start_transaction tpm_reg access len >> spi_payload access val len

  unfoldable pub tpm2_fifo_io : ℕ → TpmAccess → ℕ → List ℕ → M (Link D) (List ℕ)
  tpm2_fifo_io tpm_reg access len val =
      tpm2_spi_init >> λ w. end_and_return (spi_exchange tpm_reg access len val w)

  unfoldable pub tpm2_fifo_write_byte : ℕ → ℕ → M (Link D) ⊤
  tpm2_fifo_write_byte tpm_reg val = do
    tpm2_fifo_io tpm_reg tpm_access_write 1 (val ∷ []) >>= λ _. pure tt

  unfoldable pub tpm2_fifo_read_byte : ℕ → M (Link D) ℕ
  tpm2_fifo_read_byte tpm_reg = do din ← tpm2_fifo_io tpm_reg tpm_access_read 1 []; load din 0

  unfoldable pub tpm2_fifo_read_chunk : ℕ → ℕ → M (Link D) (List ℕ)
  tpm2_fifo_read_chunk tpm_reg len = do
    raise_if (not (len == 1) && not (len == 2) && not (len == 4)) invalid_param
    tpm2_fifo_io tpm_reg tpm_access_read len []

  -- The SPI transport as the register protocol uses it.
  unfoldable pub spi_bus : RegisterBus (Link D)
  spi_bus = record {
    write_byte = tpm2_fifo_write_byte;
    read_byte = tpm2_fifo_read_byte;
    read_chunk = tpm2_fifo_read_chunk;
    timeout_init_us = timeout_init_us p;
    timeout_elapsed = timeout_elapsed p;
  }
