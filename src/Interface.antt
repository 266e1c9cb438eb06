-- ===== src/Interface.antt =====
-- `interface_ops_t` (include/tpm2_private.h), through which the commands reach the TPM, and its
-- table in src/tpm2_fifo.c.
use lib_tpm.Base.{⊤, ℕ, Option, none, some, if◌then◌else◌}
use lib_tpm.Outcome.{M}
use lib_tpm.Platform.{Platform, Link}
use lib_tpm.Bus.{RegisterBus}
use lib_tpm.Buffer.{TpmCmd}
use lib_tpm.Endian.{Host}
use lib_tpm.Registers.{TpmChipData}
use lib_tpm.Spi.{spi_bus}
use lib_tpm.Fifo.{tpm2_get_info, tpm2_fifo_request_access, tpm2_fifo_release_locality}
use lib_tpm.Fifo.Send.{tpm2_fifo_send}
use lib_tpm.Fifo.Receive.{tpm2_fifo_receive}

-- `receive` gives a status of zero or more, and the buffer; `request_access` the chip data.
pub record InterfaceOps (S : Type 0) : Type 0 where
  pub get_info : TpmChipData → ℕ → M S ⊤
  pub send : TpmChipData → TpmCmd → M S ⊤
  pub receive : TpmChipData → TpmCmd → M S (ℕ × TpmCmd)
  pub request_access : TpmChipData → ℕ → M S TpmChipData
  pub release_locality : TpmChipData → ℕ → M S ⊤

unfoldable pub fifo_ops : {S : Type 0} → Host → RegisterBus S → ℕ → InterfaceOps S
fifo_ops host bus polls = record {
  get_info = tpm2_get_info bus;
  send = tpm2_fifo_send bus polls host;
  receive = tpm2_fifo_receive bus polls host;
  request_access = tpm2_fifo_request_access bus polls;
  release_locality = tpm2_fifo_release_locality bus;
}

-- The table does not depend on the chip data or the locality.
unfoldable pub tpm_interface_getops : {D : Type 0} → Platform D → ℕ → InterfaceOps (Link D)
unfolding fifo_ops
tpm_interface_getops p polls = fifo_ops p.host (spi_bus p) polls

-- The variable `interface` as a pointer.
unfoldable pub interface_of :
    {D : Type 0} → Platform D → ℕ → Link D → Option (InterfaceOps (Link D))
interface_of p polls w = if w.interface then some (tpm_interface_getops p polls) else none
