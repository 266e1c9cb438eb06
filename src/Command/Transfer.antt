-- ===== src/Command/Transfer.antt =====
-- `tpm_xfer`, `tpm_interface_init` and `tpm_interface_close` of src/tpm2_cmds.c.
pub mod Laws
pub mod Init
use lib_tpm.Base.{⊤, ℕ, Bool, true, Option, none, some, if◌then◌else◌}
use lib_tpm.Base.Int.{ℤ}
use lib_tpm.Outcome.{Outcome, ok, fail, err, M, pure, deref, ◌>>=◌, ◌>>◌, invalid_param}
use lib_tpm.Platform.{Platform, Link, TimerSource, caller_timer, lib_timer}
use lib_tpm.Buffer.{TpmCmd}
use lib_tpm.Registers.{TpmChipData}
use lib_tpm.Interface.{InterfaceOps, tpm_interface_getops}

-- Returns the response buffer.
unfoldable pub tpm_xfer :
    {S : Type 0} → Option (InterfaceOps S) → TpmChipData → TpmCmd → TpmCmd → M S TpmCmd
tpm_xfer interface chip_data send receive = do
  ops ← deref interface
  ops.send chip_data send
  (_, response) ← ops.receive chip_data receive
  pure response

unfoldable pub tpm_interface_close :
    {S : Type 0} → Option (InterfaceOps S) → TpmChipData → ℕ → M S ⊤
tpm_interface_close interface chip_data locality = do
  ops ← deref interface
  ops.release_locality chip_data locality

module _ {D : Type 0} (p : Platform D) (polls : ℕ) where
  unfoldable pub tpm_get_last_transport_error : Link D → ℤ
  tpm_get_last_transport_error w = w.tpm_last_transport_error

  -- The choice of `tpm_timeout_ops`; `none` is the early return.
  unfoldable pub choose_timer : Bool → Option TimerSource
  choose_timer timeout_given =
      if timeout_given then some caller_timer else if p.has_lib_timer then some lib_timer else none

  -- The chip data keeps the new locality also when `get_info` fails.
  unfoldable pub acquire : TpmChipData → ℕ → Link D → Outcome ⊤ × TpmChipData × Link D
  acquire chip_data locality w =
      let ops = tpm_interface_getops p polls in
      let (r, w') = ops.request_access chip_data locality w in
      elim r [
        | fail x ↦ (fail x, chip_data, w')
        | ok chip_data' ↦
            let (r', w'') = ops.get_info chip_data' locality w' in (r', chip_data', w'')
      ]

  -- `transport` and `timeout_ops` are given or NULL.
  unfoldable pub tpm_interface_init :
      Bool → Bool → TpmChipData → ℕ → Link D → Outcome ⊤ × TpmChipData × Link D
  unfolding choose_timer acquire
  tpm_interface_init transport timeout_ops chip_data locality w = elim (choose_timer timeout_ops) [
    | none ↦ (fail (err invalid_param), chip_data, record w { tpm_spidev = transport })
    | some timer ↦
        acquire chip_data locality
          (record w { tpm_spidev = transport; tpm_timeout_ops = timer; interface = true })
  ]
