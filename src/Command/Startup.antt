-- ===== src/Command/Startup.antt =====
-- `tpm_startup` of src/tpm2_cmds.c.
use lib_tpm.Base.{⊤, ℕ, Option, [], ◌∷◌, ◌==◌, if◌then◌else◌}
use lib_tpm.Outcome.{M, pure, raise, ◌>>=◌, err_response, err_already_init}
use lib_tpm.Endian.{Host}
use lib_tpm.Buffer.{zeroed, code_of}
use lib_tpm.Registers.{
  TpmChipData, tpm_st_no_sessions, tpm_cmd_startup, tpm_rc_initialize, tpm_response_success,
}
use lib_tpm.Interface.{InterfaceOps}
use lib_tpm.Command.Builder.{TpmCmdBuilder, tpm_cmd_init, update_all, u16, finished}
use lib_tpm.Command.Transfer.{tpm_xfer}

unfoldable pub startup_builder : Host → ℕ → TpmCmdBuilder
startup_builder h mode =
    update_all h (tpm_cmd_init h tpm_st_no_sessions tpm_cmd_startup) (u16 mode ∷ [])

unfoldable pub startup_response : {S : Type 0} → ℕ → M S ⊤
startup_response tpm_rc =
    if tpm_rc == tpm_rc_initialize
    then raise err_already_init
    else if tpm_rc == tpm_response_success
    then pure tt
    else raise err_response

unfoldable pub tpm_startup : {S : Type 0} → Option (InterfaceOps S) → Host → TpmChipData → ℕ → M S ⊤
unfolding startup_response
tpm_startup interface h chip_data mode = do
  startup_cmd ← finished (startup_builder h mode)
  response ← tpm_xfer interface chip_data startup_cmd zeroed
  startup_response (code_of h response)
