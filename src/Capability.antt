-- ===== src/Capability.antt =====
-- The TPM2_GetCapability part of src/tpm2_cmds.c: one request, and the parsing of its payload.
pub mod Parse
pub mod Find
pub mod Query
pub mod Each
use lib_tpm.Base.{
  ⊤, ℕ, ◌+◌, ◌-◌, Bool, not, ◌||◌, Option, none, some, [], ◌∷◌, get_or, ltb, ◌==◌, if◌then◌else◌,
}
use lib_tpm.Outcome.{TpmRetValue, M, pure, raise_if, ◌>>=◌, ◌>>◌, err_response}
use lib_tpm.Endian.{Host}
use lib_tpm.Buffer.{TpmCmd, zeroed, tag_of, size_of, code_of}
use lib_tpm.Registers.{
  TpmChipData, tpm_st_no_sessions, tpm_cmd_get_capability, tpm_header_size, max_size_cmdbuf,
}
use lib_tpm.Interface.{InterfaceOps}
use lib_tpm.Command.Builder.{TpmCmdBuilder, tpm_cmd_init, update_all, u32, finished}
use lib_tpm.Command.Iter.{TpmBufIter, null_iter, iter_read_u8, iter_read_u32_be}
use lib_tpm.Command.Transfer.{tpm_xfer}
use lib_tpm.Command.Pcr.{check_rc}

-- The two reads and the tests behind them; the status and the iterator.
unfoldable pub payload_start : TpmBufIter → ℕ → TpmRetValue × TpmBufIter
payload_start iter expected_cap =
    let (_, more_data, iter1) = iter_read_u8 iter 0 in
    let (_, cap, iter2) = iter_read_u32_be iter1 0 in
    elim iter2.error_state [
      | some e ↦ (some e, iter2)
      | none ↦ if cap == expected_cap then (none, iter2) else (some err_response, iter2)
    ]

unfoldable pub getcap_payload_start : Host → TpmCmd → ℕ → TpmRetValue × TpmBufIter
unfolding payload_start
getcap_payload_start h resp expected_cap =
    let resp_size = size_of h resp in
    if ltb resp_size tpm_header_size || ltb max_size_cmdbuf resp_size
    then (some err_response, null_iter)
    else payload_start
        (record {
          ptr = some resp.data_bytes;
          remain = resp_size - tpm_header_size;
          error_state = none;
        })
        expected_cap

unfoldable pub getcap_builder : Host → ℕ → ℕ → ℕ → TpmCmdBuilder
getcap_builder h capability property property_count =
    update_all h (tpm_cmd_init h tpm_st_no_sessions tpm_cmd_get_capability)
      (u32 capability ∷ u32 property ∷ u32 property_count ∷ [])

-- The tests on a response; `*more_data_out`.
unfoldable pub getcap_response : {S : Type 0} → Host → TpmCmd → M S Bool
getcap_response h resp = do
  raise_if (not (tag_of h resp == tpm_st_no_sessions)) err_response
  check_rc h resp
  let resp_size = size_of h resp
  raise_if (ltb resp_size (tpm_header_size + 1) || ltb max_size_cmdbuf resp_size) err_response
  pure (not (get_or resp.data_bytes 0 0 == 0))

-- Returns `*resp_out` and `*more_data_out`; no caller passes NULL but for the chip data.
unfoldable pub getcap_raw :
    {S : Type 0} → Option (InterfaceOps S) → Host → TpmChipData → ℕ → ℕ → ℕ → M S (TpmCmd × Bool)
getcap_raw interface h chip capability property property_count = do
  cmd ← finished (getcap_builder h capability property property_count)
  resp ← tpm_xfer interface chip cmd zeroed
  more_data ← getcap_response h resp
  pure (resp, more_data)
