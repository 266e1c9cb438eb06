-- ===== src/Command/Allocate.antt =====
-- `tpm_pcr_allocate_auth_password` of src/tpm2_cmds.c. NULL outputs, banks and chip data, which
-- the C code refuses, are left out.
use lib_tpm.Base.{
  ⊤, ℕ, zero, suc, ◌+◌, ◌-◌, Bool, not, ◌||◌, Option, none, some, List, [], ◌∷◌, ◌++◌, map, take,
  ltb, ◌==◌, if◌then◌else◌,
}
use lib_tpm.Outcome.{
  ok, err, fail, fault, M, pure, raise, raise_if, stop_with, on_left, on_right, ◌>>=◌, ◌>>◌,
  invalid_param, err_response,
}
use lib_tpm.Endian.{Host}
use lib_tpm.Buffer.{TpmCmd, zeroed, tag_of, size_of}
use lib_tpm.Registers.{
  TpmChipData, tpm_st_sessions, tpm_cmd_pcr_allocate, tpm_min_auth_size, tpm_rs_pw, tpm_rh_platform,
  tpm_zero_nonce_size, tpm_attributes_disable, tpm_header_size, tpm_pcr_select_size, tpm_alg_null,
  tpm_max_pcr_selections, max_size_cmdbuf,
}
use lib_tpm.Interface.{InterfaceOps}
use lib_tpm.Command.Builder.{TpmCmdBuilder, tpm_cmd_init, update_all, u8, u16, u32, Item, finished}
use lib_tpm.Command.Iter.{TpmBufIter, iter_read_u8, iter_read_u32_be}
use lib_tpm.Command.Transfer.{tpm_xfer}
use lib_tpm.Command.Pcr.{check_rc}

-- `tpm_pcr_allocate_bank_t`
pub record TpmPcrAllocateBank : Type 0 where
  pub hash_alg : ℕ
  pub pcr_select : List ℕ

-- What the four output pointers point to.
pub record AllocateOut : Type 0 where
  pub out_success : Bool
  pub out_max_pcr : ℕ
  pub out_size_needed : ℕ
  pub out_size_available : ℕ

-- The first loop over `banks`: the banks in front of TPM_ALG_NULL, of the first `left` at most.
-- To read past the end of the array is undefined behaviour.
unfoldable pub listed_banks :
    {S : Type 0} → ℕ → List TpmPcrAllocateBank → M S (List TpmPcrAllocateBank)
listed_banks zero banks = pure []
listed_banks (suc left) [] = stop_with fault
listed_banks (suc left) (bank ∷ banks) =
    let others = listed_banks left banks in
    if bank.hash_alg == tpm_alg_null then pure [] else (others >>= λ rest. pure (bank ∷ rest))

abbrev pub count_of : List TpmPcrAllocateBank → ℕ
count_of [] = 0
count_of (bank ∷ banks) = suc (count_of banks)

unfoldable pub bank_fields : List TpmPcrAllocateBank → List Item
bank_fields [] = []
bank_fields (bank ∷ banks) =
    u16 bank.hash_alg
    ∷ u8 tpm_pcr_select_size
    ∷ (map u8 (take tpm_pcr_select_size bank.pcr_select) ++ bank_fields banks)

unfoldable pub allocate_fields : List ℕ → List TpmPcrAllocateBank → ℕ → List Item
unfolding bank_fields
allocate_fields password banks password_len =
    u32 tpm_rh_platform
    ∷ u32 (tpm_min_auth_size + password_len)
    ∷ u32 tpm_rs_pw
    ∷ u16 tpm_zero_nonce_size
    ∷ u8 tpm_attributes_disable
    ∷ u16 password_len
    ∷ (map u8 password ++ (u32 (count_of banks) ∷ bank_fields banks))

unfoldable pub allocate_builder : Host → List ℕ → List TpmPcrAllocateBank → ℕ → TpmCmdBuilder
allocate_builder h password banks password_len =
    update_all h (tpm_cmd_init h tpm_st_sessions tpm_cmd_pcr_allocate)
      (allocate_fields password banks password_len)

-- The part behind the transfer. The three sizes are written also when a later read fails.
unfoldable pub allocate_response : Host → TpmCmd → M AllocateOut ⊤
allocate_response h resp = do
  raise_if (not (tag_of h resp == tpm_st_sessions)) err_response
  check_rc h resp
  let resp_size = size_of h resp
  raise_if (ltb resp_size (tpm_header_size + 17) || ltb max_size_cmdbuf resp_size) err_response
  λ out.
      let iter : TpmBufIter = record {
        ptr = some resp.data_bytes;
        remain = resp_size - tpm_header_size;
        error_state = none;
      } in
      let (_, param_size, iter1) = iter_read_u32_be iter 0 in
      let (_, alloc_success, iter2) = iter_read_u8 iter1 0 in
      let (_, max_pcr, iter3) = iter_read_u32_be iter2 out.out_max_pcr in
      let (_, size_needed, iter4) = iter_read_u32_be iter3 out.out_size_needed in
      let (_, size_available, iter5) = iter_read_u32_be iter4 out.out_size_available in
      let out' : AllocateOut = record out {
        out_max_pcr = max_pcr;
        out_size_needed = size_needed;
        out_size_available = size_available;
      } in
      elim iter5.error_state [
        | some e ↦ (fail (err e), out')
        | none ↦ (ok tt, record out' { out_success = not (alloc_success == 0) })
      ]

-- `password` is NULL or points to `password_len` bytes.
unfoldable pub tpm_pcr_allocate_auth_password :
    {S : Type 0}
    → Option (InterfaceOps S)
    → Host
    → TpmChipData
    → Option (List ℕ)
    → ℕ
    → List TpmPcrAllocateBank
    → M (S × AllocateOut) ⊤
tpm_pcr_allocate_auth_password interface h chip password password_len banks = do
  password_bytes ← elim password [
    | none ↦ if ltb 0 password_len then raise invalid_param else pure []
    | some bytes ↦ pure (take password_len bytes)
  ]
  counted ← listed_banks tpm_max_pcr_selections banks
  raise_if (count_of counted == 0) invalid_param
  raise_if (not (ltb (count_of counted) tpm_max_pcr_selections)) invalid_param
  cmd ← on_left (finished (allocate_builder h password_bytes counted password_len))
  resp ← on_left (tpm_xfer interface chip cmd zeroed)
  on_right (allocate_response h resp)
