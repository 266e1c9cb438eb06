-- ===== src/Command/Pcr.antt =====
-- `tpm_pcr_extend`, `tpm_pcr_read_single` and `tpm_pcr_allocate_auth_password` of
-- src/tpm2_cmds.c. A pointer that the C code compares with NULL is an `Option`.
pub mod Read
use lib_tpm.Base.{
  ⊤, ℕ, ◌+◌, ◌-◌, ◌*◌, ◌/◌, ◌%◌, ◌^◌, Bool, not, ◌||◌, Option, none, some, List, [], ◌∷◌, ◌++◌, map,
  length, get_or, take, drop, replicate, ltb, ◌==◌,
}
use lib_tpm.Outcome.{
  ok, M, pure, raise, raise_if, on_left, on_right, modify, ◌>>=◌, ◌>>◌, invalid_param, err_response,
}
use lib_tpm.Endian.{Host, be16toh, word16}
use lib_tpm.Buffer.{TpmCmd, zeroed, size_of, code_of}
use lib_tpm.Registers.{
  TpmChipData, tpm_st_no_sessions, tpm_st_sessions, tpm_cmd_pcr_extend, tpm_cmd_pcr_read,
  tpm_min_auth_size, tpm_rs_pw, tpm_zero_nonce_size, tpm_attributes_disable, tpm_zero_hmac_size,
  tpm_single_hash_count, tpm_response_success, tpm_header_size, max_digest_size,
  tpm_pcr_select_size,
}
use lib_tpm.Interface.{InterfaceOps}
use lib_tpm.Command.Builder.{TpmCmdBuilder, tpm_cmd_init, update_all, u8, u16, u32, Item, finished}
use lib_tpm.Command.Transfer.{tpm_xfer}

-- The fields before the digest, in the order of the calls of `tpm_update_buffer`.
abbrev pub extend_fields : ℕ → ℕ → List Item
extend_fields index algorithm =
    u32 index
    ∷ u32 tpm_min_auth_size
    ∷ u32 tpm_rs_pw
    ∷ u16 tpm_zero_nonce_size
    ∷ u8 tpm_attributes_disable
    ∷ u16 tpm_zero_hmac_size
    ∷ u32 tpm_single_hash_count
    ∷ u16 algorithm
    ∷ []

unfoldable pub extend_builder : Host → ℕ → ℕ → List ℕ → TpmCmdBuilder
extend_builder h index algorithm digest =
    update_all h (tpm_cmd_init h tpm_st_sessions tpm_cmd_pcr_extend)
      (extend_fields index algorithm ++ map u8 digest)

-- `if (tpm_rc != TPM_RESPONSE_SUCCESS) return TPM_ERR_RESPONSE;`
abbrev pub check_rc : {S : Type 0} → Host → TpmCmd → M S ⊤
check_rc h response = raise_if (not (code_of h response == tpm_response_success)) err_response

-- `digest` is NULL, or points to `digest_len` bytes: the list.
unfoldable pub tpm_pcr_extend :
    {S : Type 0} → Option (InterfaceOps S) → Host → TpmChipData → ℕ → ℕ → Option (List ℕ) → M S ⊤
tpm_pcr_extend interface h chip_data index algorithm none = raise invalid_param
tpm_pcr_extend interface h chip_data index algorithm (some digest) = do
  pcr_extend_cmd ← finished (extend_builder h index algorithm digest)
  response ← tpm_xfer interface chip_data pcr_extend_cmd zeroed
  check_rc h response

-- `1U << index`, one byte after another, the least significant first.
abbrev pub read_fields : ℕ → ℕ → List Item
read_fields index algorithm =
    let pcr_bitmask = 2 ^ index in
    u32 1
    ∷ u16 algorithm
    ∷ u8 tpm_pcr_select_size
    ∷ u8 (pcr_bitmask % 2 ^ 8)
    ∷ u8 (pcr_bitmask / 2 ^ 8 % 2 ^ 8)
    ∷ u8 (pcr_bitmask / 2 ^ 16 % 2 ^ 8)
    ∷ []

unfoldable pub read_builder : Host → ℕ → ℕ → TpmCmdBuilder
read_builder h index algorithm =
    update_all h (tpm_cmd_init h tpm_st_no_sessions tpm_cmd_pcr_read) (read_fields index algorithm)

-- `struct tpm_pcr_single_read_res`: the offset of `digest`, its size, that of `tpml_digest_size`.
abbrev pub digest_offset : ℕ
digest_offset = 20

abbrev pub single_read_res_size : ℕ
single_read_res_size = digest_offset + max_digest_size

abbrev pub digest_size_offset : ℕ
digest_size_offset = 18

-- `memcpy (dest, src, n)` into the start of an array.
abbrev pub copy_into : List ℕ → List ℕ → ℕ → List ℕ
copy_into dest src n = take n src ++ drop n dest

-- The part of `tpm_pcr_read_single` behind the transfer: the digest bytes, or an error. The
-- `uint32_t` subtraction wraps.
unfoldable pub read_digest : {S : Type 0} → Host → TpmCmd → ℕ → M S (List ℕ)
read_digest h response pcr_digest_read_len = do
  check_rc h response
  let data_size = (size_of h response + 2 ^ 32 - tpm_header_size) % 2 ^ 32
  raise_if (ltb single_read_res_size data_size || ltb data_size digest_offset) err_response
  let tpm_read_response = take single_read_res_size response.data_bytes
  let digest_len = be16toh h (
      word16 h (get_or tpm_read_response digest_size_offset 0)
        (get_or tpm_read_response (digest_size_offset + 1) 0))
  raise_if (ltb max_digest_size digest_len || ltb pcr_digest_read_len digest_len) invalid_param
  raise_if (ltb data_size (digest_offset + digest_len)) err_response
  pure (take digest_len (drop digest_offset tpm_read_response))

-- `memset (pcr_digest_read, 0, pcr_digest_read_len)`, and the final `memcpy`.
abbrev pub clear : List ℕ → List ℕ
clear out = replicate (length out) 0

-- The second state is the array behind `pcr_digest_read`, of `pcr_digest_read_len` bytes;
-- `given` says that the pointer is not NULL. `pcr_read_res` is what lies on the stack: the
-- response buffer is not initialised.
unfoldable pub tpm_pcr_read_single :
    {S : Type 0}
    → Option (InterfaceOps S)
    → Host
    → TpmChipData
    → TpmCmd
    → ℕ
    → ℕ
    → Bool
    → M (S × List ℕ) ⊤
tpm_pcr_read_single interface h chip_data pcr_read_res index algorithm given = do
  raise_if (not (ltb index (tpm_pcr_select_size * 8))) invalid_param
  raise_if (not given) invalid_param
  on_right (modify clear)
  pcr_read_cmd ← on_left (finished (read_builder h index algorithm))
  response ← on_left (tpm_xfer interface chip_data pcr_read_cmd pcr_read_res)
  pcr_digest_read_len ← on_right (λ out. (ok (length out), out))
  digest ← on_left (read_digest h response pcr_digest_read_len)
  on_right (modify (λ out. copy_into out digest (length digest)))
