-- ===== src/Capability/Find.antt =====
-- `parse_algs_find` and `parse_pcrs_find` of src/tpm2_cmds.c: a page whose entries go to a
-- callback. The callback gets and changes its context `C`, and stops the walk by `true`.
use lib_tpm.Base.{
  ℕ, zero, suc, ◌+◌, bit_and, Bool, true, false, ◌&&◌, none, some, List, [], ltb, ◌==◌,
}
use lib_tpm.Outcome.{M, pure, raise, ◌>>=◌, ◌>>◌, ok, err_response}
use lib_tpm.Endian.{Host}
use lib_tpm.Buffer.{TpmCmd}
use lib_tpm.Registers.{tpm_cap_algs, tpm_cap_pcrs, tpm_pcr_select_size}
use lib_tpm.Command.Iter.{
  TpmBufIter, iter_read_u8, iter_read_u16_be, iter_read_u32_be, iter_read_ptr,
}
use lib_tpm.Capability.{getcap_payload_start}
use lib_tpm.Capability.Parse.{check}

-- `*found_out`, `*parsed_count_out`, and `*last_alg_out` or `*last_hash_out`.
abbrev pub Found : Type 0
Found = Bool × ℕ × ℕ

-- `tpm_alg_props_cb`, `tpm_pcr_bank_cb`
abbrev pub AlgPropsCb : Type 0 → Type 0
AlgPropsCb C = ℕ → ℕ → C → Bool × C

abbrev pub PcrBankCb : Type 0 → Type 0
PcrBankCb C = ℕ → List ℕ → ℕ → C → Bool × C

abbrev pub masks_pass : ℕ → ℕ → ℕ → Bool
masks_pass must_set_mask must_clear_mask props =
    (bit_and props must_set_mask == must_set_mask) && (bit_and props must_clear_mask == 0)

-- A call of the callback.
abbrev pub called : {C : Type 0} → (C → Bool × C) → M C Bool
called f c = let (stop, c') = f c in (ok stop, c')

module _ {C : Type 0} (must_set_mask must_clear_mask : ℕ) (cb : AlgPropsCb C) where
  -- The callback, where the masks let the entry pass.
  unfoldable pub offer_alg : ℕ → ℕ → M C Bool
  offer_alg alg props = elim (masks_pass must_set_mask must_clear_mask props) [
    | true ↦ called (cb alg props)
    | false ↦ pure false
  ]

  unfoldable pub algs_find_loop : ℕ → TpmBufIter → ℕ → ℕ → M C Found
  algs_find_loop zero iter alg parsed_count =
      check iter.error_state >> pure (false, parsed_count, alg)
  algs_find_loop (suc left) iter alg parsed_count =
      let (_, alg', iter1) = iter_read_u16_be iter alg in
      let (_, props, iter2) = iter_read_u32_be iter1 0 in
      elim iter2.error_state [
        | some e ↦ raise e
        | none ↦ do
          stop ← offer_alg alg' props
          elim stop [
            | true ↦ pure (true, parsed_count + 1, alg')
            | false ↦ algs_find_loop left iter2 alg' (parsed_count + 1)
          ]
      ]

  -- Without an entry `*last_alg_out` stays what it was.
  unfoldable pub parse_algs_find : Host → TpmCmd → ℕ → M C Found
  parse_algs_find h resp last_alg =
      let (ret, iter) = getcap_payload_start h resp tpm_cap_algs in
      let (_, count, iter1) = iter_read_u32_be iter 0 in
      check ret >> algs_find_loop count iter1 last_alg 0

module _ {C : Type 0} (cb : PcrBankCb C) where
  unfoldable pub pcrs_find_loop : ℕ → TpmBufIter → ℕ → ℕ → M C Found
  pcrs_find_loop zero iter hash parsed_count =
      check iter.error_state >> pure (false, parsed_count, hash)
  pcrs_find_loop (suc left) iter hash parsed_count =
      let (_, hash', iter1) = iter_read_u16_be iter hash in
      let (_, sizeof_select, iter2) = iter_read_u8 iter1 0 in
      let (_, pcr_select, iter3) = iter_read_ptr iter2 sizeof_select [] in
      elim iter2.error_state [
        | some e ↦ raise e
        | none ↦ elim (ltb tpm_pcr_select_size sizeof_select) [
          | true ↦ raise err_response
          | false ↦ elim iter3.error_state [
            | some e ↦ raise e
            | none ↦ do
              stop ← called (cb hash' pcr_select sizeof_select)
              elim stop [
                | true ↦ pure (true, parsed_count + 1, hash')
                | false ↦ pcrs_find_loop left iter3 hash' (parsed_count + 1)
              ]
          ]
        ]
      ]

  unfoldable pub parse_pcrs_find : Host → TpmCmd → ℕ → M C Found
  parse_pcrs_find h resp last_hash =
      let (ret, iter) = getcap_payload_start h resp tpm_cap_pcrs in
      let (_, count, iter1) = iter_read_u32_be iter 0 in
      check ret >> pcrs_find_loop count iter1 last_hash 0
