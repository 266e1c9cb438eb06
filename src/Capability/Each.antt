-- ===== src/Capability/Each.antt =====
-- `tpm_get_alg_props`, `tpm_for_each_alg_props` and `tpm_for_each_pcr_bank` of src/tpm2_cmds.c.
-- Chip data, outputs and callbacks are not NULL.
use lib_tpm.Base.{
  ⊤, ℕ, zero, suc, ◌+◌, ◌%◌, ◌^◌, Bool, true, false, ◌&&◌, Option, ◌==◌, if◌then◌else◌,
}
use lib_tpm.Outcome.{
  M, pure, raise, raise_if, on_left, on_right, modify, ◌>>=◌, ◌>>◌, err_response,
  err_iteration_limit,
}
use lib_tpm.Endian.{Host}
use lib_tpm.Buffer.{TpmCmd}
use lib_tpm.Registers.{
  TpmChipData, tpm_cap_algs, tpm_cap_pcrs, tpm_alg_null, tpm_default_page_count, tpm_max_pages,
}
use lib_tpm.Interface.{InterfaceOps}
use lib_tpm.Command.Iter.{iter_read_u16_be, iter_read_u32_be}
use lib_tpm.Capability.{getcap_raw, getcap_payload_start}
use lib_tpm.Capability.Parse.{check}
use lib_tpm.Capability.Find.{AlgPropsCb, PcrBankCb, parse_algs_find, parse_pcrs_find}

-- `*out_supported` and `*out_props`.
abbrev pub AlgProps : Type 0
AlgProps = Bool × ℕ

-- The part behind the request: one entry is read, whatever count the response gives.
unfoldable pub alg_props_response : Host → TpmCmd → ℕ → M AlgProps ⊤
alg_props_response h resp alg_id =
    let (ret, iter) = getcap_payload_start h resp tpm_cap_algs in
    let (_, count, iter1) = iter_read_u32_be iter 0 in
    let (_, alg, iter2) = iter_read_u16_be iter1 tpm_alg_null in
    let (_, props, iter3) = iter_read_u32_be iter2 0 in
    modify (λ _. (false, 0))
    >> check ret
    >> check iter3.error_state
    >> modify (λ out. if alg == alg_id then (true, props) else out)

module _ {S : Type 0} (interface : Option (InterfaceOps S)) (h : Host) (chip : TpmChipData) where
  unfoldable pub tpm_get_alg_props : ℕ → M (S × AlgProps) ⊤
  unfolding alg_props_response
  tpm_get_alg_props alg_id = do
    (resp, more_data) ← on_left (getcap_raw interface h chip tpm_cap_algs alg_id 1)
    on_right (alg_props_response h resp alg_id)

  module _ {C : Type 0} where
    -- The page loop; `last_alg` keeps its value over a page without entries.
    unfoldable pub each_alg_pages : ℕ → ℕ → AlgPropsCb C → ℕ → ℕ → ℕ → M (S × C) ⊤
    each_alg_pages must_set_mask must_clear_mask cb zero property last_alg =
        raise err_iteration_limit
    each_alg_pages must_set_mask must_clear_mask cb (suc left) property last_alg = do
      (resp, more_data) ←
          on_left (getcap_raw interface h chip tpm_cap_algs property tpm_default_page_count)
      (found, parsed_count, last_alg') ←
          on_right (parse_algs_find must_set_mask must_clear_mask cb h resp last_alg)
      elim found [
        | true ↦ pure tt
        | false ↦ do
          raise_if (more_data && parsed_count == 0) err_response
          elim more_data [
            | true ↦
                each_alg_pages must_set_mask must_clear_mask cb left ((last_alg' + 1) % 2 ^ 32)
                  last_alg'
            | false ↦ pure tt
          ]
      ]

    unfoldable pub tpm_for_each_alg_props : ℕ → ℕ → AlgPropsCb C → M (S × C) ⊤
    tpm_for_each_alg_props must_set_mask must_clear_mask cb =
        each_alg_pages must_set_mask must_clear_mask cb tpm_max_pages 0 0

    unfoldable pub each_bank_pages : PcrBankCb C → ℕ → ℕ → ℕ → M (S × C) ⊤
    each_bank_pages cb zero property last_hash = raise err_iteration_limit
    each_bank_pages cb (suc left) property last_hash = do
      (resp, more_data) ←
          on_left (getcap_raw interface h chip tpm_cap_pcrs property tpm_default_page_count)
      (found, parsed_count, last_hash') ← on_right (parse_pcrs_find cb h resp last_hash)
      elim found [
        | true ↦ pure tt
        | false ↦ do
          raise_if (more_data && parsed_count == 0) err_response
          elim more_data [
            | true ↦ each_bank_pages cb left ((last_hash' + 1) % 2 ^ 32) last_hash'
            | false ↦ pure tt
          ]
      ]

    unfoldable pub tpm_for_each_pcr_bank : PcrBankCb C → M (S × C) ⊤
    tpm_for_each_pcr_bank cb = each_bank_pages cb tpm_max_pages 0 0
