-- ===== src/Capability/Query.antt =====
-- The capability queries of src/tpm2_cmds.c, page after page. `left` counts the pages that may
-- still be asked for, from TPM_MAX_PAGES. Chip data, arrays and callbacks are not NULL.
use lib_tpm.Base.{
  ⊤, ℕ, zero, suc, ◌+◌, ◌%◌, ◌^◌, Bool, true, false, not, ◌&&◌, Option, List, [], ◌∷◌, replicate,
  ltb, ◌==◌, if◌then◌else◌,
}
use lib_tpm.Outcome.{
  ok, fail, fault, M, pure, raise, raise_if, on_left, on_right, ◌>>=◌, ◌>>◌, invalid_param,
  err_response, err_iteration_limit, continue,
}
use lib_tpm.Endian.{Host}
use lib_tpm.Registers.{
  TpmChipData, tpm_cap_algs, tpm_cap_pcrs, tpm_alg_null, tpm_default_page_count, tpm_max_pages,
  tpm_max_alg_properties, tpm_max_pcr_selections, tpm_pcr_select_size,
}
use lib_tpm.Interface.{InterfaceOps}
use lib_tpm.Capability.{getcap_raw}
use lib_tpm.Capability.Parse.{TpmAlgQuery, TpmPcrBankQuery, parse_algs, parse_pcrs}

-- What the first loop of a query finds: whether there is a terminator, the largest identifier,
-- the number of entries.
abbrev pub Scan : Type 0
Scan = Bool × ℕ × ℕ

abbrev pub max_of : ℕ → ℕ → ℕ
max_of id max_id = if ltb max_id id then id else max_id

-- It clears the results up to the terminator. To read past the end is undefined behaviour.
unfoldable pub scan_algs : ℕ → ℕ → ℕ → M (List TpmAlgQuery) Scan
scan_algs zero max_alg item_count query = (ok (false, max_alg, item_count), query)
scan_algs (suc left) max_alg item_count [] = (fail fault, [])
scan_algs (suc left) max_alg item_count (q ∷ query) = elim (q.alg_id == tpm_alg_null) [
  | true ↦ (ok (true, max_alg, item_count), q ∷ query)
  | false ↦
      let (r, query') = scan_algs left (max_of q.alg_id max_alg) (item_count + 1) query in
      (r, record q { enabled = false } ∷ query')
]

unfoldable pub scan_banks : ℕ → ℕ → ℕ → M (List TpmPcrBankQuery) Scan
scan_banks zero max_hash item_count query = (ok (false, max_hash, item_count), query)
scan_banks (suc left) max_hash item_count [] = (fail fault, [])
scan_banks (suc left) max_hash item_count (q ∷ query) = elim (q.hash_alg == tpm_alg_null) [
  | true ↦ (ok (true, max_hash, item_count), q ∷ query)
  | false ↦
      let (r, query') = scan_banks left (max_of q.hash_alg max_hash) (item_count + 1) query in
      (r, record q { pcr_select = replicate tpm_pcr_select_size 0 } ∷ query')
]

module _ {S : Type 0} (interface : Option (InterfaceOps S)) (h : Host) (chip : TpmChipData) where
  unfoldable pub query_algs_pages : ℕ → ℕ → ℕ → M (S × List TpmAlgQuery) ⊤
  query_algs_pages zero property max_alg = raise err_iteration_limit
  query_algs_pages (suc left) property max_alg = do
    (resp, more_data) ←
        on_left (getcap_raw interface h chip tpm_cap_algs property tpm_default_page_count)
    (parsed_count, last_alg) ← on_right (parse_algs h resp)
    raise_if (more_data && parsed_count == 0) err_response
    elim (more_data && ltb last_alg max_alg) [
      | true ↦ query_algs_pages left ((last_alg + 1) % 2 ^ 32) max_alg
      | false ↦ pure tt
    ]

  unfoldable pub tpm_getcap_query_algs : M (S × List TpmAlgQuery) ⊤
  tpm_getcap_query_algs = do
    (found_term, max_alg, item_count) ← on_right (scan_algs tpm_max_alg_properties 0 0)
    raise_if (not found_term) invalid_param
    if item_count == 0 then pure tt else query_algs_pages tpm_max_pages 0 max_alg

  unfoldable pub query_pcrs_pages : ℕ → ℕ → ℕ → M (S × List TpmPcrBankQuery) ⊤
  query_pcrs_pages zero property max_hash = raise err_iteration_limit
  query_pcrs_pages (suc left) property max_hash = do
    (resp, more_data) ←
        on_left (getcap_raw interface h chip tpm_cap_pcrs property tpm_default_page_count)
    (parsed_count, last_hash) ← on_right (parse_pcrs h resp)
    raise_if (more_data && parsed_count == 0) err_response
    elim (more_data && ltb last_hash max_hash) [
      | true ↦ query_pcrs_pages left ((last_hash + 1) % 2 ^ 32) max_hash
      | false ↦ pure tt
    ]

  unfoldable pub tpm_getcap_query_pcrs : M (S × List TpmPcrBankQuery) ⊤
  tpm_getcap_query_pcrs = do
    (found_term, max_hash, item_count) ← on_right (scan_banks tpm_max_pcr_selections 0 0)
    raise_if (not found_term) invalid_param
    if item_count == 0 then pure tt else query_pcrs_pages tpm_max_pages 0 max_hash

  -- The two-element array of `tpm_has_alg`.
  abbrev pub alg_item : ℕ → List TpmAlgQuery
  alg_item alg_id =
      record { alg_id = alg_id; enabled = false }
      ∷ record { alg_id = tpm_alg_null; enabled = false }
      ∷ []

  abbrev pub first_enabled : List TpmAlgQuery → Bool
  first_enabled [] = false
  first_enabled (q ∷ query) = q.enabled

  -- Returns `*out_supported`, which is not written when the query fails.
  unfoldable pub tpm_has_alg : ℕ → M S Bool
  tpm_has_alg alg_id s =
      let (r, (s', item)) = tpm_getcap_query_algs (s, alg_item alg_id) in
      continue r (λ _. pure (first_enabled item)) s'
