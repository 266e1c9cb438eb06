-- ===== src/Capability/Parse.antt =====
-- `parse_algs`, `parse_algs_find`, `parse_pcrs` and `parse_pcrs_find` of src/tpm2_cmds.c. The
-- state is what the caller's pointer leads to: the query array, or the callback's context.
-- Output pointers are not NULL.
use lib_tpm.Base.{
  ⊤, ℕ, zero, suc, ◌+◌, Bool, true, false, none, some, List, [], ◌∷◌, ◌++◌, take, drop, replicate,
  ltb, ◌==◌, if◌then◌else◌,
}
use lib_tpm.Outcome.{TpmRetValue, ok, fail, err, M, pure, raise, modify, ◌>>◌, err_response}
use lib_tpm.Endian.{Host}
use lib_tpm.Buffer.{TpmCmd}
use lib_tpm.Registers.{
  tpm_cap_algs, tpm_cap_pcrs, tpm_alg_null, tpm_max_alg_properties, tpm_max_pcr_selections,
  tpm_pcr_select_size,
}
use lib_tpm.Command.Iter.{
  TpmBufIter, iter_read_u8, iter_read_u16_be, iter_read_u32_be, iter_read_ptr,
}
use lib_tpm.Capability.{getcap_payload_start}

-- `tpm_alg_query_t`
pub record TpmAlgQuery : Type 0 where
  pub alg_id : ℕ
  pub enabled : Bool

-- `tpm_pcr_bank_query_t`
pub record TpmPcrBankQuery : Type 0 where
  pub hash_alg : ℕ
  pub pcr_select : List ℕ

-- `if (iter.error_state != TPM_SUCCESS) return iter.error_state;`
abbrev pub check : {S : Type 0} → TpmRetValue → M S ⊤
check none s = (ok tt, s)
check (some e) s = (fail (err e), s)

-- What a page of a listing gives: `*parsed_count_out`, and `*last_alg_out` or `*last_hash_out`.
abbrev pub Page : Type 0
Page = ℕ × ℕ

-- The inner loop of `parse_algs`: `left` entries at most, up to TPM_ALG_NULL. The caller has
-- seen that the array has that terminator, so the loop does not run off its end.
unfoldable pub mark_alg : ℕ → ℕ → List TpmAlgQuery → List TpmAlgQuery
mark_alg zero alg query = query
mark_alg (suc left) alg [] = []
mark_alg (suc left) alg (q ∷ query) = elim (q.alg_id == tpm_alg_null) [
  | true ↦ q ∷ query
  | false ↦ (if q.alg_id == alg then record q { enabled = true } else q) ∷ mark_alg left alg query
]

-- `memset` and `memcpy` of a bank's selection.
abbrev pub padded_select : List ℕ → ℕ → List ℕ
padded_select pcr_select sizeof_select =
    take sizeof_select pcr_select ++ drop sizeof_select (replicate tpm_pcr_select_size 0)

unfoldable pub mark_bank : ℕ → ℕ → List ℕ → List TpmPcrBankQuery → List TpmPcrBankQuery
mark_bank zero hash select query = query
mark_bank (suc left) hash select [] = []
mark_bank (suc left) hash select (q ∷ query) = elim (q.hash_alg == tpm_alg_null) [
  | true ↦ q ∷ query
  | false ↦
      (if q.hash_alg == hash then record q { pcr_select = select } else q)
      ∷ mark_bank left hash select query
]

-- `for (i = 0; i < count; i++)`, with the rounds left, and the test behind the loop.
unfoldable pub algs_loop : ℕ → TpmBufIter → ℕ → ℕ → M (List TpmAlgQuery) Page
algs_loop zero iter alg parsed_count = check iter.error_state >> pure (parsed_count, alg)
algs_loop (suc left) iter alg parsed_count =
    let (_, alg', iter1) = iter_read_u16_be iter alg in
    let (_, properties, iter2) = iter_read_u32_be iter1 0 in
    elim iter2.error_state [
      | some e ↦ raise e
      | none ↦
          modify (mark_alg tpm_max_alg_properties alg')
          >> algs_loop left iter2 alg' (parsed_count + 1)
    ]

unfoldable pub parse_algs : Host → TpmCmd → M (List TpmAlgQuery) Page
parse_algs h resp =
    let (ret, iter) = getcap_payload_start h resp tpm_cap_algs in
    let (_, count, iter1) = iter_read_u32_be iter 0 in check ret >> algs_loop count iter1 0 0

-- A selection is read whole, or the parser stops.
unfoldable pub pcrs_loop : ℕ → TpmBufIter → ℕ → ℕ → M (List TpmPcrBankQuery) Page
pcrs_loop zero iter hash parsed_count = check iter.error_state >> pure (parsed_count, hash)
pcrs_loop (suc left) iter hash parsed_count =
    let (_, hash', iter1) = iter_read_u16_be iter hash in
    let (_, sizeof_select, iter2) = iter_read_u8 iter1 0 in
    let (_, pcr_select, iter3) = iter_read_ptr iter2 sizeof_select [] in
    elim iter2.error_state [
      | some e ↦ raise e
      | none ↦ elim (ltb tpm_pcr_select_size sizeof_select) [
        | true ↦ raise err_response
        | false ↦ elim iter3.error_state [
          | some e ↦ raise e
          | none ↦
              modify
                (mark_bank tpm_max_pcr_selections hash' (padded_select pcr_select sizeof_select))
              >> pcrs_loop left iter3 hash' (parsed_count + 1)
        ]
      ]
    ]

unfoldable pub parse_pcrs : Host → TpmCmd → M (List TpmPcrBankQuery) Page
parse_pcrs h resp =
    let (ret, iter) = getcap_payload_start h resp tpm_cap_pcrs in
    let (_, count, iter1) = iter_read_u32_be iter 0 in check ret >> pcrs_loop count iter1 0 0
