-- ===== src/Command/Iter.antt =====
-- The bounded response reader of src/tpm2_cmds.c. Every caller ignores what a read returns and
-- looks at `error_state`; the value behind `out` stays as it was when the read fails.
use lib_tpm.Base.{
  ℕ, ◌-◌, ◌*◌, ◌^◌, bit_or, Option, none, some, List, get_or, take, drop, ltb, if◌then◌else◌,
}
use lib_tpm.Outcome.{TpmRetValue, invalid_param, err_response}

-- `tpm_buf_iter_t`: `ptr` is NULL, or the bytes from the pointer to the end of its array.
pub record TpmBufIter : Type 0 where
  pub ptr : Option (List ℕ)
  pub remain : ℕ
  pub error_state : TpmRetValue

-- `tpm_buf_iter_t iter = { 0 };`
abbrev pub null_iter : TpmBufIter
null_iter = record { ptr = none; remain = 0; error_state = none }

-- The tests that the four reads share, and the step by `len` bytes.
unfoldable pub iter_read :
    {A : Type 0} → ℕ → (List ℕ → A) → TpmBufIter → A → TpmRetValue × A × TpmBufIter
iter_read len decode iter out = elim iter.ptr [
  | none ↦ (some invalid_param, out, iter)
  | some bytes ↦ elim iter.error_state [
    | some e ↦ (some e, out, iter)
    | none ↦
        if ltb iter.remain len
        then (some err_response, out, record iter { error_state = some err_response })
        else (
          none,
          decode bytes,
          record iter { ptr = some (drop len bytes); remain = iter.remain - len },
        )
  ]
]

unfoldable pub iter_read_u8 : TpmBufIter → ℕ → TpmRetValue × ℕ × TpmBufIter
unfolding iter_read
iter_read_u8 = iter_read 1 (λ ptr. get_or ptr 0 0)

unfoldable pub iter_read_u16_be : TpmBufIter → ℕ → TpmRetValue × ℕ × TpmBufIter
unfolding iter_read
iter_read_u16_be = iter_read 2 (λ ptr. bit_or (get_or ptr 0 0 * 2 ^ 8) (get_or ptr 1 0))

unfoldable pub iter_read_u32_be : TpmBufIter → ℕ → TpmRetValue × ℕ × TpmBufIter
unfolding iter_read
iter_read_u32_be = iter_read 4 λ ptr.
    bit_or
      (bit_or (bit_or (get_or ptr 0 0 * 2 ^ 24) (get_or ptr 1 0 * 2 ^ 16)) (get_or ptr 2 0 * 2 ^ 8))
      (get_or ptr 3 0)

-- The bytes behind the pointer that is handed out.
unfoldable pub iter_read_ptr : TpmBufIter → ℕ → List ℕ → TpmRetValue × List ℕ × TpmBufIter
unfolding iter_read
iter_read_ptr iter len out = iter_read len (λ ptr. take len ptr) iter out
