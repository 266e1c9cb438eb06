-- ===== src/Command/Builder.antt =====
-- The command builder of src/tpm2_cmds.c.
pub mod Frame
pub mod Encode
use lib_tpm.Base.{
  ℕ, ◌+◌, ◌-◌, ◌%◌, ◌^◌, Option, none, some, List, [], ◌∷◌, ◌++◌, set, replicate, ltb, ◌==◌,
  if◌then◌else◌,
}
use lib_tpm.Outcome.{TpmRetValue, invalid_param, M, pure, raise}
use lib_tpm.Endian.{Host, htobe16, htobe32, memory16, memory32}
use lib_tpm.Buffer.{TpmCmd, size_of, set_size}
use lib_tpm.Registers.{tpm_header_size, max_size_cmdbuf, max_cmd_data}

-- `tpm_cmd_builder_t`; the command is held by value.
pub record TpmCmdBuilder : Type 0 where
  pub cmd : TpmCmd
  pub error_state : TpmRetValue

unfoldable pub tpm_cmd_init : Host → ℕ → ℕ → TpmCmdBuilder
tpm_cmd_init h tag cmd_code = record {
  cmd = record {
    header =
        memory16 h (htobe16 h tag)
        ++ (memory32 h (htobe32 h tpm_header_size) ++ memory32 h (htobe32 h cmd_code));
    data_bytes = replicate max_cmd_data 0;
  };
  error_state = none;
}

unfoldable pub tpm_builder_finalize : TpmCmdBuilder → TpmRetValue
tpm_builder_finalize builder = builder.error_state

-- The bytes that `tpm_new_data.array` holds, by `new_len`: SINGLE_BYTE, TWO_BYTES, FOUR_BYTES.
unfoldable pub new_bytes : Host → ℕ → ℕ → Option (List ℕ)
new_bytes h new_data new_len =
    if new_len == 1
    then some (new_data % 2 ^ 8 ∷ [])
    else if new_len == 2
    then some (memory16 h (htobe16 h (new_data % 2 ^ 16)))
    else if new_len == 4
    then some (memory32 h (htobe32 h new_data))
    else none

-- `for (i = start, j = 0; i < start + new_len; i++, j++) buf->data[i] = array[j];`
unfoldable pub write_bytes : List ℕ → ℕ → List ℕ → List ℕ
write_bytes xs i [] = xs
write_bytes xs i (b ∷ bs) = write_bytes (set xs i b) (i + 1) bs

unfoldable pub fail_builder : TpmCmdBuilder → TpmCmdBuilder
fail_builder builder = record builder { error_state = some invalid_param }

-- The part behind the early return, with `command_size` read from the header. `start` is a
-- difference of two `uint32_t`.
unfoldable pub append_data : Host → TpmCmdBuilder → ℕ → ℕ → ℕ → TpmCmdBuilder
unfolding fail_builder
append_data h builder command_size new_data new_len =
    if ltb max_size_cmdbuf (command_size + new_len)
    then fail_builder builder
    else elim (new_bytes h new_data new_len) [
      | none ↦ fail_builder builder
      | some bytes ↦
          let start = (command_size + 2 ^ 32 - tpm_header_size) % 2 ^ 32 in
          let data_bytes' = write_bytes builder.cmd.data_bytes start bytes in
          record builder {
            cmd =
                set_size h (command_size + new_len)
                  (record builder.cmd { data_bytes = data_bytes' });
          }
    ]

-- The C function returns the builder's error state, which no caller reads.
unfoldable pub tpm_update_buffer : Host → TpmCmdBuilder → ℕ → ℕ → TpmCmdBuilder
tpm_update_buffer h builder new_data new_len = elim builder.error_state [
  | some e ↦ builder
  | none ↦ append_data h builder (size_of h builder.cmd) new_data new_len
]

-- A call of `tpm_update_buffer` in a row: the value and its length.
abbrev pub Item : Type 0
Item = ℕ × ℕ

abbrev pub u8 : ℕ → Item
u8 x = (x, 1)

abbrev pub u16 : ℕ → Item
u16 x = (x, 2)

abbrev pub u32 : ℕ → Item
u32 x = (x, 4)

-- Calls of `tpm_update_buffer`, one behind another.
unfoldable pub update_all : Host → TpmCmdBuilder → List Item → TpmCmdBuilder
update_all h builder [] = builder
update_all h builder ((new_data, new_len) ∷ items) =
    update_all h (tpm_update_buffer h builder new_data new_len) items

-- `ret = tpm_builder_finalize (&builder); if (ret < 0) return ret;`, and the command.
unfoldable pub finished : {S : Type 0} → TpmCmdBuilder → M S TpmCmd
unfolding tpm_builder_finalize
finished builder = elim (tpm_builder_finalize builder) [
  | none ↦ pure builder.cmd
  | some e ↦ raise e
]
