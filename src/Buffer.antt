-- ===== src/Buffer.antt =====
-- `tpm_cmd` (include/tpm2_private.h): the packed header of ten bytes and the 246 bytes of data.
use lib_tpm.Base.{ℕ, List, ◌++◌, get_or, take, drop, replicate}
use lib_tpm.Endian.{Host, htobe32, be16toh, be32toh, memory32, word16, word32}
use lib_tpm.Registers.{tpm_header_size, max_cmd_data}

-- The header's bytes are `tag`, `cmd_size` and `cmd_code` as they lie in memory.
pub record TpmCmd : Type 0 where
  pub header : List ℕ
  pub data_bytes : List ℕ

-- `memset (cmd, 0, sizeof (*cmd))`
abbrev pub zeroed : TpmCmd
zeroed = record { header = replicate tpm_header_size 0; data_bytes = replicate max_cmd_data 0 }

-- `be16toh (header.tag)`
unfoldable pub tag_of : Host → TpmCmd → ℕ
tag_of h c = be16toh h (word16 h (get_or c.header 0 0) (get_or c.header 1 0))

-- `be32toh (header.cmd_size)`
unfoldable pub size_of : Host → TpmCmd → ℕ
size_of h c = be32toh h (
    word32 h (get_or c.header 2 0) (get_or c.header 3 0) (get_or c.header 4 0)
      (get_or c.header 5 0))

-- `be32toh (header.cmd_code)`
unfoldable pub code_of : Host → TpmCmd → ℕ
code_of h c = be32toh h (
    word32 h (get_or c.header 6 0) (get_or c.header 7 0) (get_or c.header 8 0)
      (get_or c.header 9 0))

-- `header.cmd_size = htobe32 (size)`
unfoldable pub set_size : Host → ℕ → TpmCmd → TpmCmd
set_size h size c = record c {
  header = take 2 c.header ++ (memory32 h (htobe32 h size) ++ drop 6 c.header);
}
