-- ===== src/Spi/Header.antt =====
-- The header of an SPI transaction (src/tpm2_fifo_spi.c).
use lib_tpm.Base.{ℕ, ◌+◌, ◌-◌, ◌^◌, ◌≤◌, ◌<◌, ◌≡◌, ◌∷◌, arith}
use lib_tpm.Base.Bits.{bit_or-above}
use lib_tpm.Endian.{be16}
use lib_tpm.Spi.{TpmAccess, tpm_access_read, tpm_access_write, spi_header}

-- Bit 7 of the first byte.
abbrev pub direction : TpmAccess → ℕ
direction tpm_access_read = 0x80
direction tpm_access_write = 0x00

-- For a length of 1 to 64 and a register address of 16 bits, the header is `len - 1` with bit 7
-- set for a read and clear for a write, the prefix 0xd4 and the address, most significant byte
-- first; `len - 1` never reaches the two top bits.
pub spi_header-fields :
    (tpm_reg : ℕ) (access : TpmAccess) (len : ℕ)
    → tpm_reg < 2 ^ 16
    → 0 < len
    → len ≤ 64
    → (spi_header tpm_reg access len ≡ (direction access + (len - 1)) ∷ 0xd4 ∷ be16 tpm_reg)
      × (len - 1 < 2 ^ 6)
unfolding spi_header
spi_header-fields tpm_reg tpm_access_read len hr lo hi =
    (ground (arith, bit_or-above 7 (len - 1) 1), omega arith)
spi_header-fields tpm_reg tpm_access_write len hr lo hi =
    (ground (arith, bit_or-above 7 (len - 1) 0), omega arith)
