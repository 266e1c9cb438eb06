-- ===== src/Platform.antt =====
-- What the library is linked with and does not implement: the SPI controller with the TPM behind
-- it (include/transport/spi.h), the timer (include/platform/tpm_platform.h), the POSIX clock and
-- the host's byte order. `D` is the state of all of these.
use lib_tpm.Base.{ℕ, Bool, Option, List}
use lib_tpm.Base.Int.{ℤ}
use lib_tpm.Endian.{Host}

-- `struct tpm_spi_ops`. `xfer bytelen dout wanted` gives a status and the bytes that it writes
-- to `din`, if `din` is not NULL (`wanted`).
pub record SpiOps (D : Type 0) : Type 0 where
  pub get_access : D → ℤ × D
  pub release_access : D → D
  pub start : D → D
  pub stop : D → D
  pub xfer : ℕ → Option (List ℕ) → Bool → D → ℤ × List ℕ × D

-- `struct tpm_timeout_ops`.
pub record TimeoutOps (D : Type 0) : Type 0 where
  pub timeout_init_us : ℕ → D → ℕ × D
  pub timeout_elapsed : ℕ → D → Bool × D

-- `clock_gettime` gives the fields `tv_sec` and `tv_nsec`.
pub record Platform (D : Type 0) : Type 0 where
  pub host : Host
  pub spi : SpiOps D
  pub timer : TimeoutOps D
  pub has_lib_timer : Bool
  pub clock_gettime : D → ℕ × ℕ × D

-- `tpm_timeout_ops`: not set, copied from the caller's, or from `tpm_lib_timeout_ops`.
pub data TimerSource : Type 0 where
  no_timer caller_timer lib_timer : TimerSource

-- The platform together with the library's variables: `tpm_last_transport_error`, whether the
-- pointers `tpm_spidev` and `interface` are set, and `tpm_timeout_ops`.
pub record Link (D : Type 0) : Type 0 where
  pub dev : D
  pub tpm_last_transport_error : ℤ
  pub tpm_spidev : Bool
  pub interface : Bool
  pub tpm_timeout_ops : TimerSource
