-- ===== src/Bus.antt =====
-- The interface between the register protocol and the transport (include/tpm2_private.h), with
-- the two timer calls that the register protocol makes.
pub mod Laws
pub mod Log
pub mod Taken
use lib_tpm.Base.{⊤, ℕ, Bool, List}
use lib_tpm.Outcome.{M}

pub record RegisterBus (S : Type 0) : Type 0 where
  pub write_byte : ℕ → ℕ → M S ⊤
  pub read_byte : ℕ → M S ℕ
  pub read_chunk : ℕ → ℕ → M S (List ℕ)
  pub timeout_init_us : ℕ → M S ℕ
  pub timeout_elapsed : ℕ → M S Bool
