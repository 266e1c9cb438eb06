-- ===== src/Spi/Laws.antt =====
-- What src/tpm2_fifo_spi.c relies on in the platform: the order in which the controller's calls
-- may be made, that a transfer that succeeds fills its buffer, and that the caller's timer runs
-- out.
use lib_tpm.Base.{ℕ, ◌≤◌, ◌<◌, ◌≡◌, Bool, true, false, Option, List, length}
use lib_tpm.Base.Int.{nonzero}
use lib_tpm.Platform.{Platform, Link, caller_timer}

-- The controller is free, taken with the chip not selected, or taken with the chip selected.
pub data Phase : Type 0 where
  free taken selected : Phase

-- `ticks cnt d` bounds how often `timeout_elapsed cnt` will still answer `false` from `d`; no
-- call raises it but the start of a timer.
pub record SpiLaws {D : Type 0} (p : Platform D) (polls : ℕ) : Type 0 where
  pub phase : D → Phase
  pub ticks : ℕ → D → ℕ
  pub get_access_taken :
      (d : D)
      → phase d ≡ free
      → nonzero (p.spi.get_access d).0 ≡ false
      → phase (p.spi.get_access d).1 ≡ taken
  pub get_access_refused :
      (d : D)
      → phase d ≡ free
      → nonzero (p.spi.get_access d).0 ≡ true
      → phase (p.spi.get_access d).1 ≡ free
  pub start_selects : (d : D) → phase d ≡ taken → phase (p.spi.start d) ≡ selected
  pub stop_deselects : (d : D) → phase d ≡ selected → phase (p.spi.stop d) ≡ taken
  pub release_frees : (d : D) → phase d ≡ taken → phase (p.spi.release_access d) ≡ free
  pub xfer_stays :
      (len : ℕ) (data_out : Option (List ℕ)) (wanted : Bool) (d : D)
      → phase d ≡ selected
      → phase (p.spi.xfer len data_out wanted d).2 ≡ selected
  pub xfer_fills :
      (len : ℕ) (data_out : Option (List ℕ)) (wanted : Bool) (d : D)
      → phase d ≡ selected
      → wanted ≡ true
      → nonzero (p.spi.xfer len data_out wanted d).0 ≡ false
      → length (p.spi.xfer len data_out wanted d).1 ≡ len
  pub get_access_ticks : (cnt : ℕ) (d : D) → ticks cnt (p.spi.get_access d).1 ≤ ticks cnt d
  pub start_ticks : (cnt : ℕ) (d : D) → ticks cnt (p.spi.start d) ≤ ticks cnt d
  pub stop_ticks : (cnt : ℕ) (d : D) → ticks cnt (p.spi.stop d) ≤ ticks cnt d
  pub release_ticks : (cnt : ℕ) (d : D) → ticks cnt (p.spi.release_access d) ≤ ticks cnt d
  pub xfer_ticks :
      (cnt len : ℕ) (data_out : Option (List ℕ)) (wanted : Bool) (d : D)
      → ticks cnt (p.spi.xfer len data_out wanted d).2 ≤ ticks cnt d
  pub timer_phase : (usec : ℕ) (d : D) → phase (p.timer.timeout_init_us usec d).1 ≡ phase d
  pub timer_starts :
      (usec : ℕ) (d : D)
      → ticks (p.timer.timeout_init_us usec d).0 (p.timer.timeout_init_us usec d).1 < polls
  pub elapsed_phase : (cnt : ℕ) (d : D) → phase (p.timer.timeout_elapsed cnt d).1 ≡ phase d
  pub elapsed_ticks :
      (cnt : ℕ) (d : D)
      → (p.timer.timeout_elapsed cnt d).0 ≡ false
      → ticks cnt (p.timer.timeout_elapsed cnt d).1 < ticks cnt d

module _ {D : Type 0} {p : Platform D} {polls : ℕ} (laws : SpiLaws p polls) where
  -- The pointer `tpm_spidev` is set, `tpm_timeout_ops` holds the timer that the caller gave (not the
  -- library's own), and the controller is in a phase.
  abbrev pub InPhase : Phase → Link D → Type 0
  InPhase ph w =
      (w.tpm_spidev ≡ true) × ((w.tpm_timeout_ops ≡ caller_timer) × (laws.phase w.dev ≡ ph))

  -- And a timer has few ticks left.
  abbrev pub At : Phase → ℕ → ℕ → Link D → Type 0
  At ph cnt n w = InPhase ph w × (laws.ticks cnt w.dev ≤ n)
