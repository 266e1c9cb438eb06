-- ===== src/Timer.antt =====
-- src/timer/posix_timer_ops.c, and the calls through `tpm_timeout_ops`.
use lib_tpm.Base.{ℕ, ◌+◌, ◌*◌, ◌/◌, ◌%◌, ◌^◌, Bool, leb}
use lib_tpm.Outcome.{ok, fail, fault, M}
use lib_tpm.Platform.{Platform, Link, no_timer, caller_timer, lib_timer}

module _ {D : Type 0} (p : Platform D) where
  unfoldable pub get_time_us : D → ℕ × D
  get_time_us d =
      let (tv_sec, tv_nsec, d') = p.clock_gettime d in
      ((tv_sec * 1000000 + tv_nsec / 1000) % 2 ^ 64, d')

  -- The lower 32 bits.
  unfoldable pub get_timer_value_impl : D → ℕ × D
  unfolding get_time_us
  get_timer_value_impl d = let (now, d') = get_time_us d in (now % 2 ^ 32, d')

  unfoldable pub timeout_init_us_impl : ℕ → D → ℕ × D
  unfolding get_time_us
  timeout_init_us_impl usec d = let (now, d') = get_time_us d in ((now + usec) % 2 ^ 64, d')

  unfoldable pub timeout_elapsed_impl : ℕ → D → Bool × D
  unfolding get_time_us
  timeout_elapsed_impl expiry_time_us d =
      let (now, d') = get_time_us d in (leb expiry_time_us now, d')

  abbrev at_dev : {A : Type 0} → (D → A × D) → M (Link D) A
  at_dev f w = let (a, d') = f w.dev in (ok a, record w { dev = d' })

  -- `tpm_timeout_ops.timeout_init_us (usec)`, whose parameter is a `uint32_t`.
  unfoldable pub timeout_init_us : ℕ → M (Link D) ℕ
  unfolding timeout_init_us_impl
  timeout_init_us usec w = elim w.tpm_timeout_ops [
    | no_timer ↦ (fail fault, w)
    | caller_timer ↦ at_dev (p.timer.timeout_init_us (usec % 2 ^ 32)) w
    | lib_timer ↦ at_dev (timeout_init_us_impl (usec % 2 ^ 32)) w
  ]

  -- `tpm_timeout_ops.timeout_elapsed (cnt)`
  unfoldable pub timeout_elapsed : ℕ → M (Link D) Bool
  unfolding timeout_elapsed_impl
  timeout_elapsed cnt w = elim w.tpm_timeout_ops [
    | no_timer ↦ (fail fault, w)
    | caller_timer ↦ at_dev (p.timer.timeout_elapsed cnt) w
    | lib_timer ↦ at_dev (timeout_elapsed_impl cnt) w
  ]
