-- ===== src/Spi/Obeys.antt =====
-- The SPI transport is a register bus that obeys the laws of Bus/Laws.
use lib_tpm.Base.{
  ℕ, ◌%◌, ◌^◌, ◌≤◌, ◌<◌, ◌≡◌, refl, subst, sym, ◌∙◌, false, Option, some, List, [], ◌∷◌, length,
  get_elem?-some, arith,
}
use lib_tpm.Outcome.{Failure, err, fault, hang, deref, invalid_param}
use lib_tpm.Outcome.Spec.{Spec, Spec-bind, Spec-pure, Spec-pre, Spec-post, Spec-fact, Spec-raise_if}
use lib_tpm.Platform.{Platform, Link}
use lib_tpm.Timer.{timeout_init_us, timeout_elapsed}
use lib_tpm.Bus.Laws.{BusLaws, Safe}
use lib_tpm.Spi.{
  TpmAccess, tpm2_fifo_io, tpm_access_read, tpm_access_write, tpm2_fifo_write_byte,
  tpm2_fifo_read_byte, tpm2_fifo_read_chunk, spi_bus,
}
use lib_tpm.Spi.Laws.{free, SpiLaws, InPhase, At}
use lib_tpm.Spi.Safety.{io-Spec, tpm2_fifo_io-Safe}

module _ {D : Type 0} {p : Platform D} {polls : ℕ} (laws : SpiLaws p polls) where
  abbrev pub Idle : Link D → Type 0
  Idle = InPhase laws free

  bounded-Safe :
      (cnt n : ℕ) (x : Failure) (w : Link D) → Safe (At laws free cnt n) x w → Safe Idle x w
  bounded-Safe cnt n (err e) w h = h.0
  bounded-Safe cnt n fault w h = h
  bounded-Safe cnt n hang w h = h

  only_byte :
      (cnt n byte : ℕ) (o : Option ℕ)
      → o ≡ some byte
      → Spec (At laws free cnt n) (deref o) (λ _. At laws free cnt n) (Safe (At laws free cnt n))
  only_byte cnt n byte o e =
      subst
        (λ o.
          Spec (At laws free cnt n) (deref o) (λ _. At laws free cnt n) (Safe (At laws free cnt n)))
        (sym e) (Spec-pure byte λ w h. h)

  pub read_byte-Spec :
      (reg cnt n : ℕ)
      → Spec (At laws free cnt n) (tpm2_fifo_read_byte p reg) (λ _. At laws free cnt n) (Safe Idle)
  unfolding tpm2_fifo_read_byte
  read_byte-Spec reg cnt n =
      Spec-post _ _ (λ _ w h. h) (bounded-Safe cnt n)
        (Spec-bind _ (io-Spec laws cnt n reg tpm_access_read 1 []) λ din. Spec-fact _ λ fill.
          let full : length din ≡ 1 = fill refl in
          let (byte, e) = get_elem?-some din 0 (omega arith) in only_byte cnt n byte _ e)

  io-Idle :
      (reg : ℕ) (access : TpmAccess) (len : ℕ) (val : List ℕ)
      → Spec Idle (tpm2_fifo_io p reg access len val) (λ din w. Idle w) (Safe Idle)
  io-Idle reg access len val =
      Spec-post _ _ (λ din w h. h.0) (λ x w h. h)
        (record { at = tpm2_fifo_io-Safe laws reg access len val })

  pub write_byte-Spec :
      (reg val : ℕ) → Spec Idle (tpm2_fifo_write_byte p reg val) (λ _. Idle) (Safe Idle)
  unfolding tpm2_fifo_write_byte
  write_byte-Spec reg val =
      Spec-bind _ (io-Idle reg tpm_access_write 1 (val ∷ [])) λ _. Spec-pure tt λ w h. h

  pub read_chunk-Spec :
      (reg len : ℕ) → Spec Idle (tpm2_fifo_read_chunk p reg len) (λ _. Idle) (Safe Idle)
  unfolding tpm2_fifo_read_chunk
  read_chunk-Spec reg len =
      Spec-bind _ (Spec-raise_if _ invalid_param λ w h _. h)
        λ _. Spec-pre Idle (λ w h. h.0) (io-Idle reg tpm_access_read len [])

  pub timer_init-Spec :
      (usec : ℕ)
      → Spec Idle
          (timeout_init_us p usec)
          (λ cnt w. Idle w × (laws.ticks cnt w.dev < polls))
          (Safe Idle)
  unfolding timeout_init_us
  timer_init-Spec usec = record {
    at = λ w (sp, (to, ph)). rw to (
      (sp, (refl, laws.timer_phase (usec % 2 ^ 32) w.dev ∙ ph)),
      laws.timer_starts (usec % 2 ^ 32) w.dev,
    );
  }

  pub elapsed-Spec :
      (cnt n : ℕ)
      → Spec
          (λ w. Idle w × (laws.ticks cnt w.dev ≤ n))
          (timeout_elapsed p cnt)
          (λ elapsed w. Idle w × (elapsed ≡ false → laws.ticks cnt w.dev < n))
          (Safe Idle)
  unfolding timeout_elapsed
  elapsed-Spec cnt n = record {
    at = λ w ((sp, (to, ph)), tk). rw to (
      (sp, (refl, laws.elapsed_phase cnt w.dev ∙ ph)),
      λ e. omega (arith, tk, laws.elapsed_ticks cnt w.dev e),
    );
  }

  -- The laws, with a free controller as the invariant.
  unfoldable pub spi_laws : BusLaws (spi_bus p) polls
  unfolding spi_bus
  spi_laws = record {
    reads = record {
      I = Idle;
      ticks = λ cnt w. laws.ticks cnt w.dev;
      read_byte_safe = read_byte-Spec;
      read_chunk_safe = read_chunk-Spec;
      timeout_init_safe = timer_init-Spec;
      timeout_elapsed_safe = elapsed-Spec;
    };
    write_byte_safe = write_byte-Spec;
  }
