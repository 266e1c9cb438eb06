-- ===== src/Bus/Laws.antt =====
-- What the register protocol relies on: the transport keeps an invariant `I` of its own, never
-- has undefined behaviour, and a timer that it starts runs out.
use lib_tpm.Base.{⊤, arith, ℕ, ◌≤◌, ◌<◌, ◌≡◌, false}
use lib_tpm.Outcome.{Outcome, ok, fail, Failure, err, fault, hang}
use lib_tpm.Outcome.Spec.{Spec, Post}
use lib_tpm.Bus.{RegisterBus}

-- A call that fails does so with an error code, and the invariant still holds.
abbrev pub Safe : {S : Type 0} → (S → Type 0) → Failure → S → Type 0
Safe I (err e) s = I s
Safe I fault s = ⊥
Safe I hang s = ⊥

-- The part about the calls that change no register. `ticks cnt s` bounds how often
-- `timeout_elapsed cnt` will still answer `false` from `s`; `polls` bounds it for a timer just
-- started.
pub record ReadLaws {S : Type 0} (bus : RegisterBus S) (polls : ℕ) : Type 1 where
  pub I : S → Type 0
  pub ticks : ℕ → S → ℕ
  pub read_byte_safe :
      (reg cnt n : ℕ)
      → Spec
          (λ s. I s × (ticks cnt s ≤ n))
          (bus.read_byte reg)
          (λ _ s. I s × (ticks cnt s ≤ n))
          (Safe I)
  pub read_chunk_safe : (reg len : ℕ) → Spec I (bus.read_chunk reg len) (λ _ s. I s) (Safe I)
  pub timeout_init_safe :
      (usec : ℕ) → Spec I (bus.timeout_init_us usec) (λ cnt s. I s × (ticks cnt s < polls)) (Safe I)
  pub timeout_elapsed_safe :
      (cnt n : ℕ)
      → Spec
          (λ s. I s × (ticks cnt s ≤ n))
          (bus.timeout_elapsed cnt)
          (λ elapsed s. I s × (elapsed ≡ false → ticks cnt s < n))
          (Safe I)

-- The part that a timed loop needs, for reads of some registers only.
pub record PollLaws {S : Type 0} (bus : RegisterBus S) (polls : ℕ) (Polled : ℕ → Type 0)
    : Type 1 where
  pub I : S → Type 0
  pub ticks : ℕ → S → ℕ
  pub read_byte_safe :
      (reg cnt n : ℕ)
      → Polled reg
      → Spec
          (λ s. I s × (ticks cnt s ≤ n))
          (bus.read_byte reg)
          (λ _ s. I s × (ticks cnt s ≤ n))
          (Safe I)
  pub timeout_init_safe :
      (usec : ℕ) → Spec I (bus.timeout_init_us usec) (λ cnt s. I s × (ticks cnt s < polls)) (Safe I)
  pub timeout_elapsed_safe :
      (cnt n : ℕ)
      → Spec
          (λ s. I s × (ticks cnt s ≤ n))
          (bus.timeout_elapsed cnt)
          (λ elapsed s. I s × (elapsed ≡ false → ticks cnt s < n))
          (Safe I)

abbrev pub poll_laws :
    {S : Type 0} {bus : RegisterBus S} {polls : ℕ}
    → ReadLaws bus polls
    → PollLaws bus polls (λ _. ⊤)
poll_laws laws = record {
  I = laws.I;
  ticks = laws.ticks;
  read_byte_safe = λ reg cnt n _. laws.read_byte_safe reg cnt n;
  timeout_init_safe = laws.timeout_init_safe;
  timeout_elapsed_safe = laws.timeout_elapsed_safe;
}

pub record BusLaws {S : Type 0} (bus : RegisterBus S) (polls : ℕ) : Type 1 where
  pub reads : ReadLaws bus polls
  pub open reads use *
  pub write_byte_safe : (reg val : ℕ) → Spec I (bus.write_byte reg val) (λ _ s. I s) (Safe I)

module _ {S : Type 0} {bus : RegisterBus S} {polls : ℕ} (laws : ReadLaws bus polls) where
  without_ticks :
      (n : ℕ) (r : Outcome ℕ × S)
      → Post (λ _ s. laws.I s × (laws.ticks 0 s ≤ n)) (Safe laws.I) r
      → Post (λ _ s. laws.I s) (Safe laws.I) r
  without_ticks n (ok a, s) h = h.0
  without_ticks n (fail x, s) h = h

  -- A read with no timer in view.
  pub read_byte_keeps : (reg : ℕ) → Spec laws.I (bus.read_byte reg) (λ _ s. laws.I s) (Safe laws.I)
  read_byte_keeps reg = record {
    at = λ s h.
        let n = laws.ticks 0 s in
        without_ticks n (bus.read_byte reg s) ((laws.read_byte_safe reg 0 n).at s (h, omega arith));
  }
