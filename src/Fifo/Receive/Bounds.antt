-- ===== src/Fifo/Receive/Bounds.antt =====
-- The loops of `tpm2_fifo_read_data` of src/tpm2_fifo.c, over any bus that obeys the laws.
use lib_tpm.Base.{
  ℕ, zero, suc, ◌+◌, ◌≤◌, ◌<◌, ◌≡◌, refl, sym, subst, ◌∙◌, none, some, length, set?-some, ltb,
  ltb→lt, tests, arith,
}
use lib_tpm.Outcome.Spec.{
  Spec, Spec-bind, Spec-pure, Spec-pre, Spec-post, Spec-choice, Spec-if, Spec-fact, Spec-deref,
}
use lib_tpm.Buffer.{TpmCmd}
use lib_tpm.Bus.{RegisterBus}
use lib_tpm.Bus.Laws.{ReadLaws, Safe, read_byte_keeps}
use lib_tpm.Registers.{TpmChipData, tpm_header_size}
use lib_tpm.Fifo.Wait.{tpm2_wait_reg_bits-Spec, tpm2_fifo_get_burstcount-Spec}
use lib_tpm.Fifo.Receive.{
  ReadState, read_one, read_burst, read_loop, read_available, tpm2_fifo_read_data,
}

-- How far a state of the loops has come since another one.
pub record Progress (read_size : ℕ) (r r' : ReadState) : Type 0 where
  pub same_array : length r'.read_data ≡ length r.read_data
  pub in_step : r'.size + r.loop_index ≡ r.size + r'.loop_index
  pub forward : r.loop_index ≤ r'.loop_index
  pub below : r'.loop_index ≤ read_size

Progress-refl : (n : ℕ) (r : ReadState) → r.loop_index ≤ n → Progress n r r
Progress-refl n r below = record {
  same_array = refl;
  in_step = refl;
  forward = omega arith;
  below = below;
}

Progress-trans :
    (n : ℕ) (r r' r'' : ReadState) → Progress n r r' → Progress n r' r'' → Progress n r r''
Progress-trans n r r' r'' p q = record {
  same_array = q.same_array ∙ p.same_array;
  in_step = let a = p.in_step in let b = q.in_step in omega arith;
  forward = let a = p.forward in let b = q.forward in omega arith;
  below = q.below;
}

moved_on :
    (n : ℕ) (r r' r'' : ReadState)
    → r.loop_index < r'.loop_index
    → Progress n r' r''
    → r.loop_index < r''.loop_index
moved_on n r r' r'' lt q = let b = q.forward in omega arith

module _ {S : Type 0} {bus : RegisterBus S} {polls : ℕ} (laws : ReadLaws bus polls) where
  read_one-Safe :
      (base read_size : ℕ) (r : ReadState)
      → r.loop_index < read_size
      → read_size ≤ length r.read_data
      → Spec laws.I
          (read_one bus base r)
          (λ r' s. laws.I s × (Progress read_size r r' × (r.loop_index < r'.loop_index)))
          (Safe laws.I)
  unfolding read_one
  read_one-Safe base read_size r lt fits = Spec-bind _ (read_byte_keeps laws _) λ byte.
      let (ys, e, l) = set?-some r.read_data r.loop_index byte (omega arith) in
      Spec-deref _ ys _ e (
        Spec-pure _ λ s i. (
          i,
          (
            record {
              same_array = l;
              in_step = omega arith;
              forward = omega arith;
              below = omega arith;
            },
            omega arith,
          ),
        ))

  read_burst-Safe :
      (burstcnt base read_size : ℕ) (r : ReadState)
      → r.loop_index ≤ read_size
      → read_size ≤ length r.read_data
      → Spec laws.I
          (read_burst bus burstcnt base read_size r)
          (λ r' s.
            laws.I s
            × (Progress read_size r r'
                × (0 < burstcnt → r.loop_index < read_size → r.loop_index < r'.loop_index)))
          (Safe laws.I)
  unfolding read_burst
  read_burst-Safe zero base read_size r le fits =
      Spec-pure r λ s i. (i, (Progress-refl _ r le, λ p. absurd (omega arith)))
  read_burst-Safe (suc burstcnt) base read_size r le fits =
      Spec-choice (ltb r.loop_index read_size) _ _
        (λ more. Spec-bind _ (read_one-Safe base read_size r (ltb→lt _ _ more) fits) λ r'.
          Spec-fact _ λ (p, step).
            Spec-post _ _
              (λ r'' s q. (
                q.0,
                (Progress-trans _ r r' r'' p q.1.0, λ _ _. moved_on read_size r r' r'' step q.1.0),
              ))
              (λ x s q. q)
              (read_burst-Safe burstcnt base read_size r' p.below
                (subst (λ k. read_size ≤ k) (sym p.same_array) fits)))
        λ done. Spec-pure r λ s i. (i, (Progress-refl _ r le, λ _ p. absurd (omega (tests, done))))

  -- Every round moves on, so `read_size` rounds reach `read_size`.
  read_loop-Safe :
      (rounds : ℕ) (chip : TpmChipData) (base read_size : ℕ) (r : ReadState)
      → read_size ≤ r.size + rounds
      → r.loop_index ≤ r.size
      → r.loop_index ≤ read_size
      → read_size ≤ length r.read_data
      → Spec laws.I
          (read_loop bus polls rounds chip base read_size r)
          (λ r' s. laws.I s × (Progress read_size r r' × (read_size ≤ r'.size)))
          (Safe laws.I)
  unfolding read_loop
  read_loop-Safe zero chip base read_size r enough le below fits =
      Spec-if (ltb r.size read_size) _ _ (λ more. absurd (omega (tests, more)))
        λ done. Spec-pure r λ s i. (i, (Progress-refl _ r below, omega (tests, done)))
  read_loop-Safe (suc rounds) chip base read_size r enough le below fits =
      Spec-choice (ltb r.size read_size) _ _
        (λ more. Spec-bind _ (tpm2_fifo_get_burstcount-Spec bus polls laws chip) λ burstcnt.
          Spec-fact _ λ pos.
            Spec-bind _ (read_burst-Safe burstcnt base read_size r below fits) λ r'.
              Spec-fact _ λ (p, step).
                let a = p.in_step in
                let b = p.same_array in
                let step' = step pos (omega (tests, more)) in
                Spec-post _ _ (λ r'' s q. (q.0, (Progress-trans _ r r' r'' p q.1.0, q.1.1)))
                  (λ x s q. q)
                  (read_loop-Safe rounds chip base read_size r' (omega arith) (omega arith) p.below
                    (subst (λ k. read_size ≤ k) (sym b) fits)))
        λ done. Spec-pure r λ s i. (i, (Progress-refl _ r below, omega (tests, done)))

  read_available-Safe :
      (chip : TpmChipData) (base read_size : ℕ) (r : ReadState)
      → r.loop_index ≤ r.size
      → r.loop_index ≤ read_size
      → read_size ≤ length r.read_data
      → Spec laws.I
          (read_available bus polls chip base read_size r)
          (λ r' s. laws.I s × (Progress read_size r r' × (read_size ≤ r'.size)))
          (Safe laws.I)
  unfolding read_available
  read_available-Safe chip base read_size r le below fits =
      Spec-bind _ (tpm2_wait_reg_bits-Spec bus polls laws _ _ _) λ status.
        Spec-pre laws.I (λ s h. h.0)
          (read_loop-Safe read_size chip base read_size r (omega arith) le below fits)

-- What the header's read and the data's read leave.
abbrev pub HeaderRead : TpmCmd → TpmCmd × ℕ → Type 0
HeaderRead buf (buf', size) =
    (length buf'.header ≡ length buf.header)
    × ((buf'.data_bytes ≡ buf.data_bytes) × (size ≡ tpm_header_size))

abbrev pub DataRead : TpmCmd → ℕ → TpmCmd × ℕ → Type 0
DataRead buf n (buf', size) =
    (buf'.header ≡ buf.header)
    × ((length buf'.data_bytes ≡ length buf.data_bytes)
        × ((n ≤ size) × (size ≤ n + tpm_header_size)))

module _ {S : Type 0} {bus : RegisterBus S} {polls : ℕ} (laws : ReadLaws bus polls) where
  pub read_header-Spec :
      (chip : TpmChipData) (buf : TpmCmd) (base : ℕ)
      → length buf.header ≡ tpm_header_size
      → Spec laws.I
          (tpm2_fifo_read_data bus polls chip buf base 0 none)
          (λ r s. laws.I s × HeaderRead buf r)
          (Safe laws.I)
  unfolding tpm2_fifo_read_data
  read_header-Spec chip buf base hl =
      Spec-bind _
        (read_available-Safe laws chip base tpm_header_size
          (record { read_data = buf.header; loop_index = 0; size = 0 }) (omega arith) (omega arith)
          (omega arith))
        λ r.
          Spec-pure _
            λ s (i, (p, enough)). (i, (p.same_array, (refl, ten r p.in_step p.below enough)))
    where
      ten :
          (r : ReadState)
          → r.size + 0 ≡ 0 + r.loop_index
          → r.loop_index ≤ 10
          → 10 ≤ r.size
          → r.size ≡ 10
      ten r a b c = omega arith

  pub read_rest-Spec :
      (chip : TpmChipData) (buf : TpmCmd) (base n : ℕ)
      → n ≤ length buf.data_bytes
      → Spec laws.I
          (tpm2_fifo_read_data bus polls chip buf base tpm_header_size (some n))
          (λ r s. laws.I s × DataRead buf n r)
          (Safe laws.I)
  unfolding tpm2_fifo_read_data
  read_rest-Spec chip buf base n fits =
      Spec-bind _
        (read_available-Safe laws chip base n
          (record { read_data = buf.data_bytes; loop_index = 0; size = 10 }) (omega arith)
          (omega arith) fits)
        λ r.
          Spec-pure _
            λ s (i, (p, enough)). (i, (refl, (p.same_array, (enough, at_most r p.in_step p.below))))
    where
      at_most :
          (r : ReadState) → r.size + 0 ≡ 10 + r.loop_index → r.loop_index ≤ n → r.size ≤ n + 10
      at_most r a b = omega arith
