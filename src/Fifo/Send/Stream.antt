-- ===== src/Fifo/Send/Stream.antt =====
-- The loops of `tpm2_fifo_send` of src/tpm2_fifo.c, over a bus that logs its writes.
use lib_tpm.Base.{
  ℕ, zero, suc, ◌+◌, ◌-◌, ◌≤◌, ◌<◌, ◌≡◌, sym, subst, tests, ap, ◌∙◌, some, List, [], ◌∷◌, ◌++◌, map,
  append_assoc, map-append, length, length-append, get_elem?, get_elem?-some, get_elem?-append_left,
  get_elem?-append_right, take, take-suc, ltb, arith,
}
use lib_tpm.Outcome.{Failure, err, fault, hang}
use lib_tpm.Outcome.Spec.{Spec, Spec-bind, Spec-pure, Spec-post, Spec-choice, Spec-deref}
use lib_tpm.Bus.{RegisterBus}
use lib_tpm.Bus.Laws.{BusLaws, Safe}
use lib_tpm.Bus.Log.{Log, LogIs, logged, logged-write}
use lib_tpm.Registers.{tpm_header_size, tpm_fifo_reg_data_fifo}
use lib_tpm.Fifo.{reg_addr}
use lib_tpm.Fifo.Send.{send_header, send_burst}

-- Writes of bytes to the data register.
abbrev pub fifo_writes : ℕ → List ℕ → Log
fifo_writes base bs = map (λ b. (reg_addr base tpm_fifo_reg_data_fifo, b)) bs

module _ {S : Type 0} {bus : RegisterBus S} {polls : ℕ} (laws : BusLaws bus polls) (base : ℕ)
    (start : Log) (stream : List ℕ) (limit : ℕ) where
  -- The first `i` bytes are out.
  abbrev pub SentIs : ℕ → S × Log → Type 0
  SentIs i = LogIs laws.I (start ++ fifo_writes base (take i stream))

  -- A failure after some of them.
  abbrev pub CutShort : Failure → S × Log → Type 0
  CutShort (err e) st =
      laws.I st.0 × ((n : ℕ) × (n ≤ limit) × (st.1 ≡ start ++ fifo_writes base (take n stream)))
  CutShort fault st = ⊥
  CutShort hang st = ⊥

  pub cut_at :
      (i : ℕ) → i ≤ limit → (x : Failure) (st : S × Log) → Safe (SentIs i) x st → CutShort x st
  cut_at i le (err e) st h = (h.0, (i, le, h.1))
  cut_at i le fault st h = h
  cut_at i le hang st h = h

  sent_one :
      (i byte : ℕ)
      → get_elem? stream i ≡ some byte
      → (start ++ fifo_writes base (take i stream))
          ++ (reg_addr base tpm_fifo_reg_data_fifo, byte) ∷ []
        ≡ start ++ fifo_writes base (take (i + 1) stream)
  sent_one i byte e =
      let s : i + 1 ≡ suc i = omega arith in
      rw s (rw (take-suc stream i e) (simp (map-append, append_assoc)))

  -- The next byte of the stream goes out.
  send_one :
      (i byte : ℕ)
      → i < limit
      → get_elem? stream i ≡ some byte
      → Spec
          (SentIs i)
          ((logged bus).write_byte (reg_addr base tpm_fifo_reg_data_fifo) byte)
          (λ _. SentIs (i + 1))
          CutShort
  send_one i byte lt e =
      Spec-post _ _ (λ _ st h. (h.0, h.1 ∙ sent_one i byte e)) (cut_at i (omega arith))
        (logged-write laws _ _ byte)

  -- The header's loop, over an array that holds the stream's first bytes.
  pub send_header-sends :
      (left i : ℕ) (header_data rest : List ℕ)
      → stream ≡ header_data ++ rest
      → i + left ≤ length header_data
      → i + left ≤ limit
      → Spec
          (SentIs i)
          (send_header (logged bus) left base i header_data)
          (λ _. SentIs (i + left))
          CutShort
  unfolding send_header
  send_header-sends zero i header_data rest e fits lim =
      let z : i ≡ i + 0 = omega arith in Spec-pure tt λ st h. subst (λ k. SentIs k st) z h
  send_header-sends (suc left) i header_data rest e fits lim =
      let (byte, got) = get_elem?-some header_data i (omega arith) in
      let got' : get_elem? stream i ≡ some byte =
        ap (λ t. get_elem? t i) e ∙ get_elem?-append_left header_data rest i (omega arith) ∙ got in
      let room : length header_data ≤ length stream =
        omega (arith, ap length e, length-append header_data rest) in
      let s : i + 1 + left ≡ i + suc left = omega arith in
      Spec-deref _ byte _ got (
        Spec-bind _ (send_one i byte (omega arith) got') λ _.
          Spec-post _ _ (λ _ st h. subst (λ k. SentIs k st) s h) (λ x st h. h)
            (send_header-sends left (i + 1) header_data rest e (omega arith) (omega arith)))

  data_of :
      (i : ℕ) (header_data data_bytes : List ℕ)
      → stream ≡ header_data ++ data_bytes
      → length header_data ≡ tpm_header_size
      → tpm_header_size ≤ i
      → get_elem? data_bytes (i - tpm_header_size) ≡ get_elem? stream i
  data_of i header_data data_bytes e hl lo = sym (
      ap (λ t. get_elem? t i) e
      ∙ get_elem?-append_right header_data data_bytes i (omega arith)
      ∙ ap (λ (k : ℕ). get_elem? data_bytes (i - k)) hl)

  -- One burst of data bytes: it stops at `len`, or moves on by one byte at least.
  pub send_burst-sends :
      (burstcnt i len : ℕ) (header_data data_bytes : List ℕ)
      → stream ≡ header_data ++ data_bytes
      → length header_data ≡ tpm_header_size
      → tpm_header_size ≤ i
      → i ≤ len
      → len ≤ limit
      → limit ≤ length stream
      → Spec
          (SentIs i)
          (send_burst (logged bus) burstcnt base i len data_bytes)
          (λ i' st. SentIs i' st × (i ≤ i') × (i' ≤ len) × (0 < burstcnt → i < len → i < i'))
          CutShort
  unfolding send_burst
  send_burst-sends zero i len header_data data_bytes e hl lo hi fits room =
      Spec-pure i λ st h. (h, omega arith, omega arith, λ p. absurd (omega arith))
  send_burst-sends (suc burstcnt) i len header_data data_bytes e hl lo hi fits room =
      Spec-choice (ltb i len) _ _
        (λ more.
          let (byte, got) = get_elem?-some stream i (omega (tests, more)) in
          let at_data : get_elem? data_bytes (i - tpm_header_size) ≡ some byte =
            data_of i header_data data_bytes e hl lo ∙ got in
          Spec-deref _ byte _ at_data (
            Spec-bind _ (send_one i byte (omega (tests, more)) got) λ _.
              Spec-post _ _ (λ i' st h. (h.0, omega arith, h.2, λ _ _. omega arith)) (λ x st h. h)
                (send_burst-sends burstcnt (i + 1) len header_data data_bytes e hl (omega arith)
                  (omega (tests, more)) fits room)))
        λ done.
          Spec-pure i λ st h. (h, omega arith, omega arith, λ _ p. absurd (omega (tests, done)))
