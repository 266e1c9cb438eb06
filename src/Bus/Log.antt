-- ===== src/Bus/Log.antt =====
-- A register bus that keeps a record of the writes that succeeded, beside any bus.
use lib_tpm.Base.{⊤, ℕ, ◌≡◌, ap, List, [], ◌∷◌, ◌++◌}
use lib_tpm.Outcome.{Outcome, ok, fail, Failure, err, fault, hang, M, on_left}
use lib_tpm.Outcome.Spec.{Spec, Post, Spec-pre, Spec-post}
use lib_tpm.Bus.{RegisterBus}
use lib_tpm.Bus.Laws.{ReadLaws, BusLaws, Safe}

-- Register addresses and the bytes written to them, oldest first.
abbrev pub Log : Type 0
Log = List (ℕ × ℕ)

abbrev pub log_write : {S : Type 0} → ℕ × ℕ → M S ⊤ → M (S × Log) ⊤
log_write entry m (s, l) =
    let (r, s') = m s in
    elim r [ ok _ ↦ (ok tt, (s', l ++ entry ∷ [])) | fail x ↦ (fail x, (s', l)) ]

abbrev pub logged : {S : Type 0} → RegisterBus S → RegisterBus (S × Log)
logged bus = record {
  write_byte = λ reg val. log_write (reg, val) (bus.write_byte reg val);
  read_byte = λ reg. on_left (bus.read_byte reg);
  read_chunk = λ reg len. on_left (bus.read_chunk reg len);
  timeout_init_us = λ usec. on_left (bus.timeout_init_us usec);
  timeout_elapsed = λ cnt. on_left (bus.timeout_elapsed cnt);
}

-- The log stands at `l`.
abbrev pub LogIs : {S L : Type 0} → (S → Type 0) → L → S × L → Type 0
LogIs I l st = I st.0 × (st.1 ≡ l)

module _ {S : Type 0} {L : Type 0} (I : S → Type 0) (l : L) where
  pub Safe-LogIs : (x : Failure) (s : S) (l' : L) → l' ≡ l → Safe I x s → Safe (LogIs I l) x (s, l')
  Safe-LogIs (err e) s l' p h = (h, p)
  Safe-LogIs fault s l' p h = h
  Safe-LogIs hang s l' p h = h

  -- What leaves the log alone.
  on_left-Post :
      {A : Type 0} (Q : A → S → Type 0) (r : Outcome A) (s : S) (l' : L)
      → l' ≡ l
      → Post Q (Safe I) (r, s)
      → Post (λ a (st : S × L). Q a st.0 × (st.1 ≡ l)) (Safe (LogIs I l)) (r, (s, l'))
  on_left-Post Q (ok a) s l' p h = (h, p)
  on_left-Post Q (fail x) s l' p h = Safe-LogIs x s l' p h

  pub on_left-Spec :
      {A : Type 0} (P : S → Type 0) (m : M S A) (Q : A → S → Type 0)
      → Spec P m Q (Safe I)
      → Spec
          (λ (st : S × L). P st.0 × (st.1 ≡ l))
          (on_left m)
          (λ a st. Q a st.0 × (st.1 ≡ l))
          (Safe (LogIs I l))
  on_left-Spec P m Q k = record {
    at = λ st h. let (r, s') = m st.0 in on_left-Post Q r s' st.1 h.1 (k.at st.0 h.0);
  }

module _ {S : Type 0} (I : S → Type 0) (l : Log) where
  -- A write that succeeds is the newest entry; one that fails leaves no entry.
  log_write-Post :
      (entry : ℕ × ℕ) (r : Outcome ⊤) (s : S) (l' : Log)
      → l' ≡ l
      → Post (λ _ t. I t) (Safe I) (r, s)
      → Post
          (λ _. LogIs I (l ++ entry ∷ []))
          (Safe (LogIs I l))
          (log_write entry (λ t. (r, t)) (s, l'))
  log_write-Post entry (ok a) s l' p h = (h, ap (λ t. t ++ entry ∷ []) p)
  log_write-Post entry (fail x) s l' p h = Safe-LogIs I l x s l' p h

module _ {S : Type 0} {bus : RegisterBus S} {polls : ℕ} where
  -- The logging bus obeys the laws of the bus, and what changes no register leaves the log alone.
  unfoldable pub logged-ReadLaws : ReadLaws bus polls → Log → ReadLaws (logged bus) polls
  logged-ReadLaws laws l = record {
    I = LogIs laws.I l;
    ticks = λ cnt st. laws.ticks cnt st.0;
    read_byte_safe = λ reg cnt n.
        Spec-pre _ (λ st h. ((h.0.0, h.1), h.0.1))
          (Spec-post _ _ (λ a st h. ((h.0.0, h.1), h.0.1)) (λ x st h. h)
            (on_left-Spec laws.I l _ (bus.read_byte reg) _ (laws.read_byte_safe reg cnt n)));
    read_chunk_safe = λ reg len.
        on_left-Spec laws.I l _ (bus.read_chunk reg len) _ (laws.read_chunk_safe reg len);
    timeout_init_safe = λ usec.
        Spec-post _ _ (λ a st h. ((h.0.0, h.1), h.0.1)) (λ x st h. h)
          (on_left-Spec laws.I l _ (bus.timeout_init_us usec) _ (laws.timeout_init_safe usec));
    timeout_elapsed_safe = λ cnt n.
        Spec-pre _ (λ st h. ((h.0.0, h.1), h.0.1))
          (Spec-post _ _ (λ a st h. ((h.0.0, h.1), h.0.1)) (λ x st h. h)
            (on_left-Spec laws.I l _ (bus.timeout_elapsed cnt) _
              (laws.timeout_elapsed_safe cnt n)));
  }

  pub logged-write :
      (laws : BusLaws bus polls) (l : Log) (reg val : ℕ)
      → Spec
          (LogIs laws.I l)
          ((logged bus).write_byte reg val)
          (λ _. LogIs laws.I (l ++ (reg, val) ∷ []))
          (Safe (LogIs laws.I l))
  logged-write laws l reg val = record {
    at = λ st h.
        let (r, s') = bus.write_byte reg val st.0 in
        log_write-Post laws.I l (reg, val) r s' st.1 h.1
          ((laws.write_byte_safe reg val).at st.0 h.0);
  }
