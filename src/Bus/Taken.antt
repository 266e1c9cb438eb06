-- ===== src/Bus/Taken.antt =====
-- A register bus that keeps a record of the bytes that were read from one register, beside any
-- bus.
use lib_tpm.Base.{
  subst, refl, sym, ◌∙◌, ℕ, ◌≡◌, ap, Bool, true, false, ◌==◌, arith, List, [], ◌∷◌, ◌++◌,
}
use lib_tpm.Outcome.{err, fault, hang, Outcome, ok, fail, M, on_left}
use lib_tpm.Outcome.Spec.{Spec, Post, Spec-pre, Spec-post, Spec-choice}
use lib_tpm.Bus.{RegisterBus}
use lib_tpm.Bus.Laws.{ReadLaws, BusLaws, PollLaws, Safe, read_byte_keeps}
use lib_tpm.Bus.Log.{LogIs, Safe-LogIs, on_left-Spec}

-- The byte of a read that succeeds goes behind the bytes taken before.
abbrev pub take_byte : {S : Type 0} → M S ℕ → M (S × List ℕ) ℕ
take_byte m (s, l) =
    let (r, s') = m s in elim r [ ok b ↦ (ok b, (s', l ++ b ∷ [])) | fail x ↦ (fail x, (s', l)) ]

abbrev pub taken_from : {S : Type 0} → ℕ → RegisterBus S → RegisterBus (S × List ℕ)
taken_from data_reg bus = record {
  write_byte = λ reg val. on_left (bus.write_byte reg val);
  read_byte = λ reg. elim (reg == data_reg) [
    | true ↦ take_byte (bus.read_byte reg)
    | false ↦ on_left (bus.read_byte reg)
  ];
  read_chunk = λ reg len. on_left (bus.read_chunk reg len);
  timeout_init_us = λ usec. on_left (bus.timeout_init_us usec);
  timeout_elapsed = λ cnt. on_left (bus.timeout_elapsed cnt);
}

same_reg : (reg : ℕ) → (reg == reg) ≡ false → ⊥
same_reg reg e = ground arith

pub clash : {b : Bool} → b ≡ true → b ≡ false → ⊥
clash e e' = cc

module _ {S : Type 0} {bus : RegisterBus S} {polls : ℕ} (laws : ReadLaws bus polls) (data_reg : ℕ)
    (l : List ℕ) where
  -- Reads of other registers take nothing.
  unfoldable pub taken-PollLaws :
      PollLaws (taken_from data_reg bus) polls (λ reg. (reg == data_reg) ≡ false)
  taken-PollLaws = record {
    I = LogIs laws.I l;
    ticks = λ cnt st. laws.ticks cnt st.0;
    read_byte_safe = λ reg cnt n other.
        Spec-choice (reg == data_reg) _ _ (λ e. absurd (clash e other))
          λ _.
            Spec-pre _ (λ st h. ((h.0.0, h.1), h.0.1))
              (Spec-post _ _ (λ a st h. ((h.0.0, h.1), h.0.1)) (λ x st h. h)
                (on_left-Spec laws.I l _ (bus.read_byte reg) _ (laws.read_byte_safe reg cnt n)));
    timeout_init_safe = λ usec.
        Spec-post _ _ (λ a st h. ((h.0.0, h.1), h.0.1)) (λ x st h. h)
          (on_left-Spec laws.I l _ (bus.timeout_init_us usec) _ (laws.timeout_init_safe usec));
    timeout_elapsed_safe = λ cnt n.
        Spec-pre _ (λ st h. ((h.0.0, h.1), h.0.1))
          (Spec-post _ _ (λ a st h. ((h.0.0, h.1), h.0.1)) (λ x st h. h)
            (on_left-Spec laws.I l _ (bus.timeout_elapsed cnt) _
              (laws.timeout_elapsed_safe cnt n)));
  }

  take_byte-Post :
      (r : Outcome ℕ) (s : S) (l' : List ℕ)
      → l' ≡ l
      → Post (λ _ t. laws.I t) (Safe laws.I) (r, s)
      → Post
          (λ b. LogIs laws.I (l ++ b ∷ []))
          (Safe (LogIs laws.I l))
          (take_byte (λ t. (r, t)) (s, l'))
  take_byte-Post (ok b) s l' p h = (h, ap (λ t. t ++ b ∷ []) p)
  take_byte-Post (fail x) s l' p h = Safe-LogIs laws.I l x s l' p h

  -- A read of the register takes one byte.
  pub taken-read :
      Spec
        (LogIs laws.I l)
        ((taken_from data_reg bus).read_byte data_reg)
        (λ b. LogIs laws.I (l ++ b ∷ []))
        (Safe (LogIs laws.I l))
  taken-read =
      Spec-choice (data_reg == data_reg) _ _
        (λ _. record {
          at = λ st h.
              let (r, s') = bus.read_byte data_reg st.0 in
              take_byte-Post r s' st.1 h.1 ((read_byte_keeps laws data_reg).at st.0 h.0);
        })
        λ e. absurd (same_reg data_reg e)

-- With no regard to what has been taken, the bus obeys the laws of the one beside it.
module _ {S : Type 0} {bus : RegisterBus S} {polls : ℕ} (laws : BusLaws bus polls)
    (data_reg : ℕ) where
  abbrev pub Kept : S × List ℕ → Type 0
  Kept st = laws.I st.0

  left-Post :
      {A : Type 0} (Q : A → S → Type 0) (r : Outcome A) (s : S) (l : List ℕ)
      → Post Q (Safe laws.I) (r, s)
      → Post (λ a (st : S × List ℕ). Q a st.0) (Safe Kept) (r, (s, l))
  left-Post Q (ok a) s l h = h
  left-Post Q (fail (err e)) s l h = h
  left-Post Q (fail fault) s l h = h
  left-Post Q (fail hang) s l h = h

  pub left-Spec :
      {A : Type 0} (P : S → Type 0) (m : M S A) (Q : A → S → Type 0)
      → Spec P m Q (Safe laws.I)
      → Spec (λ (st : S × List ℕ). P st.0) (on_left m) (λ a st. Q a st.0) (Safe Kept)
  left-Spec P m Q k = record {
    at = λ st h. let (r, s') = m st.0 in left-Post Q r s' st.1 (k.at st.0 h);
  }

  take-Post :
      (Q : ℕ → S → Type 0) (r : Outcome ℕ) (s : S) (l : List ℕ)
      → Post Q (Safe laws.I) (r, s)
      → Post (λ a (st : S × List ℕ). Q a st.0) (Safe Kept) (take_byte (λ t. (r, t)) (s, l))
  take-Post Q (ok b) s l h = h
  take-Post Q (fail (err e)) s l h = h
  take-Post Q (fail fault) s l h = h
  take-Post Q (fail hang) s l h = h

  pub take-Spec :
      (P : S → Type 0) (m : M S ℕ) (Q : ℕ → S → Type 0)
      → Spec P m Q (Safe laws.I)
      → Spec (λ (st : S × List ℕ). P st.0) (take_byte m) (λ a st. Q a st.0) (Safe Kept)
  take-Spec P m Q k = record {
    at = λ st h. let (r, s') = m st.0 in take-Post Q r s' st.1 (k.at st.0 h);
  }

  unfoldable pub taken-BusLaws : BusLaws (taken_from data_reg bus) polls
  taken-BusLaws = record {
    reads = record {
      I = Kept;
      ticks = λ cnt st. laws.reads.ticks cnt st.0;
      read_byte_safe = λ reg cnt n.
          Spec-choice (reg == data_reg) _ _
            (λ _. take-Spec _ (bus.read_byte reg) _ (laws.reads.read_byte_safe reg cnt n))
            λ _. left-Spec _ (bus.read_byte reg) _ (laws.reads.read_byte_safe reg cnt n);
      read_chunk_safe =
          λ reg len. left-Spec _ (bus.read_chunk reg len) _ (laws.reads.read_chunk_safe reg len);
      timeout_init_safe =
          λ usec. left-Spec _ (bus.timeout_init_us usec) _ (laws.reads.timeout_init_safe usec);
      timeout_elapsed_safe =
          λ cnt n. left-Spec _ (bus.timeout_elapsed cnt) _ (laws.reads.timeout_elapsed_safe cnt n);
    };
    write_byte_safe =
        λ reg val. left-Spec _ (bus.write_byte reg val) _ (laws.write_byte_safe reg val);
  }

-- The byte that a read gives is the last one taken.
abbrev value_of : Outcome ℕ → ℕ
value_of (ok b) = b
value_of (fail x) = 0

abbrev is_ok : Outcome ℕ → Bool
is_ok (ok b) = true
is_ok (fail x) = false

module _ {S L : Type 0} where
  ends_in :
      (r : Outcome ℕ) (s : S) (got : List ℕ) (l : L) (status : ℕ) (st : (S × List ℕ) × L)
      → on_left (take_byte (λ t. (r, t))) ((s, got), l) ≡ (ok status, st)
      → st.0.1 ≡ got ++ status ∷ []
  ends_in (ok b) s got l status st e =
      let same : b ≡ status = ap (λ t. value_of t.0) e in
      sym (ap (λ t. t.1.0.1) e) ∙ ap (λ (k : ℕ). got ++ k ∷ []) same
  ends_in (fail x) s got l status st e = absurd (clash refl (sym (ap (λ t. is_ok t.0) e)))

itself : (reg : ℕ) → (reg == reg) ≡ true
itself reg = ground arith

module _ {S L : Type 0} (bus : RegisterBus S) (data_reg : ℕ) where
  pub last_taken :
      (st0 : (S × List ℕ) × L) (status : ℕ) (st : (S × List ℕ) × L)
      → on_left ((taken_from data_reg bus).read_byte data_reg) st0 ≡ (ok status, st)
      → st.0.1 ≡ st0.0.1 ++ status ∷ []
  last_taken ((s, got), l) status st e =
      let r = bus.read_byte data_reg s in
      ends_in r.0 r.1 got l status st (
        subst
          (λ b.
            on_left
              (elim b [
                | true ↦ take_byte (bus.read_byte data_reg)
                | false ↦ on_left (bus.read_byte data_reg)
              ])
              ((s, got), l)
            ≡ (ok status, st))
          (itself data_reg) e)
