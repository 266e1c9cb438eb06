-- ===== src/Fifo/Send/Total.antt =====
-- `tpm2_fifo_send` as a whole, over a bus that logs its writes.
use lib_tpm.Base.{
  ⊤, ℕ, ◌≤◌, ◌≡◌, refl, ap, ◌⊎◌, inl, inr, if◌then◌else◌, sym, subst, ◌∙◌, true, false, List, [],
  ◌∷◌, ◌++◌, append-nil, length, take, ltb, tests, arith,
}
use lib_tpm.Outcome.{Outcome, ok, fail, Failure, err, fault, hang, raise_if, ◌>>◌, invalid_param}
use lib_tpm.Outcome.Spec.{
  Spec, Post, Spec-bind, Spec-pure, Spec-pre, Spec-post, Spec-if, Spec-fact, Spec-raise_if,
}
use lib_tpm.Endian.{Host}
use lib_tpm.Buffer.{TpmCmd, size_of}
use lib_tpm.Bus.{RegisterBus}
use lib_tpm.Bus.Laws.{BusLaws, Safe, read_byte_keeps}
use lib_tpm.Bus.Log.{Log, LogIs, logged, logged-ReadLaws, logged-write}
use lib_tpm.Registers.{
  TpmChipData, tpm_header_size, tpm_fifo_reg_status, tpm_stat_go, tpm_stat_command_ready,
}
use lib_tpm.Fifo.{reg_addr, any_bit, base_of, tpm2_fifo_prepare}
use lib_tpm.Fifo.Wait.{tpm2_wait_reg_bits-Spec}
use lib_tpm.Fifo.Send.{send_header, send_data, send_go, prepare_unless_ready, tpm2_fifo_send}
use lib_tpm.Fifo.Send.Stream.{fifo_writes, SentIs, CutShort, send_header-sends}
use lib_tpm.Fifo.Send.Rounds.{Complete, send_data-sends, send_go-sends}

-- The write that asks for TPM_STAT_COMMAND_READY: made if the status that was read does not show
-- the TPM ready.
abbrev pub opening : ℕ → Outcome ℕ → Log
opening base (ok status) =
    if any_bit status tpm_stat_command_ready
    then []
    else (reg_addr base tpm_fifo_reg_status, tpm_stat_command_ready) ∷ []
opening base (fail x) = []

module _ {S : Type 0} {bus : RegisterBus S} {polls : ℕ} (laws : BusLaws bus polls) (h : Host)
    (chip : TpmChipData) (buf : TpmCmd) (l : Log) where
  abbrev wire : List ℕ
  wire = buf.header ++ buf.data_bytes

  -- `status` is what the first read of the status register gave.
  module _ (status : Outcome ℕ) where
    -- The whole command is in the log, with TPM_STAT_GO behind it.
    abbrev pub SentWhole : ⊤ → S × Log → Type 0
    SentWhole _ st =
        (laws.I st.0
          × (st.1
              ≡ ((l ++ opening (base_of chip) status)
                  ++ fifo_writes (base_of chip) (take (size_of h buf) wire))
                ++ (reg_addr (base_of chip) tpm_fifo_reg_status, tpm_stat_go) ∷ []))
        × Complete bus (base_of chip) st

    -- After an error nothing is in the log, or the opening and a prefix of the command.
    abbrev pub SentPart : Failure → S × Log → Type 0
    SentPart (err e) st =
        laws.I st.0
        × ((st.1 ≡ l)
            ⊎ ((n : ℕ) × (n ≤ size_of h buf)
                × (st.1
                    ≡ (l ++ opening (base_of chip) status)
                      ++ fifo_writes (base_of chip) (take n wire))))
    SentPart fault st = ⊥
    SentPart hang st = ⊥

    cut-part :
        (x : Failure) (st : S × Log)
        → CutShort laws
            (base_of chip)
            (l ++ opening (base_of chip) status)
            wire
            (size_of h buf)
            x
            st
        → SentPart x st
    cut-part (err e) st c = (c.0, inr c.1)
    cut-part fault st c = c
    cut-part hang st c = c

    -- Nothing of the command is out yet.
    before-part :
        (x : Failure) (st : S × Log)
        → Safe (LogIs laws.I (l ++ opening (base_of chip) status)) x st
        → SentPart x st
    before-part (err e) st c =
        (c.0, inr (0, omega arith, c.1 ∙ sym (append-nil (l ++ opening (base_of chip) status))))
    before-part fault st c = c
    before-part hang st c = c

    start-part : (x : Failure) (st : S × Log) → Safe (LogIs laws.I l) x st → SentPart x st
    start-part (err e) st c = (c.0, inl c.1)
    start-part fault st c = c
    start-part hang st c = c

  abbrev status_write : ℕ × ℕ
  status_write = (reg_addr (base_of chip) tpm_fifo_reg_status, tpm_stat_command_ready)

  -- The opening, by whether the TPM is ready.
  opening_ready :
      (status : ℕ)
      → any_bit status tpm_stat_command_ready ≡ true
      → l ≡ l ++ opening (base_of chip) (ok status)
  opening_ready status e =
      sym (ap (λ b. l ++ (if b then [] else status_write ∷ [])) e ∙ append-nil l)

  opening_asked :
      (status : ℕ)
      → any_bit status tpm_stat_command_ready ≡ false
      → l ++ status_write ∷ [] ≡ l ++ opening (base_of chip) (ok status)
  opening_asked status e = sym (ap (λ b. l ++ (if b then [] else status_write ∷ [])) e)

  prepare-opens :
      (status : ℕ)
      → Spec
          (LogIs laws.I l)
          (prepare_unless_ready (logged bus) polls chip status)
          (λ _. LogIs laws.I (l ++ opening (base_of chip) (ok status)))
          (SentPart (ok status))
  unfolding prepare_unless_ready tpm2_fifo_prepare logged-ReadLaws
  prepare-opens status =
      let opened = l ++ opening (base_of chip) (ok status) in
      Spec-if (any_bit status tpm_stat_command_ready) _ _
        (λ e. Spec-pure tt λ st c. (c.0, c.1 ∙ opening_ready status e))
        λ e.
          Spec-bind _
            (Spec-post _ _ (λ _ st c. (c.0, c.1 ∙ opening_asked status e)) (start-part (ok status))
              (logged-write laws l _ _))
            λ _.
              Spec-bind _
                (Spec-post _ _ (λ _ st c. c) (before-part (ok status))
                  (tpm2_wait_reg_bits-Spec (logged bus) polls (logged-ReadLaws laws.reads opened) _
                    _ _))
                λ _. Spec-pure tt λ st c. c.0

  -- The first read, from a known state.
  first_read :
      (r : Outcome ℕ) (s : S)
      → Post (λ _. laws.I) (Safe laws.I) (r, s)
      → Post (λ status st. LogIs laws.I l st × (r ≡ ok status)) (SentPart r) (r, (s, l))
  first_read (ok status) s i = ((i, refl), refl)
  first_read (fail x) s i = start-part (fail x) x (s, l) (failed x i)
    where
      failed : (x : Failure) → Safe laws.I x s → Safe (LogIs laws.I l) x (s, l)
      failed (err e) i = (i, refl)
      failed fault i = i
      failed hang i = i

  module _ (hl : length buf.header ≡ tpm_header_size) (lo : tpm_header_size ≤ size_of h buf)
      (hi : size_of h buf ≤ length wire) where
    command-Spec :
        (status : Outcome ℕ)
        → let opened = l ++ opening (base_of chip) status in
          Spec
            (LogIs laws.I opened)
            (do
              send_header (logged bus) tpm_header_size (base_of chip) 0 buf.header
              raise_if (ltb (size_of h buf) tpm_header_size) invalid_param
              send_data
                  (logged bus)
                  polls
                  (size_of h buf)
                  chip
                  tpm_header_size
                  (size_of h buf)
                  buf.data_bytes
              send_go (logged bus) polls chip)
            (SentWhole status)
            (SentPart status)
    command-Spec status =
        let base = base_of chip in
        let opened = l ++ opening base status in
        let len = size_of h buf in
        Spec-pre (SentIs laws base opened wire len 0) (λ st c. (c.0, c.1 ∙ sym (append-nil opened)))
          (Spec-post
            (λ _ st.
              LogIs laws.I
                ((opened ++ fifo_writes base (take len wire))
                  ++ (reg_addr base tpm_fifo_reg_status, tpm_stat_go) ∷ [])
                st
              × Complete bus base st)
            (CutShort laws base opened wire len) (λ _ st c. c) (cut-part status)
            (Spec-bind _
              (send_header-sends laws base opened wire len tpm_header_size 0 buf.header
                buf.data_bytes refl (omega arith) lo)
              λ _.
                Spec-bind _
                  (Spec-raise_if (ltb len tpm_header_size) invalid_param
                    λ st c small. absurd (omega (tests, small)))
                  λ _.
                    Spec-pre (SentIs laws base opened wire len tpm_header_size) (λ st c. c.0)
                      (Spec-bind _
                        (send_data-sends laws chip opened wire buf.header buf.data_bytes len refl hl
                          hi len tpm_header_size (omega arith) lo (omega arith))
                        λ _.
                          send_go-sends laws chip opened wire buf.header buf.data_bytes len refl hl
                            hi)))

    send-Spec :
        (s : S)
        → laws.I s
        → let status = (bus.read_byte (reg_addr (base_of chip) tpm_fifo_reg_status) s).0 in
          Spec
            (λ st. st ≡ (s, l))
            (tpm2_fifo_send (logged bus) polls h chip buf)
            (SentWhole status)
            (SentPart status)
    unfolding tpm2_fifo_send logged-ReadLaws
    send-Spec s i =
        let reg = reg_addr (base_of chip) tpm_fifo_reg_status in
        let r = bus.read_byte reg s in
        Spec-bind (λ status st. LogIs laws.I l st × (r.0 ≡ ok status))
          {m = (logged bus).read_byte reg}
          (record {
            at = λ st e. rw e (first_read r.0 r.1 ((read_byte_keeps laws.reads reg).at s i));
          })
          λ status. Spec-fact _ λ e.
            Spec-post _ _ (λ a st c. subst (λ o. SentWhole o a st) (sym e) c)
              (λ x st c. subst (λ o. SentPart o x st) (sym e) c)
              (Spec-bind _ (prepare-opens status) λ _. command-Spec (ok status))

-- Over any bus that obeys the laws, and for a command whose header has ten bytes and whose size
-- field lies between ten and the length of the buffer, `tpm2_fifo_send` ends with no undefined
-- behaviour. If it succeeds, the register writes are: TPM_STAT_COMMAND_READY to the status
-- register, exactly if the status read first does not show it; every byte of the command, in
-- order, to the data register; TPM_STAT_GO to the status register, written in the state of a read
-- of the status that showed bit 7 (valid) and not bit 3 (more data is expected). If it fails, the
-- register writes that succeeded are none, or the first of these and a prefix of the command, and
-- TPM_STAT_GO is not among them.
pub tpm2_fifo_send-sends :
    {S : Type 0} {bus : RegisterBus S} {polls : ℕ} (laws : BusLaws bus polls) (h : Host)
    (chip : TpmChipData) (buf : TpmCmd) (s : S) (l : Log)
    → laws.I s
    → length buf.header ≡ tpm_header_size
    → tpm_header_size ≤ size_of h buf
    → size_of h buf ≤ length (buf.header ++ buf.data_bytes)
    → let status = (bus.read_byte (reg_addr (base_of chip) tpm_fifo_reg_status) s).0 in
      Post
        (SentWhole laws h chip buf l status)
        (SentPart laws h chip buf l status)
        (tpm2_fifo_send (logged bus) polls h chip buf (s, l))
tpm2_fifo_send-sends laws h chip buf s l i hl lo hi =
    (send-Spec laws h chip buf l hl lo hi s i).at (s, l) refl
