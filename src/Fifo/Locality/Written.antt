-- ===== src/Fifo/Locality/Written.antt =====
-- What `tpm2_fifo_request_access` and `tpm_interface_close` write to the TPM_ACCESS register.
use lib_tpm.Base.{
  List, ⊤, ℕ, ◌≡◌, refl, ◌∙◌, ap, ◌⊎◌, inl, inr, Bool, true, false, some, [], ◌∷◌, ◌++◌,
  if◌then◌else◌,
}
use lib_tpm.Outcome.{Outcome, ok, fail, Failure, err, fault, hang, raise, continue, err_response}
use lib_tpm.Outcome.Spec.{Spec, Post, Spec-bind, Spec-pure, Spec-post, Spec-also}
use lib_tpm.Endian.{Host}
use lib_tpm.Bus.{RegisterBus}
use lib_tpm.Bus.Laws.{BusLaws, Safe, read_byte_keeps}
use lib_tpm.Bus.Taken.{taken_from, taken-BusLaws, last_taken}
use lib_tpm.Bus.Log.{Log, LogIs, logged, logged-ReadLaws, logged-write, log_write}
use lib_tpm.Registers.{TpmChipData}
use lib_tpm.Fifo.{bits_set, any_bit, tpm2_fifo_request_access, tpm2_fifo_release_locality}
use lib_tpm.Fifo.Wait.{tpm2_wait_reg_bits-Spec}
use lib_tpm.Fifo.Locality.{access_reg, Shown, wait-Shown}
use lib_tpm.Interface.{fifo_ops}
use lib_tpm.Command.Transfer.{tpm_interface_close}

-- One write to the access register.
abbrev pub access_write : Log → ℕ → ℕ → Log
access_write l locality val = l ++ (access_reg locality, val) ∷ []

module _ {S : Type 0} {bus : RegisterBus S} {polls : ℕ} (laws : BusLaws bus polls)
    (chip : TpmChipData) (locality : ℕ) (l : Log) where
  -- The request is out, and the last thing that was read is that the locality is active.
  abbrev pub Asked : TpmChipData → S × Log → Type 0
  Asked chip' st =
      LogIs laws.I (access_write l locality 0x02) st
      × ((chip' ≡ record chip { locality = locality })
          × Shown (logged bus) (access_reg locality) 0x20 st)

  -- The request may be out.
  abbrev pub Unfinished : Failure → S × Log → Type 0
  Unfinished (err e) st = laws.I st.0 × ((st.1 ≡ l) ⊎ (st.1 ≡ access_write l locality 0x02))
  Unfinished fault st = ⊥
  Unfinished hang st = ⊥

  unwritten : (x : Failure) (st : S × Log) → Safe (LogIs laws.I l) x st → Unfinished x st
  unwritten (err e) st h = (h.0, inl h.1)
  unwritten fault st h = h
  unwritten hang st h = h

  written :
      (x : Failure) (st : S × Log)
      → Safe (LogIs laws.I (access_write l locality 0x02)) x st
      → Unfinished x st
  written (err e) st h = (h.0, inr h.1)
  written fault st h = h
  written hang st h = h

  request-Spec :
      Spec
        (LogIs laws.I l)
        (tpm2_fifo_request_access (logged bus) polls chip locality)
        Asked
        Unfinished
  unfolding tpm2_fifo_request_access logged-ReadLaws
  request-Spec =
      Spec-bind _
        (Spec-post _ _ (λ _ st h. h) unwritten (logged-write laws l (access_reg locality) 0x02))
        λ _.
          Spec-bind _
            (Spec-post _ _ (λ _ st h. h) written
              (Spec-also
                (tpm2_wait_reg_bits-Spec (logged bus) polls
                  (logged-ReadLaws laws.reads (access_write l locality 0x02)) _ _ _)
                (wait-Shown (logged bus) _ 0x20 _ polls)))
            λ status. Spec-pure _ λ st h. (h.0.0, (refl, (h.1.0, (status, h.1.1))))

module _ {S : Type 0} {bus : RegisterBus S} {polls : ℕ} (laws : BusLaws bus polls)
    (chip : TpmChipData) (locality : ℕ) (l : Log) where
  -- The bus, with a log of the bytes read from the access register.
  abbrev pub access_taken : RegisterBus (S × List ℕ)
  access_taken = taken_from (access_reg locality) bus

  -- The request is out, and the last byte that was read from the access register has bit 5 set.
  abbrev pub Requested : TpmChipData → (S × List ℕ) × Log → Type 0
  Requested chip' ((s, got), l') =
      (laws.I s × (l' ≡ access_write l locality 0x02))
      × ((chip' ≡ record chip { locality = locality })
          × ((before : List ℕ) × ((status : ℕ) × ((got ≡ before ++ status ∷ [])
                  × (bits_set status 0x20 ≡ true)))))

  -- The request may be out.
  abbrev pub NotGranted : Failure → (S × List ℕ) × Log → Type 0
  NotGranted (err e) ((s, got), l') = laws.I s × ((l' ≡ l) ⊎ (l' ≡ access_write l locality 0x02))
  NotGranted fault st = ⊥
  NotGranted hang st = ⊥

  finish :
      (r : Outcome TpmChipData × ((S × List ℕ) × Log))
      → Post
          (Asked (taken-BusLaws laws (access_reg locality)) chip locality l)
          (Unfinished (taken-BusLaws laws (access_reg locality)) chip locality l)
          r
      → Post Requested NotGranted r
  unfolding taken-BusLaws
  finish (ok chip', st) ((i, w), (e, (st0, (status, (got, bits))))) = (
    (i, w),
    (e, (st0.0.1, (status, (last_taken bus (access_reg locality) st0 status st got, bits)))),
  )
  finish (fail (err e), st) h = h
  finish (fail fault, st) h = h
  finish (fail hang, st) h = h

  -- Over any bus that obeys the laws, `tpm2_fifo_request_access` ends with no undefined
  -- behaviour. If it succeeds, it has written 0x02 (request use) to the access register of the
  -- locality and nothing else, the last byte that it read from that register has bit 5 (active
  -- locality) set, and the chip data has the locality and is otherwise as it was. If it fails, it
  -- has written that byte or nothing.
  pub tpm2_fifo_request_access-Requested :
      (s : S)
      → laws.I s
      → Post Requested NotGranted
          (tpm2_fifo_request_access (logged access_taken) polls chip locality ((s, []), l))
  unfolding taken-BusLaws
  tpm2_fifo_request_access-Requested s i = finish _ (
      (request-Spec (taken-BusLaws laws (access_reg locality)) chip locality l).at ((s, []), l)
        (i, refl))

module _ {S : Type 0} {bus : RegisterBus S} {polls : ℕ} (laws : BusLaws bus polls)
    (chip : TpmChipData) (locality : ℕ) (l : Log) where
  -- The access register shows that the locality is held: bit 2 (a request is pending) or bit 7
  -- (valid).
  abbrev pub held : Outcome ℕ → Bool
  held (ok status) = any_bit status 0x84
  held (fail x) = false

  module _ (s : S) where
    abbrev pub read : Outcome ℕ × S
    read = bus.read_byte (access_reg locality) s

    -- The one write, made when the locality is held.
    abbrev pub Released : ⊤ → S × Log → Type 0
    Released _ st = LogIs laws.I (access_write l locality 0x20) st × (held read.0 ≡ true)

    -- No write: the read failed, the locality is not held, or the write failed.
    abbrev pub NotReleased : Failure → S × Log → Type 0
    NotReleased x st =
        Safe (LogIs laws.I l) x st
        × ((read.0 ≡ fail x)
            ⊎ (((x ≡ err err_response) × (held read.0 ≡ false))
                ⊎ ((held read.0 ≡ true)
                    × ((bus.write_byte (access_reg locality) 0x20 read.1).0 ≡ fail x))))

    write_ends :
        (w : Outcome ⊤) (t : S)
        → (bus.write_byte (access_reg locality) 0x20 read.1).0 ≡ w
        → held read.0 ≡ true
        → Post (λ _. laws.I) (Safe laws.I) (w, t)
        → Post Released NotReleased (log_write (access_reg locality, 0x20) (λ t. (w, t)) (t, l))
    write_ends (ok a) t e is_held i = ((i, refl), is_held)
    write_ends (fail x) t e is_held i = (unlogged x i, inr (inr (is_held, e)))
      where
        unlogged : (x : Failure) → Safe laws.I x t → Safe (LogIs laws.I l) x (t, l)
        unlogged (err e) i = (i, refl)
        unlogged fault i = i
        unlogged hang i = i

    decide :
        (status : ℕ) (b : Bool)
        → read.0 ≡ ok status
        → any_bit status 0x84 ≡ b
        → laws.I read.1
        → Post Released NotReleased (
            (if b then (logged bus).write_byte (access_reg locality) 0x20 else raise err_response)
              (read.1, l))
    decide status true e is_held i =
        let w = bus.write_byte (access_reg locality) 0x20 read.1 in
        write_ends w.0 w.1 refl (ap held e ∙ is_held)
          ((laws.write_byte_safe (access_reg locality) 0x20).at read.1 i)
    decide status false e not_held i = ((i, refl), inr (inl (refl, ap held e ∙ not_held)))

    read_ends :
        (r : Outcome ℕ)
        → read.0 ≡ r
        → Post (λ _. laws.I) (Safe laws.I) (r, read.1)
        → Post Released NotReleased (
            continue r
              (λ status.
                if any_bit status 0x84
                then (logged bus).write_byte (access_reg locality) 0x20
                else raise err_response)
              (read.1, l))
    read_ends (ok status) e i = decide status (any_bit status 0x84) e refl i
    read_ends (fail x) e i = (unlogged x i, inl e)
      where
        unlogged : (x : Failure) → Safe laws.I x read.1 → Safe (LogIs laws.I l) x (read.1, l)
        unlogged (err e) i = (i, refl)
        unlogged fault i = i
        unlogged hang i = i

    -- Over any bus that obeys the laws, `tpm_interface_close` with the FIFO interface ends with no
    -- undefined behaviour. If it succeeds, the access register of the locality read as held (bit
    -- 2 or bit 7), and it has written 0x20 (relinquish) to that register and nothing else. If it
    -- fails, it has written nothing, and either the read failed with that failure, or the
    -- register did not read as held and the failure is TPM_ERR_RESPONSE, or it did and the write
    -- failed with that failure.
    pub tpm_interface_close-Released :
        (h : Host)
        → laws.I s
        → Post Released NotReleased
            (tpm_interface_close (some (fifo_ops h (logged bus) polls)) chip locality (s, l))
    unfolding tpm_interface_close fifo_ops tpm2_fifo_release_locality
    tpm_interface_close-Released h i =
        read_ends read.0 refl ((read_byte_keeps laws.reads (access_reg locality)).at s i)
