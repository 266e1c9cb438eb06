-- ===== src/Fifo/Receive/Content.antt =====
-- The loops of `tpm2_fifo_read_data` of src/tpm2_fifo.c, over a bus that logs the bytes read from
-- the data register.
use lib_tpm.Base.{
  ℕ, zero, suc, ◌+◌, ◌≤◌, ◌<◌, ◌≡◌, refl, sym, ap, ◌∙◌, false, some, List, [], ◌∷◌, ◌++◌,
  append-nil, append_assoc, length, length-append, drop, set?, cons?, ltb, tests, arith, ◌==◌,
}
use lib_tpm.Outcome.{Failure, err, fault, hang}
use lib_tpm.Outcome.Spec.{
  Spec, Spec-bind, Spec-pure, Spec-pre, Spec-post, Spec-choice, Spec-if, Spec-fact, Spec-exists,
  Spec-deref,
}
use lib_tpm.Bus.{RegisterBus}
use lib_tpm.Bus.Laws.{ReadLaws, Safe}
use lib_tpm.Bus.Log.{LogIs}
use lib_tpm.Bus.Taken.{taken_from, taken-PollLaws, taken-read}
use lib_tpm.Registers.{TpmChipData, tpm_fifo_reg_data_fifo}
use lib_tpm.Fifo.{reg_addr, base_of}
use lib_tpm.Fifo.Wait.{wait-polls, burstcount-polls}
use lib_tpm.Fifo.Receive.{ReadState, read_one, read_burst, read_loop, read_available}

-- Writing the next element of a prefix that has been written.
set?-next :
    (bs orig : List ℕ) (b : ℕ)
    → length bs < length orig
    → set? (bs ++ drop (length bs) orig) (length bs) b
      ≡ some ((bs ++ b ∷ []) ++ drop (length (bs ++ b ∷ [])) orig)
set?-next [] [] b lt = absurd (omega arith)
set?-next [] (x ∷ orig) b lt = refl
set?-next (y ∷ bs) [] b lt = absurd (omega arith)
set?-next (y ∷ bs) (x ∷ orig) b lt = ap (cons? y) (set?-next bs orig b (omega arith))

-- The loops' variables after the bytes `bs`, over an array that held `orig` at first, when the
-- counted size began at `c`.
pub record Holds (orig : List ℕ) (c n : ℕ) (bs : List ℕ) (r : ReadState) : Type 0 where
  pub content : r.read_data ≡ bs ++ drop (length bs) orig
  pub index : r.loop_index ≡ length bs
  pub counted : r.size ≡ c + length bs
  pub below : length bs ≤ n

module _ {S : Type 0} {bus : RegisterBus S} {polls : ℕ} (laws : ReadLaws bus polls)
    (chip : TpmChipData) (orig : List ℕ) (l : List ℕ) (c n : ℕ) (room : n ≤ length orig) where
  abbrev pub data_reg : ℕ
  data_reg = reg_addr (base_of chip) tpm_fifo_reg_data_fifo

  abbrev pub taken : RegisterBus (S × List ℕ)
  taken = taken_from data_reg bus

  -- The bytes `bs` have been taken from the data register.
  abbrev Took : List ℕ → S × List ℕ → Type 0
  Took bs = LogIs laws.I (l ++ bs)

  abbrev Failed : Failure → S × List ℕ → Type 0
  Failed = Safe (λ st. laws.I st.0)

  loose : (bs : List ℕ) (x : Failure) (st : S × List ℕ) → Safe (Took bs) x st → Failed x st
  loose bs (err e) st h = h.0
  loose bs fault st h = h
  loose bs hang st h = h

  -- The next byte is at its place.
  next :
      (bs : List ℕ) (r : ReadState) (b : ℕ)
      → Holds orig c n bs r
      → length bs < n
      → set? r.read_data r.loop_index b ≡ some ((bs ++ b ∷ []) ++ drop (length (bs ++ b ∷ [])) orig)
  next bs r b f lt =
      ap (λ xs. set? xs r.loop_index b) f.content
      ∙ ap (λ (i : ℕ). set? (bs ++ drop (length bs) orig) i b) f.index
      ∙ set?-next bs orig b (omega arith)

  read_one-Holds :
      (bs : List ℕ) (r : ReadState)
      → Holds orig c n bs r
      → length bs < n
      → Spec
          (Took bs)
          (read_one taken (base_of chip) r)
          (λ r' st. (b : ℕ) × (Took (bs ++ b ∷ []) st × Holds orig c n (bs ++ b ∷ []) r'))
          Failed
  unfolding read_one
  read_one-Holds bs r f lt =
      Spec-bind _ (Spec-post _ _ (λ b st h. h) (loose bs) (taken-read laws data_reg (l ++ bs))) λ b.
        let longer : length (bs ++ b ∷ []) ≡ length bs + 1 = length-append bs (b ∷ []) in
        let i = f.index in
        let k = f.counted in
        Spec-deref _ _ _ (next bs r b f lt) (
          Spec-pure _ λ st h. (
            b,
            (
              (h.0, h.1 ∙ append_assoc l bs (b ∷ [])),
              record {
                content = refl;
                index = omega arith;
                counted = omega arith;
                below = omega arith;
              },
            ),
          ))

  read_burst-Holds :
      (burstcnt : ℕ) (bs : List ℕ) (r : ReadState)
      → Holds orig c n bs r
      → Spec
          (Took bs)
          (read_burst taken burstcnt (base_of chip) n r)
          (λ r' st.
            (bs' : List ℕ) × (Took bs' st
              × (Holds orig c n bs' r'
                  × ((length bs ≤ length bs')
                      × (0 < burstcnt → length bs < n → length bs < length bs')))))
          Failed
  unfolding read_burst
  read_burst-Holds zero bs r f =
      Spec-pure r λ st h. (bs, (h, (f, (omega arith, λ p. absurd (omega arith)))))
  read_burst-Holds (suc burstcnt) bs r f =
      let i = f.index in
      Spec-choice (ltb r.loop_index n) _ _
        (λ more. Spec-bind _ (read_one-Holds bs r f (omega (tests, more))) λ r'. Spec-exists _ λ b.
          Spec-fact _ λ f'.
            let longer : length (bs ++ b ∷ []) ≡ length bs + 1 = length-append bs (b ∷ []) in
            Spec-post _ _
              (λ r'' st (bs', (h, (g, (le, _)))).
                (bs', (h, (g, (omega arith, λ _ _. omega arith)))))
              (λ x st h. h) (read_burst-Holds burstcnt (bs ++ b ∷ []) r' f'))
        λ done.
          Spec-pure r λ st h. (bs, (h, (f, (omega arith, λ _ p. absurd (omega (tests, done))))))

  -- What the loop leaves.
  abbrev pub Ended : ReadState → S × List ℕ → Type 0
  Ended r' st = (bs : List ℕ) × (Took bs st × (Holds orig c n bs r' × (n ≤ c + length bs)))

  other_reg : (reg : ℕ) → reg < 0x24 → (reg_addr (base_of chip) reg == data_reg) ≡ false
  other_reg reg lt = ground arith

  read_loop-Holds :
      (rounds : ℕ) (bs : List ℕ) (r : ReadState)
      → Holds orig c n bs r
      → n ≤ c + length bs + rounds
      → Spec (Took bs) (read_loop taken polls rounds chip (base_of chip) n r) Ended Failed
  unfolding read_loop taken-PollLaws
  read_loop-Holds zero bs r f enough =
      let k = f.counted in
      Spec-if (ltb r.size n) _ _ (λ more. absurd (omega (tests, more)))
        λ done. Spec-pure r λ st h. (bs, (h, (f, omega arith)))
  read_loop-Holds (suc rounds) bs r f enough =
      let k = f.counted in
      Spec-choice (ltb r.size n) _ _
        (λ more.
          Spec-bind _
            (Spec-post _ _ (λ b st h. h) (loose bs)
              (burstcount-polls taken polls (taken-PollLaws laws data_reg (l ++ bs)) chip
                (other_reg 0x19 (omega arith)) (other_reg 0x20 (omega arith))))
            λ burstcnt. Spec-fact _ λ pos. Spec-bind _ (read_burst-Holds burstcnt bs r f) λ r'.
              Spec-exists _ λ bs'. Spec-fact _ λ (f', (le, step)).
                let forward = step pos (omega (tests, more)) in
                read_loop-Holds rounds bs' r' f' (omega arith))
        λ done. Spec-pure r λ st h. (bs, (h, (f, omega (tests, done))))

  pub read_available-Holds :
      (r : ReadState)
      → Holds orig c n [] r
      → Spec (LogIs laws.I l) (read_available taken polls chip (base_of chip) n r) Ended Failed
  unfolding read_available taken-PollLaws
  read_available-Holds r f =
      Spec-bind _
        (Spec-post _ _ (λ b st h. h) (loose [])
          (Spec-pre (Took []) (λ st h. (h.0, h.1 ∙ sym (append-nil l)))
            (wait-polls taken polls (taken-PollLaws laws data_reg (l ++ [])) _ _ _
              (other_reg 0x18 (omega arith)))))
        λ status. Spec-pre (Took []) (λ st h. h.0) (read_loop-Holds n [] r f (omega arith))
