-- ===== src/Fifo/Receive/Data.antt =====
-- `tpm2_fifo_read_data` of src/tpm2_fifo.c, over a bus that logs the bytes read from the data
-- register.
use lib_tpm.Base.{
  ℕ, zero, suc, ◌+◌, ◌≤◌, ◌≡◌, refl, sym, ap, ◌∙◌, none, some, List, [], ◌∷◌, ◌++◌, append-nil,
  length, drop, arith,
}
use lib_tpm.Outcome.Spec.{Spec, Post, Spec-bind, Spec-pure, Spec-exists, Spec-fact}
use lib_tpm.Buffer.{TpmCmd}
use lib_tpm.Bus.{RegisterBus}
use lib_tpm.Bus.Laws.{ReadLaws, Safe}
use lib_tpm.Bus.Log.{LogIs}
use lib_tpm.Bus.Taken.{taken_from}
use lib_tpm.Registers.{TpmChipData, tpm_header_size}
use lib_tpm.Fifo.{reg_addr, base_of}
use lib_tpm.Fifo.Receive.{tpm2_fifo_read_data}
use lib_tpm.Fifo.Receive.Content.{read_available-Holds}

drop-all : (xs : List ℕ) (k : ℕ) → length xs ≤ k → drop k xs ≡ []
drop-all [] zero h = refl
drop-all [] (suc k) h = refl
drop-all (x ∷ xs) zero h = absurd (omega arith)
drop-all (x ∷ xs) (suc k) h = drop-all xs k (omega arith)

-- Bytes that fill the array are all it holds.
filled :
    (bs orig xs : List ℕ) → xs ≡ bs ++ drop (length bs) orig → length orig ≤ length bs → bs ≡ xs
filled bs orig xs e le = sym (e ∙ ap (λ t. bs ++ t) (drop-all orig (length bs) le) ∙ append-nil bs)

module _ {S : Type 0} {bus : RegisterBus S} {polls : ℕ} (laws : ReadLaws bus polls)
    (chip : TpmChipData) (buf : TpmCmd) (l : List ℕ) where
  -- The bus, with a log of the bytes read from the data register.
  abbrev pub fifo_taken : RegisterBus (S × List ℕ)
  fifo_taken = taken_from (reg_addr (base_of chip) 0x24) bus

  abbrev pub Unlogged : S × List ℕ → Type 0
  Unlogged st = laws.I st.0

  -- The header is the ten bytes that were read, in order.
  abbrev pub HeaderTaken : TpmCmd × ℕ → S × List ℕ → Type 0
  HeaderTaken (buf', size) st =
      LogIs laws.I (l ++ buf'.header) st
      × ((length buf'.header ≡ 10) × ((buf'.data_bytes ≡ buf.data_bytes) × (size ≡ 10)))

  -- The data begins with the bytes that were read, in order, and is as it was behind them.
  abbrev pub DataTaken : ℕ → TpmCmd × ℕ → S × List ℕ → Type 0
  DataTaken n (buf', size) st =
      (bs : List ℕ) × (LogIs laws.I (l ++ bs) st
        × ((buf'.data_bytes ≡ bs ++ drop (length bs) buf.data_bytes)
            × ((buf'.header ≡ buf.header)
                × ((size ≡ 10 + length bs) × ((n ≤ size) × (length bs ≤ n))))))

  header-Spec :
      length buf.header ≡ tpm_header_size
      → Spec
          (LogIs laws.I l)
          (tpm2_fifo_read_data fifo_taken polls chip buf (base_of chip) 0 none)
          HeaderTaken
          (Safe Unlogged)
  unfolding tpm2_fifo_read_data
  header-Spec hl =
      Spec-bind _
        (read_available-Holds laws chip buf.header l 0 10 (omega arith)
          (record { read_data = buf.header; loop_index = 0; size = 0 })
          (record { content = refl; index = refl; counted = refl; below = omega arith }))
        λ r. Spec-exists _ λ bs. Spec-fact _ λ (f, enough).
          let k = f.counted in
          let b = f.below in
          let e : bs ≡ r.read_data = filled bs buf.header r.read_data f.content (omega arith) in
          Spec-pure _ λ st h.
            ((h.0, h.1 ∙ ap (λ t. l ++ t) e), (omega (arith, ap length e), (refl, omega arith)))

  pub data-Spec :
      (n : ℕ)
      → n ≤ length buf.data_bytes
      → Spec
          (LogIs laws.I l)
          (tpm2_fifo_read_data fifo_taken polls chip buf (base_of chip) 10 (some n))
          (DataTaken n)
          (Safe Unlogged)
  unfolding tpm2_fifo_read_data
  data-Spec n room =
      Spec-bind _
        (read_available-Holds laws chip buf.data_bytes l 10 n room
          (record { read_data = buf.data_bytes; loop_index = 0; size = 10 })
          (record { content = refl; index = refl; counted = refl; below = omega arith }))
        λ r. Spec-exists _ λ bs. Spec-fact _ λ (f, enough).
          let k = f.counted in
          Spec-pure _ λ st h. (bs, (h, (f.content, (refl, (f.counted, (omega arith, f.below))))))

  -- Over any bus that obeys the laws for reads and timers, the read of a header into an array of
  -- ten bytes ends and has no undefined behaviour. If it succeeds, it has read exactly ten bytes
  -- from the data register, the header is these bytes in order, the data is as it was, and the
  -- counted size is ten.
  pub tpm2_fifo_read_data-header :
      (s : S)
      → laws.I s
      → length buf.header ≡ 10
      → Post HeaderTaken
          (Safe Unlogged)
          (tpm2_fifo_read_data fifo_taken polls chip buf (base_of chip) 0 none (s, l))
  tpm2_fifo_read_data-header s i hl = (header-Spec hl).at (s, l) (i, refl)

  -- Over any bus that obeys the laws for reads and timers, once the header's ten bytes are in, the
  -- read of a response of `n` bytes, where `n` is at most the length of the data array, ends and
  -- has no undefined behaviour. If it succeeds, it has read at least `n - 10` and at most `n` bytes
  -- from the data register, the data array begins with these bytes in order and is as it was
  -- behind them, the header is as it was, and the counted size is ten more than the bytes read.
  pub tpm2_fifo_read_data-data :
      (n : ℕ) (s : S)
      → laws.I s
      → n ≤ length buf.data_bytes
      → Post
          (DataTaken n)
          (Safe Unlogged)
          (tpm2_fifo_read_data fifo_taken polls chip buf (base_of chip) 10 (some n) (s, l))
  tpm2_fifo_read_data-data n s i room = (data-Spec n room).at (s, l) (i, refl)
