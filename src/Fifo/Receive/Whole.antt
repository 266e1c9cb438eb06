-- ===== src/Fifo/Receive/Whole.antt =====
-- `tpm2_fifo_receive` as a whole, for a response that the data array alone has room for.
use lib_tpm.Base.{
  ℕ, ◌≤◌, ◌≡◌, refl, sym, subst, ap, true, false, none, length, arith, if◌then◌else◌, ◌==◌,
}
use lib_tpm.Outcome.{ok, invalid_param, err_response}
use lib_tpm.Outcome.Spec.{Spec, Post, Spec-bind, Spec-pure, Spec-pre, Spec-if, Spec-raise_if}
use lib_tpm.Endian.{Host}
use lib_tpm.Buffer.{TpmCmd, size_of}
use lib_tpm.Bus.{RegisterBus}
use lib_tpm.Bus.Laws.{ReadLaws, Safe}
use lib_tpm.Registers.{TpmChipData, tpm_header_size, max_cmd_data}
use lib_tpm.Fifo.{base_of}
use lib_tpm.Fifo.Receive.{tpm2_fifo_read_data, receive_rest, tpm2_fifo_receive}
use lib_tpm.Fifo.Receive.Bounds.{HeaderRead, read_rest-Spec, read_header-Spec}

-- The status and the buffer of a response whose header is in `buf`: a bare header gives its
-- size, any other response 0.
abbrev pub Received : Host → TpmCmd → ℕ × TpmCmd → Type 0
Received h buf (status, buf') =
    (status ≡ (if size_of h buf == tpm_header_size then tpm_header_size else 0))
    × ((buf'.header ≡ buf.header) × (length buf'.data_bytes ≡ length buf.data_bytes))

pub status_bare :
    (n : ℕ)
    → (tpm_header_size == n) ≡ true
    → tpm_header_size ≡ (if n == tpm_header_size then tpm_header_size else 0)
status_bare n e = ground arith

pub status_whole :
    (n : ℕ)
    → (tpm_header_size == n) ≡ false
    → (if n == tpm_header_size then tpm_header_size else 0) ≡ 0
status_whole n e = ground arith

module _ {S : Type 0} {bus : RegisterBus S} {polls : ℕ} (laws : ReadLaws bus polls) (h : Host)
    (chip : TpmChipData) where
  receive_rest-Spec :
      (buf : TpmCmd)
      → size_of h buf ≤ length buf.data_bytes
      → Spec laws.I
          (receive_rest bus polls h chip buf tpm_header_size)
          (λ r s. laws.I s × Received h buf r)
          (Safe laws.I)
  unfolding receive_rest
  receive_rest-Spec buf room = Spec-bind _ (Spec-raise_if _ invalid_param λ s i _. i) λ _.
      Spec-pre laws.I (λ s i. i.0)
        (Spec-if (tpm_header_size == size_of h buf) _ _
          (λ bare. Spec-pure _ λ s i. (i, (status_bare (size_of h buf) bare, (refl, refl))))
          λ more.
            Spec-bind _ (read_rest-Spec laws chip buf (base_of chip) (size_of h buf) room) λ r.
              Spec-bind _ (Spec-raise_if _ err_response λ s i _. i.0) λ _.
                Spec-pure _
                  λ s i. (i.0.0, (sym (status_whole (size_of h buf) more), (i.0.1.0, i.0.1.1.0))))

  -- Over any bus that obeys the laws: once the header has been read, and if the size it
  -- announces is at most the length of the data array, `tpm2_fifo_receive` ends and has no
  -- undefined behaviour. If it succeeds, the header is the one read, the arrays keep their
  -- lengths, and the status is ten for a bare header and 0 for any other response.
  pub tpm2_fifo_receive-Safe :
      (buf buf' : TpmCmd) (size : ℕ) (s s' : S)
      → laws.I s
      → length buf.header ≡ tpm_header_size
      → length buf.data_bytes ≡ max_cmd_data
      → tpm2_fifo_read_data bus polls chip buf (base_of chip) 0 none s ≡ (ok (buf', size), s')
      → size_of h buf' ≤ max_cmd_data
      → Post
          (λ r s''. laws.I s'' × Received h buf' r)
          (Safe laws.I)
          (tpm2_fifo_receive bus polls h chip buf s)
  unfolding tpm2_fifo_receive
  tpm2_fifo_receive-Safe buf buf' size s s' i hl dl e small =
      let (i', (hl', (dl', ten))) =
        subst (Post (λ r s'. laws.I s' × HeaderRead buf r) (Safe laws.I)) e
          ((read_header-Spec laws chip buf (base_of chip) hl).at s i) in
      let room : size_of h buf' ≤ length buf'.data_bytes =
        omega (arith, small, dl, ap length dl') in
      rw (e, ten) ((receive_rest-Spec buf' room).at s' i')
