-- ===== src/Fifo/Receive/Response.antt =====
-- `tpm2_fifo_receive` of src/tpm2_fifo.c, over a bus that logs the bytes read from the data register.
use lib_tpm.Base.{
  ℕ, ◌+◌, ◌≤◌, ◌≡◌, refl, sym, subst, ap, ◌∙◌, true, none, List, [], ◌++◌, append-nil, length, drop,
  ltb, arith, if◌then◌else◌, ◌==◌,
}
use lib_tpm.Outcome.{ok, invalid_param, err_response}
use lib_tpm.Outcome.Spec.{
  Spec, Post, Spec-bind, Spec-pure, Spec-pre, Spec-if, Spec-raise_if, Spec-exists,
}
use lib_tpm.Endian.{Host}
use lib_tpm.Buffer.{TpmCmd, size_of}
use lib_tpm.Bus.{RegisterBus}
use lib_tpm.Bus.Laws.{ReadLaws, Safe}
use lib_tpm.Bus.Log.{LogIs}
use lib_tpm.Registers.{TpmChipData, max_cmd_data, max_size_cmdbuf}
use lib_tpm.Fifo.{base_of}
use lib_tpm.Fifo.Receive.{tpm2_fifo_read_data, receive_rest, tpm2_fifo_receive}
use lib_tpm.Fifo.Receive.Whole.{status_bare, status_whole}
use lib_tpm.Fifo.Receive.Data.{
  fifo_taken, Unlogged, HeaderTaken, data-Spec, tpm2_fifo_read_data-header,
}

module _ {S : Type 0} {bus : RegisterBus S} {polls : ℕ} (laws : ReadLaws bus polls) (h : Host)
    (chip : TpmChipData) where
  -- Behind the bytes `l`, the bytes `bs` were read: the data begins with them, in order. They are
  -- none for a bare header, and with the header at least as many as its size field says.
  abbrev pub Answer : TpmCmd → List ℕ → ℕ × TpmCmd → S × List ℕ → Type 0
  Answer buf l (status, buf') st =
      (bs : List ℕ) × (LogIs laws.I (l ++ bs) st
        × ((buf'.header ≡ buf.header)
            × ((buf'.data_bytes ≡ bs ++ drop (length bs) buf.data_bytes)
                × ((status ≡ (if size_of h buf == 10 then 10 else 0))
                    × ((size_of h buf ≤ 10 + length bs) × (length bs ≤ size_of h buf))))))

  bare_size : (n : ℕ) → (10 == n) ≡ true → n ≤ 10
  bare_size n e = ground arith

  rest-Spec :
      (buf : TpmCmd) (l : List ℕ)
      → size_of h buf ≤ length buf.data_bytes
      → Spec
          (LogIs laws.I l)
          (receive_rest (fifo_taken laws chip buf l) polls h chip buf 10)
          (Answer buf l)
          (Safe (Unlogged laws chip buf l))
  unfolding receive_rest
  rest-Spec buf l room =
      Spec-bind _ (Spec-raise_if (ltb max_size_cmdbuf (size_of h buf)) invalid_param λ st i _. i.0)
        λ _.
          Spec-pre (LogIs laws.I l) (λ st i. i.0)
            (Spec-if (10 == size_of h buf) _ _
              (λ bare. Spec-pure _ λ st i. (
                [],
                (
                  (i.0, i.1 ∙ sym (append-nil l)),
                  (
                    refl,
                    (
                      refl,
                      (
                        status_bare (size_of h buf) bare,
                        (bare_size (size_of h buf) bare, omega arith),
                      ),
                    ),
                  ),
                ),
              ))
              λ more. Spec-bind _ (data-Spec laws chip buf l (size_of h buf) room) λ r.
                Spec-exists _ λ bs.
                  Spec-bind _ (Spec-raise_if (ltb r.1 (size_of h buf)) err_response λ st i _. i.0.0)
                    λ _. Spec-pure _ λ st ((i, (d, (hd, (k, (enough, le))))), _). (
                      bs,
                      (i, (hd, (d, (sym (status_whole (size_of h buf) more), (omega arith, le))))),
                    ))

  -- Over any bus that obeys the laws for reads and timers: once the header has been read, and if
  -- the size it announces is at most the length of the data array, `tpm2_fifo_receive` ends and
  -- has no undefined behaviour. If it succeeds, the bytes read from the data register are the
  -- header in the buffer, then bytes with which the data in the buffer begins, both in order; they
  -- are at least as many as announced and at most ten more; the status is ten for a bare header
  -- and 0 for any other response.
  pub tpm2_fifo_receive-Answer :
      (buf buf' : TpmCmd) (size : ℕ) (s : S) (st : S × List ℕ)
      → laws.I s
      → length buf.header ≡ 10
      → length buf.data_bytes ≡ max_cmd_data
      → tpm2_fifo_read_data
          (fifo_taken laws chip buf [])
          polls
          chip
          buf
          (base_of chip)
          0
          none
          (s, [])
        ≡ (ok (buf', size), st)
      → size_of h buf' ≤ max_cmd_data
      → Post
          (Answer buf' buf'.header)
          (Safe (Unlogged laws chip buf []))
          (tpm2_fifo_receive (fifo_taken laws chip buf []) polls h chip buf (s, []))
  unfolding tpm2_fifo_receive
  tpm2_fifo_receive-Answer buf buf' size s st i hl dl e small =
      let (held, (hl', (dl', ten))) =
        subst (Post (HeaderTaken laws chip buf []) (Safe (Unlogged laws chip buf []))) e
          (tpm2_fifo_read_data-header laws chip buf [] s i hl) in
      let room : size_of h buf' ≤ length buf'.data_bytes =
        omega (arith, small, dl, ap length dl') in
      rw (e, ten) ((rest-Spec buf' buf'.header room).at st held)
