-- ===== src/Tests.antt =====
-- A bus that plays back a response obeys the laws of a register bus; the theorems of the register
-- protocol over it.
mod Wire
mod Transport
use lib_tpm.Base.{
  ⊤, ℕ, zero, suc, ◌+◌, ◌≤◌, ◌<◌, ◌≡◌, refl, true, false, some, none, List, [], ◌∷◌, ◌++◌, length,
  replicate, get_or, ◌==◌, if◌then◌else◌, arith, inl, inr,
}
use lib_tpm.Outcome.{
  Outcome, ok, fail, fault, M, pure, raise, ◌>>=◌, ◌>>◌, invalid_param, err_response,
}
use lib_tpm.Outcome.Spec.{Spec, Post, Spec-pure}
use lib_tpm.Endian.{
  Host, little_endian, big_endian, be16, be32, htobe16, htobe32, be16toh, be32toh, memory32,
  bswap16, bswap32, word32,
}
use lib_tpm.Bus.{RegisterBus}
use lib_tpm.Command.Builder.Frame.{frame, size_of-frame}
use lib_tpm.Fifo.Receive.Response.{Answer, tpm2_fifo_receive-Answer}
use lib_tpm.Fifo.Receive.Whole.{Received, tpm2_fifo_receive-Safe}
use lib_tpm.Bus.Laws.{ReadLaws, BusLaws, Safe}
use lib_tpm.Bus.Log.{logged}
use lib_tpm.Buffer.{TpmCmd, zeroed, size_of, code_of}
use lib_tpm.Registers.{TpmChipData, tpm_timeouts, tpm_fifo_reg_data_fifo}
use lib_tpm.Fifo.{
  tpm2_fifo_request_access, tpm2_wait_reg_bits, tpm2_fifo_get_burstcount, bits_set, base_of,
  wait_loop, burst_loop,
}
use lib_tpm.Fifo.Wait.{tpm2_wait_reg_bits-ends, tpm2_fifo_get_burstcount-ends}
use lib_tpm.Fifo.Send.{tpm2_fifo_send}
use lib_tpm.Fifo.Send.Total.{SentWhole, SentPart, tpm2_fifo_send-sends}
use lib_tpm.Fifo.Receive.{
  read_available, read_loop, read_burst, read_one, tpm2_fifo_read_data, tpm2_fifo_receive,
}
use lib_tpm.Fifo.Receive.Data.{
  fifo_taken, Unlogged, HeaderTaken, DataTaken, tpm2_fifo_read_data-header,
  tpm2_fifo_read_data-data,
}
use lib_tpm.Fifo.Locality.Written.{
  access_taken, Requested, NotGranted, Released, NotReleased, tpm2_fifo_request_access-Requested,
  tpm_interface_close-Released,
}
use lib_tpm.Interface.{fifo_ops}
use lib_tpm.Command.Transfer.{tpm_interface_close}
use lib_tpm.Fifo.Receive.Overrun.{steady, tpm2_fifo_read_data-overruns}

-- The data register at locality 0 yields the bytes of a response, one by one; the others read as
-- 0xf7: ready, a response available, no bytes expected, a large burst count.
abbrev stream_bus : List ℕ → RegisterBus ℕ
stream_bus response = record {
  write_byte = λ reg val. pure tt;
  read_byte = λ reg n. (
    ok (if reg == tpm_fifo_reg_data_fifo then get_or response n 0 else 0xf7),
    if reg == tpm_fifo_reg_data_fifo then n + 1 else n,
  );
  read_chunk = λ reg len. pure [];
  timeout_init_us = λ usec. pure 0;
  timeout_elapsed = λ cnt. pure true;
}

runs_out : (k : ℕ) → true ≡ false → 0 < k
runs_out k e = absurd cc

abbrev stream_reads : (response : List ℕ) → ReadLaws (stream_bus response) 1
stream_reads response = record {
  I = λ n. ⊤;
  ticks = λ cnt n. 0;
  read_byte_safe = λ reg cnt k. record { at = λ n h. h };
  read_chunk_safe = λ reg len. Spec-pure [] λ n h. h;
  timeout_init_safe = λ usec. Spec-pure 0 λ n h. (tt, omega arith);
  timeout_elapsed_safe = λ cnt k. Spec-pure true λ n h. (tt, runs_out k);
}

abbrev stream_laws : (response : List ℕ) → BusLaws (stream_bus response) 1
stream_laws response = record {
  reads = stream_reads response;
  write_byte_safe = λ reg val. Spec-pure tt λ n h. h;
}

abbrev chip : TpmChipData
chip = record { locality = 0; timeouts = tpm_timeouts }

-- A command of twelve bytes, and a response of twelve.
abbrev startup_command : TpmCmd
startup_command = frame 0x8001 0x0144 (be16 1)

abbrev response_bytes : List ℕ
response_bytes = be16 0x8001 ++ (be32 12 ++ (be32 0 ++ (0xaa ∷ 0xbb ∷ [])))

tpm2_fifo_send-sends_example :
    Post
      (SentWhole (stream_laws []) little_endian chip startup_command [] (ok 0xf7))
      (SentPart (stream_laws []) little_endian chip startup_command [] (ok 0xf7))
      (tpm2_fifo_send (logged (stream_bus [])) 1 little_endian chip startup_command (0, []))
tpm2_fifo_send-sends_example =
    tpm2_fifo_send-sends (stream_laws []) little_endian chip startup_command 0 [] tt refl
      (omega (arith, size_of-frame little_endian 0x8001 0x0144 (be16 1) (omega arith)))
      (omega (arith, size_of-frame little_endian 0x8001 0x0144 (be16 1) (omega arith)))

tpm2_wait_reg_bits-ends_example :
    Post
      (λ status s'. ⊤ × (bits_set status 0x10 ≡ true))
      (Safe (λ n. ⊤))
      (tpm2_wait_reg_bits (stream_bus []) 1 0x18 0x10 200 0)
tpm2_wait_reg_bits-ends_example =
    tpm2_wait_reg_bits-ends (stream_bus []) 1 (stream_reads []) 0x18 0x10 200 0 tt

tpm2_fifo_get_burstcount-ends_example :
    Post
      (λ burstcount s'. ⊤ × (0 < burstcount))
      (Safe (λ n. ⊤))
      (tpm2_fifo_get_burstcount (stream_bus []) 1 chip 0)
tpm2_fifo_get_burstcount-ends_example =
    tpm2_fifo_get_burstcount-ends (stream_bus []) 1 (stream_reads []) chip 0 tt

tpm2_fifo_read_data-header_example :
    Post
      (HeaderTaken (stream_reads response_bytes) chip zeroed [])
      (Safe (Unlogged (stream_reads response_bytes) chip zeroed []))
      (tpm2_fifo_read_data
        (fifo_taken (stream_reads response_bytes) chip zeroed [])
        1
        chip
        zeroed
        0
        0
        none
        (0, []))
tpm2_fifo_read_data-header_example =
    tpm2_fifo_read_data-header (stream_reads response_bytes) chip zeroed [] 0 tt refl

tpm2_fifo_read_data-data_example :
    Post
      (DataTaken (stream_reads response_bytes) chip zeroed [] 12)
      (Safe (Unlogged (stream_reads response_bytes) chip zeroed []))
      (tpm2_fifo_read_data
        (fifo_taken (stream_reads response_bytes) chip zeroed [])
        1
        chip
        zeroed
        0
        10
        (some 12)
        (10, []))
tpm2_fifo_read_data-data_example =
    tpm2_fifo_read_data-data (stream_reads response_bytes) chip zeroed [] 12 10 tt (omega arith)

tpm2_fifo_request_access-Requested_example :
    Post (Requested (stream_laws []) chip 2 []) (NotGranted (stream_laws []) chip 2 []) (
      tpm2_fifo_request_access
        (logged (access_taken (stream_laws []) chip 2 []))
        1
        chip
        2
        ((0, []), []))
tpm2_fifo_request_access-Requested_example =
    tpm2_fifo_request_access-Requested (stream_laws []) chip 2 [] 0 tt

tpm_interface_close-Released_example :
    Post (Released (stream_laws []) chip 2 [] 0) (NotReleased (stream_laws []) chip 2 [] 0) (
      tpm_interface_close (some (fifo_ops little_endian (logged (stream_bus [])) 1)) chip 2 (0, []))
tpm_interface_close-Released_example =
    tpm_interface_close-Released (stream_laws []) chip 2 [] 0 little_endian tt

-- The header of the response, read into a zeroed buffer.
abbrev answered : TpmCmd
answered = record zeroed { header = be16 0x8001 ++ (be32 12 ++ be32 0) }

answered_header :
    tpm2_fifo_read_data (stream_bus response_bytes) 1 chip zeroed 0 0 none 0
    ≡ (ok (answered, 10), 10)
unfolding tpm2_fifo_read_data read_available tpm2_wait_reg_bits wait_loop tpm2_fifo_get_burstcount
    burst_loop read_loop read_burst read_one
answered_header = refl

answered_size : size_of little_endian answered ≡ 12
unfolding size_of be32toh bswap32 word32
answered_size = refl

tpm2_fifo_receive-Safe_example :
    Post
      (λ r s''. ⊤ × Received little_endian answered r)
      (Safe (λ n. ⊤))
      (tpm2_fifo_receive (stream_bus response_bytes) 1 little_endian chip zeroed 0)
tpm2_fifo_receive-Safe_example =
    tpm2_fifo_receive-Safe (stream_reads response_bytes) little_endian chip zeroed answered 10 0 10
      tt refl refl answered_header (omega (arith, answered_size))

answered_taken :
    tpm2_fifo_read_data
      (fifo_taken (stream_reads response_bytes) chip zeroed [])
      1
      chip
      zeroed
      0
      0
      none
      (0, [])
    ≡ (ok (answered, 10), (10, answered.header))
unfolding tpm2_fifo_read_data read_available tpm2_wait_reg_bits wait_loop tpm2_fifo_get_burstcount
    burst_loop read_loop read_burst read_one
answered_taken = refl

tpm2_fifo_receive-Answer_example :
    Post
      (Answer (stream_reads response_bytes) little_endian chip answered answered.header)
      (Safe (Unlogged (stream_reads response_bytes) chip zeroed []))
      (tpm2_fifo_receive
        (fifo_taken (stream_reads response_bytes) chip zeroed [])
        1
        little_endian
        chip
        zeroed
        (0, []))
tpm2_fifo_receive-Answer_example =
    tpm2_fifo_receive-Answer (stream_reads response_bytes) little_endian chip zeroed answered 10 0
      (10, answered.header) tt refl refl answered_taken (omega (arith, answered_size))

tpm2_fifo_read_data-overruns_example :
    Post
      (λ _ _. ⊥)
      (λ x _. x ≡ fault)
      (tpm2_fifo_read_data (steady (λ reg. 0xff)) 1 chip zeroed 0 10 (some 256) tt)
tpm2_fifo_read_data-overruns_example =
    tpm2_fifo_read_data-overruns (λ reg. 0xff) 0 chip zeroed 256 refl (omega arith) refl
      (omega arith)
