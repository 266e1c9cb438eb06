-- ===== src/Tests/Wire.antt =====
-- The theorems on byte order, SPI headers, the command builder and the commands, at concrete
-- values.
use lib_tpm.Base.{
  length, true, ⊤, ℕ, zero, suc, ◌+◌, ◌-◌, ◌<◌, ◌^◌, ◌≡◌, refl, some, List, [], ◌∷◌, ◌++◌,
  replicate, inl, inr, arith, ◌==◌, if◌then◌else◌,
}
use lib_tpm.Outcome.{pure, raise, ◌>>=◌, ◌>>◌, invalid_param, err_response}
use lib_tpm.Endian.{little_endian, big_endian, htobe32, be32toh, memory32, word32, be16, be32}
use lib_tpm.Endian.Wire.{be32toh-htobe32, memory32-htobe32, be32toh-word32}
use lib_tpm.Spi.{spi_header, tpm_access_read}
use lib_tpm.Spi.Header.{direction, spi_header-fields}
use lib_tpm.Buffer.{TpmCmd, zeroed, code_of, size_of}
use lib_tpm.Registers.{tpm_chip_data}
use lib_tpm.Interface.{InterfaceOps}
use lib_tpm.Command.Builder.{tpm_cmd_init, tpm_update_buffer, update_all, u16, finished}
use lib_tpm.Command.Builder.Frame.{frame, built, size_of-frame, update-fits, update-full}
use lib_tpm.Command.Builder.Encode.{AreBytes, Marshals, finished-fits}
use lib_tpm.Command.Startup.{tpm_startup}
use lib_tpm.Outcome.Spec.{Post}
use lib_tpm.Command.Pcr.{tpm_pcr_extend, tpm_pcr_read_single}
use lib_tpm.Command.Pcr.Read.{tpm_pcr_read_single-clear}
use lib_tpm.Command.Sent.{
  startup_status, extend_prefix, tpm_startup-frame, tpm_pcr_extend-frame, tpm_pcr_extend-too_long,
}

-- An interface that keeps the last command and answers with it.
abbrev mirror : InterfaceOps TpmCmd
mirror = record {
  get_info = λ chip locality. pure tt;
  request_access = λ chip locality. pure chip;
  release_locality = λ chip locality. pure tt;
  send = λ chip command last. pure tt command;
  receive = λ chip response last. pure (0, last) last;
}

abbrev long_digest : List ℕ
long_digest = replicate 224 0x5a

replicate-AreBytes : (n : ℕ) → AreBytes (replicate n 0x5a)
replicate-AreBytes zero = tt
replicate-AreBytes (suc n) = (omega arith, replicate-AreBytes n)

long_digest-AreBytes : AreBytes long_digest
long_digest-AreBytes = replicate-AreBytes 224

tpm_startup-frame_example : tpm_startup (some mirror) little_endian tpm_chip_data 1 ≡ (do
  mirror.send tpm_chip_data (frame 0x8001 0x0144 (be16 1))
  (status, response) ← mirror.receive tpm_chip_data zeroed
  startup_status (code_of little_endian response))
tpm_startup-frame_example = tpm_startup-frame mirror little_endian tpm_chip_data 1 (omega arith)

tpm_pcr_extend-frame_example :
    tpm_pcr_extend (some mirror) big_endian tpm_chip_data 7 0x000b (some (1 ∷ 2 ∷ [])) ≡ (do
      mirror.send tpm_chip_data (frame 0x8002 0x0182 (extend_prefix 7 0x000b ++ 1 ∷ 2 ∷ []))
      (status, response) ← mirror.receive tpm_chip_data zeroed
      if code_of big_endian response == 0 then pure tt else raise err_response)
tpm_pcr_extend-frame_example =
    tpm_pcr_extend-frame mirror big_endian tpm_chip_data 7 0x000b (1 ∷ 2 ∷ []) (omega arith)
      (omega arith) (omega arith, (omega arith, tt)) (omega arith)

-- 224 bytes are one too many.
tpm_pcr_extend-too_long_example :
    tpm_pcr_extend (some mirror) big_endian tpm_chip_data 7 0x000b (some long_digest)
    ≡ raise invalid_param
tpm_pcr_extend-too_long_example =
    tpm_pcr_extend-too_long mirror big_endian tpm_chip_data 7 0x000b long_digest (omega arith)
      (omega arith) long_digest-AreBytes (omega arith)

update-fits_example :
    tpm_update_buffer little_endian (built 0x8001 0x017a (be32 6)) 0x12345678 4
    ≡ built 0x8001 0x017a (be32 6 ++ be32 0x12345678)
update-fits_example =
    update-fits little_endian 0x8001 0x017a (be32 6) 0x12345678 4 (omega arith, inr (inr refl))
      (omega arith)

update-full_example :
    tpm_update_buffer little_endian (built 0x8001 0x017a (replicate 245 7)) 0x1234 2
    ≡ record { cmd = frame 0x8001 0x017a (replicate 245 7); error_state = some invalid_param }
update-full_example =
    update-full little_endian 0x8001 0x017a (replicate 245 7) 0x1234 2 (omega arith) (omega arith)

startup_Marshals : Marshals 0x8001 0x0144 (u16 0x0102 ∷ []) (1 ∷ 2 ∷ [])
startup_Marshals = record {
  tag_fits = omega arith;
  code_fits = omega arith;
  are_items = ((omega arith, inr (inl refl)), tt);
  bytes = refl;
}

finished-fits_example :
    finished {S = ⊤}
      (update_all little_endian (tpm_cmd_init little_endian 0x8001 0x0144) (u16 0x0102 ∷ []))
    ≡ pure (frame 0x8001 0x0144 (1 ∷ 2 ∷ []))
finished-fits_example = finished-fits little_endian startup_Marshals (omega arith)

be32toh-htobe32_example : be32toh little_endian (htobe32 little_endian 0x12345678) ≡ 0x12345678
be32toh-htobe32_example = be32toh-htobe32 little_endian 0x12345678 (omega arith)

memory32-htobe32_example :
    memory32 little_endian (htobe32 little_endian 0x12345678) ≡ be32 0x12345678
memory32-htobe32_example = memory32-htobe32 little_endian 0x12345678 (omega arith)

be32toh-word32_example : be32toh little_endian (word32 little_endian 0 0 1 2) ≡ 258
be32toh-word32_example =
    be32toh-word32 little_endian 0 0 1 2 (omega arith) (omega arith) (omega arith) (omega arith)

size_of-frame_example : size_of little_endian (frame 0x8001 0x0144 (be16 1)) ≡ 12
size_of-frame_example = size_of-frame little_endian 0x8001 0x0144 (be16 1) (omega arith)

spi_header-fields_example :
    (spi_header 0x0024 tpm_access_read 64
      ≡ (direction tpm_access_read + (64 - 1)) ∷ 0xd4 ∷ be16 0x0024)
    × (64 - 1 < 2 ^ 6)
spi_header-fields_example =
    spi_header-fields 0x0024 tpm_access_read 64 (omega arith) (omega arith) (omega arith)

tpm_pcr_read_single-clear_example :
    Post
      (λ _ st. length st.1 ≡ 2)
      (λ _ st. st.1 ≡ 0 ∷ 0 ∷ [])
      (tpm_pcr_read_single
        (some mirror)
        little_endian
        tpm_chip_data
        zeroed
        7
        0x000b
        true
        (zeroed, 5 ∷ 6 ∷ []))
tpm_pcr_read_single-clear_example =
    tpm_pcr_read_single-clear (some mirror) little_endian tpm_chip_data zeroed 7 0x000b zeroed
      (5 ∷ 6 ∷ []) (omega arith)
