-- ===== src/Command/Sent.antt =====
-- What the commands put on the wire, and how they end, as equations between actions: for every
-- interface, on every path.
use lib_tpm.Base.{
  ⊤, ℕ, ◌≤◌, ◌<◌, ◌^◌, ◌≡◌, refl, ap, fun_ext, ◌∙◌, some, List, ◌∷◌, ◌++◌, map, length, arith, ◌==◌,
  if◌then◌else◌, not,
}
use lib_tpm.Outcome.{
  M, pure, raise, raise_if, ◌>>=◌, ◌>>◌, invalid_param, err_response, err_already_init,
}
use lib_tpm.Endian.{Host, be16, be32}
use lib_tpm.Buffer.{zeroed, code_of}
use lib_tpm.Registers.{TpmChipData}
use lib_tpm.Interface.{InterfaceOps}
use lib_tpm.Command.Builder.{u8}
use lib_tpm.Command.Builder.Frame.{frame}
use lib_tpm.Command.Builder.Encode.{
  AreBytes, AreItems-append, AreItems-map-u8, encode-append, encode-map-u8, Marshals, finished-full,
}
use lib_tpm.Command.Transfer.Laws.{built_and_sent}
use lib_tpm.Command.Startup.{tpm_startup, startup_builder, startup_response}
use lib_tpm.Command.Pcr.{tpm_pcr_extend, extend_builder, extend_fields}

-- A response code as a status.
abbrev pub startup_status : {S : Type 0} → ℕ → M S ⊤
startup_status tpm_rc =
    if tpm_rc == 0
    then pure tt
    else if tpm_rc == 0x100
    then raise err_already_init
    else raise err_response

-- The fields of a PCR_Extend command in front of the digest.
abbrev pub extend_prefix : ℕ → ℕ → List ℕ
extend_prefix index algorithm =
    be32 index
    ++ (be32 9 ++ (be32 0x40000009 ++ (be16 0 ++ (0 ∷ be16 0 ++ (be32 1 ++ be16 algorithm)))))

module _ {S : Type 0} (ops : InterfaceOps S) (h : Host) (chip : TpmChipData) where
  startup_response-status : (tpm_rc : ℕ) → startup_response {S = S} tpm_rc ≡ startup_status tpm_rc
  unfolding startup_response
  startup_response-status tpm_rc = fun_ext λ s. ground arith

  -- For every interface, host and mode of 16 bits, `tpm_startup` sends the twelve bytes 80 01,
  -- 00 00 00 0c, 00 00 01 44 and the mode, big-endian, in a buffer that is zero behind them,
  -- receives, and returns success for response code 0, TPM_ERR_ALREADY_INIT for 0x100 and
  -- TPM_ERR_RESPONSE for any other; a failure of the transfer is returned as it is.
  pub tpm_startup-frame :
      (mode : ℕ)
      → mode < 2 ^ 16
      → tpm_startup (some ops) h chip mode ≡ (do
        ops.send chip (frame 0x8001 0x0144 (be16 mode))
        (status, response) ← ops.receive chip zeroed
        startup_status (code_of h response))
  unfolding tpm_startup startup_builder
  tpm_startup-frame mode lt =
      built_and_sent ops chip h zeroed _ _
        (record {
          tag_fits = omega arith;
          code_fits = omega arith;
          are_items = omega arith;
          bytes = refl;
        })
        (omega arith) (λ response. startup_response-status (code_of h response))

  extend_fields-Marshals :
      (index algorithm : ℕ) (digest : List ℕ)
      → index < 2 ^ 32
      → algorithm < 2 ^ 16
      → AreBytes digest
      → Marshals 0x8002 0x0182
          (extend_fields index algorithm ++ map u8 digest)
          (extend_prefix index algorithm ++ digest)
  extend_fields-Marshals index algorithm digest hi ha hb = record {
    tag_fits = omega arith;
    code_fits = omega arith;
    are_items =
        AreItems-append (extend_fields index algorithm) (map u8 digest) (omega arith)
          (AreItems-map-u8 digest hb);
    bytes =
        encode-append (extend_fields index algorithm) (map u8 digest)
        ∙ ap (λ t. extend_prefix index algorithm ++ t) (encode-map-u8 digest hb);
  }

  rc_status :
      (tpm_rc : ℕ)
      → raise_if {S = S} (not (tpm_rc == 0)) err_response
        ≡ (if tpm_rc == 0 then pure tt else raise err_response)
  rc_status tpm_rc = fun_ext λ s. ground arith

  -- For every interface and host, a PCR index of 32 bits, an algorithm of 16 bits and a digest of
  -- at most 223 bytes, `tpm_pcr_extend` sends one PCR_Extend command with a password session of
  -- no password and one digest, in a buffer that is zero behind it, receives, and returns success
  -- for response code 0 and TPM_ERR_RESPONSE for any other; a failure of the transfer is returned
  -- as it is.
  pub tpm_pcr_extend-frame :
      (index algorithm : ℕ) (digest : List ℕ)
      → index < 2 ^ 32
      → algorithm < 2 ^ 16
      → AreBytes digest
      → length digest ≤ 223
      → tpm_pcr_extend (some ops) h chip index algorithm (some digest) ≡ (do
        ops.send chip (frame 0x8002 0x0182 (extend_prefix index algorithm ++ digest))
        (status, response) ← ops.receive chip zeroed
        if code_of h response == 0 then pure tt else raise err_response)
  unfolding tpm_pcr_extend extend_builder
  tpm_pcr_extend-frame index algorithm digest hi ha hb fits =
      built_and_sent ops chip h zeroed _ _ (extend_fields-Marshals index algorithm digest hi ha hb)
        (omega arith) (λ response. rc_status (code_of h response))

  -- For every interface and host, a PCR index of 32 bits, an algorithm of 16 bits and a digest of
  -- more than 223 bytes, `tpm_pcr_extend` returns TPM_INVALID_PARAM and sends nothing.
  pub tpm_pcr_extend-too_long :
      (index algorithm : ℕ) (digest : List ℕ)
      → index < 2 ^ 32
      → algorithm < 2 ^ 16
      → AreBytes digest
      → 223 < length digest
      → tpm_pcr_extend (some ops) h chip index algorithm (some digest) ≡ raise invalid_param
  unfolding tpm_pcr_extend extend_builder
  tpm_pcr_extend-too_long index algorithm digest hi ha hb long =
      rw (finished-full h (extend_fields-Marshals index algorithm digest hi ha hb) (omega arith))
        refl
