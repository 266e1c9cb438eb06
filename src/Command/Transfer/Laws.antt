-- ===== src/Command/Transfer/Laws.antt =====
-- A transfer and what follows it, as a send and a receive.
use lib_tpm.Base.{ℕ, ◌≤◌, List, length, fun_ext, ◌≡◌, ◌∙◌, ap, some}
use lib_tpm.Outcome.{M, ◌>>=◌, ◌>>◌}
use lib_tpm.Outcome.Laws.{bind_assoc}
use lib_tpm.Endian.{Host}
use lib_tpm.Buffer.{TpmCmd}
use lib_tpm.Registers.{TpmChipData, max_cmd_data}
use lib_tpm.Interface.{InterfaceOps}
use lib_tpm.Command.Builder.{Item, tpm_cmd_init, update_all, finished}
use lib_tpm.Command.Builder.Frame.{frame}
use lib_tpm.Command.Builder.Encode.{Marshals, finished-fits}
use lib_tpm.Command.Transfer.{tpm_xfer}

module _ {S B : Type 0} (ops : InterfaceOps S) (chip : TpmChipData) where
  pub tpm_xfer-bind :
      (send receive : TpmCmd) (f : TpmCmd → M S B)
      → (tpm_xfer (some ops) chip send receive >>= f)
        ≡ (ops.send chip send >> (ops.receive chip receive >>= λ (_, response). f response))
  unfolding tpm_xfer
  tpm_xfer-bind send receive f =
      bind_assoc (ops.send chip send) _ f
      ∙ ap (λ (k : M S B). ops.send chip send >> k) (bind_assoc (ops.receive chip receive) _ f)

  -- A command that is built, sent and answered: `g` says what `f` does with the response.
  pub built_and_sent :
      (h : Host) {tag cmd_code : ℕ} {items : List Item} {payload : List ℕ} (receive : TpmCmd)
      (f g : TpmCmd → M S B)
      → Marshals tag cmd_code items payload
      → length payload ≤ max_cmd_data
      → ((response : TpmCmd) → f response ≡ g response)
      → (finished (update_all h (tpm_cmd_init h tag cmd_code) items) >>= λ cmd.
          tpm_xfer (some ops) chip cmd receive >>= f)
        ≡ (ops.send chip (frame tag cmd_code payload)
            >> (ops.receive chip receive >>= λ (_, response). g response))
  built_and_sent h {tag} {cmd_code} {items} {payload} receive f g m fits same =
      rw (finished-fits h m fits) (
        tpm_xfer-bind _ receive f
        ∙ ap
            (λ (k : TpmCmd → M S B).
              ops.send chip (frame tag cmd_code payload)
              >> (ops.receive chip receive >>= λ (_, response). k response))
            (fun_ext same))
