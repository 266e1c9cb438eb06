-- ===== src/Command/Transfer/Init.antt =====
-- `tpm_interface_init` over the SPI transport.
use lib_tpm.Base.{⊤, ℕ, ◌≡◌, ◌⊎◌, inl, inr, refl, true}
use lib_tpm.Outcome.{M, Outcome, ok, fail}
use lib_tpm.Outcome.Spec.{Post}
use lib_tpm.Platform.{Platform, Link, caller_timer}
use lib_tpm.Bus.Laws.{Safe}
use lib_tpm.Registers.{TpmChipData}
use lib_tpm.Interface.{fifo_ops, tpm_interface_getops}
use lib_tpm.Fifo.{tpm2_get_info, tpm2_fifo_request_access}
use lib_tpm.Fifo.Locality.{access_reg, Shown, request_access-Spec, get_info-Spec}
use lib_tpm.Spi.{spi_bus}
use lib_tpm.Spi.Laws.{free, SpiLaws}
use lib_tpm.Spi.Obeys.{Idle, spi_laws}
use lib_tpm.Command.Transfer.{choose_timer, acquire, tpm_interface_init}

module _ {D : Type 0} {p : Platform D} {polls : ℕ} (laws : SpiLaws p polls) (chip : TpmChipData)
    (locality : ℕ) where
  -- The library's variables once they are set.
  abbrev pub opened : Link D → Link D
  opened w = record w { tpm_spidev = true; tpm_timeout_ops = caller_timer; interface = true }

  abbrev pub request : M (Link D) TpmChipData
  request = tpm2_fifo_request_access (spi_bus p) polls chip locality

  -- The request from `w0` succeeded, and left the state of a read of the access register that
  -- shows bit 5 (active locality); `tpm2_get_info` went on from there and gave `r`.
  abbrev pub Granted : Link D → Outcome ⊤ → TpmChipData → Link D → Type 0
  Granted w0 r chip' w =
      (chip' ≡ record chip { locality = locality })
      × ((w' : Link D) × ((request w0 ≡ (ok chip', w'))
            × (Shown (spi_bus p) (access_reg locality) 0x20 w'
                × (tpm2_get_info (spi_bus p) chip' locality w' ≡ (r, w)))))

  -- How `tpm_interface_init` ends: after an error either the request failed and the chip data is
  -- the old one, or it succeeded and `tpm2_get_info` failed.
  abbrev pub Acquired : Link D → Outcome ⊤ × TpmChipData × Link D → Type 0
  Acquired w0 (ok _, chip', w) = Idle laws w × Granted w0 (ok tt) chip' w
  Acquired w0 (fail x, chip', w) =
      Safe (Idle laws) x w
      × (((chip' ≡ chip) × (request w0 ≡ (fail x, w))) ⊎ Granted w0 (fail x) chip' w)

  info-Acquired :
      (w0 : Link D) (r : Outcome ⊤) (w w' : Link D) (chip' : TpmChipData)
      → chip' ≡ record chip { locality = locality }
      → request w0 ≡ (ok chip', w')
      → Shown (spi_bus p) (access_reg locality) 0x20 w'
      → tpm2_get_info (spi_bus p) chip' locality w' ≡ (r, w)
      → Post (λ _. Idle laws) (Safe (Idle laws)) (r, w)
      → Acquired w0 (r, chip', w)
  info-Acquired w0 (ok _) w w' chip' e q shown got h = (h, (e, (w', (q, (shown, got)))))
  info-Acquired w0 (fail x) w w' chip' e q shown got h = (h, inr (e, (w', (q, (shown, got)))))

  -- The part behind the request for the locality.
  abbrev then_info : Outcome TpmChipData × Link D → Outcome ⊤ × TpmChipData × Link D
  then_info t =
      let (r, w) = t in
      elim r [
        | fail x ↦ (fail x, chip, w)
        | ok chip' ↦
            let (r', w') = (tpm_interface_getops p polls).get_info chip' locality w in
            (r', chip', w')
      ]

  then_info-Acquired :
      (w0 : Link D) (r : Outcome TpmChipData × Link D)
      → request w0 ≡ r
      → Post
          (λ chip' w.
            Idle laws w
            × ((chip' ≡ record chip { locality = locality })
                × Shown (spi_bus p) (access_reg locality) 0x20 w))
          (Safe (Idle laws))
          r
      → Acquired w0 (then_info r)
  unfolding tpm_interface_getops fifo_ops spi_laws
  then_info-Acquired w0 (fail x, w) q h = (h, inl (refl, q))
  then_info-Acquired w0 (ok chip', w) q h =
      info-Acquired w0 _ _ w chip' h.1.0 q h.1.1 refl
        ((get_info-Spec (spi_laws laws) chip locality chip').at w h.0)

  acquire-Acquired : (w : Link D) → Idle laws w → Acquired w (acquire p polls chip locality w)
  unfolding acquire tpm_interface_getops fifo_ops spi_laws
  acquire-Acquired w h =
      then_info-Acquired w ((tpm_interface_getops p polls).request_access chip locality w) refl
        ((request_access-Spec (spi_laws laws) chip locality).at w h)

  -- Over any platform that obeys the laws, with the controller free and a transport and a timer
  -- given by the caller: `tpm_interface_init` ends with no undefined behaviour and with the
  -- controller free, whether it succeeds or not. If it succeeds, the request for the locality
  -- succeeded and left the state of a read of the access register that showed bit 5 (active
  -- locality), `tpm2_get_info` succeeded from there, and the chip data has the locality and is
  -- otherwise as it was. If it fails, either the request failed with that failure and the chip
  -- data is as it was, or all of this holds but that `tpm2_get_info` failed with that failure.
  pub tpm_interface_init-Acquired :
      (w : Link D)
      → laws.phase w.dev ≡ free
      → Acquired (opened w) (tpm_interface_init p polls true true chip locality w)
  unfolding tpm_interface_init choose_timer
  tpm_interface_init-Acquired w h = acquire-Acquired (opened w) (refl, (refl, h))
