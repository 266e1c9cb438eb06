-- ===== src/Spi/Safety.antt =====
-- The transactions of src/tpm2_fifo_spi.c, over any platform that obeys the laws.
use lib_tpm.Base.{
  ℕ, zero, suc, ◌≤◌, ◌≡◌, refl, Bool, true, false, Option, none, some, List, [], ◌∷◌, length,
  get_elem?-some, ltb, arith, if◌then◌else◌,
}
use lib_tpm.Base.Int.{nonzero}
use lib_tpm.Outcome.{Outcome, ok, fail, err, fault, hang, invalid_param, err_transfer, err_timeout}
use lib_tpm.Outcome.Spec.{
  Spec, Post, Spec-bind, Spec-pure, Spec-raise, Spec-pre, Spec-post, Spec-choice, Spec-if,
  Spec-fact, Spec-deref, Spec-raise_if,
}
use lib_tpm.Platform.{Platform, Link}
use lib_tpm.Bus.Laws.{Safe}
use lib_tpm.Spi.{
  TpmAccess, tpm_access_read, tpm_access_write, encode_limit, retry_count, wait_over, spi_header,
  tpm2_spi_transfer, transfer_or_fail, poll_wait_state, tpm2_spi_start_transaction,
  tpm2_spi_end_transaction, tpm2_spi_init, end_and_return, spi_payload, spi_exchange, tpm2_fifo_io,
}
use lib_tpm.Spi.Laws.{free, selected, SpiLaws, InPhase, At}

either : {A : Type 0} (P : A → Type 0) (b : Bool) {x y : A} → P x → P y → P (if b then x else y)
either P true hx hy = hx
either P false hx hy = hy

split :
    {A : Type 0} (P : A → Type 0) (b : Bool) {x y : A}
    → (b ≡ true → P x)
    → (b ≡ false → P y)
    → P (if b then x else y)
split P true hx hy = hx refl
split P false hx hy = hy refl

-- A read gives as many bytes as were asked for.
abbrev pub ReadFull : TpmAccess → ℕ → List ℕ → Type 0
ReadFull access len din = access ≡ tpm_access_read → length din ≡ len

module _ {D : Type 0} {p : Platform D} {polls : ℕ} (laws : SpiLaws p polls) (cnt n : ℕ) where
  abbrev Free : Link D → Type 0
  Free = At laws free cnt n

  abbrev Selected : Link D → Type 0
  Selected = At laws selected cnt n

  -- The bytes of a transfer that was asked for them.
  abbrev Filled : Bool → ℕ → List ℕ → Type 0
  Filled wanted len din = wanted ≡ true → length din ≡ len

  transfer-Spec :
      (data_out : Option (List ℕ)) (wanted : Bool) (len : ℕ)
      → Spec Selected
          (tpm2_spi_transfer p data_out wanted len)
          (λ r w. Selected w × (nonzero r.0 ≡ false → Filled wanted len r.1))
          (Safe Selected)
  unfolding tpm2_spi_transfer
  transfer-Spec data_out wanted len = record {
    at = λ w ((sp, (to, ph)), tk).
        let stays = laws.xfer_stays len data_out wanted w.dev ph in
        let fewer : laws.ticks cnt (p.spi.xfer len data_out wanted w.dev).2 ≤ n =
          omega (arith, tk, laws.xfer_ticks cnt len data_out wanted w.dev) in
        rw sp (
          either Selected (nonzero (p.spi.xfer len data_out wanted w.dev).0)
              ((refl, (to, stays)), fewer) ((refl, (to, stays)), fewer),
          λ good asked. laws.xfer_fills len data_out wanted w.dev ph asked good,
        );
  }

  transfer_or_fail-Spec :
      (data_out : Option (List ℕ)) (wanted : Bool) (len : ℕ)
      → Spec Selected
          (transfer_or_fail p data_out wanted len)
          (λ din w. Selected w × Filled wanted len din)
          (Safe Selected)
  unfolding transfer_or_fail
  transfer_or_fail-Spec data_out wanted len = Spec-bind _ (transfer-Spec data_out wanted len) λ r.
      Spec-if (nonzero r.0) _ _ (λ bad. Spec-raise err_transfer λ w h. h.0)
        λ good. Spec-pure r.1 λ w h. (h.0, h.1 good)

  poll-Spec :
      (retries : ℕ) → Spec Selected (poll_wait_state p retries) (λ _. Selected) (Safe Selected)
  unfolding poll_wait_state
  poll-Spec zero = Spec-raise err_timeout λ w h. h
  poll-Spec (suc retries) = Spec-bind _ (transfer_or_fail-Spec (some (0 ∷ [])) true 1) λ din.
      Spec-fact _ λ fill.
        let full : length din ≡ 1 = fill refl in
        let (byte, e) = get_elem?-some din 0 (omega arith) in
        Spec-deref _ byte _ e
          (Spec-choice (wait_over byte) _ _ (λ _. Spec-pure tt λ w h. h) λ _. poll-Spec retries)

  start-Spec :
      (tpm_reg : ℕ) (access : TpmAccess) (len : ℕ)
      → Spec Selected
          (tpm2_spi_start_transaction p tpm_reg access len)
          (λ _. Selected)
          (Safe Selected)
  unfolding tpm2_spi_start_transaction
  start-Spec tpm_reg access len =
      Spec-bind _ (Spec-raise_if (ltb encode_limit len) invalid_param λ w h _. h) λ _.
        Spec-pre Selected (λ w h. h.0)
          (Spec-bind _ (transfer_or_fail-Spec (some (spi_header tpm_reg access len)) true 4) λ din.
            Spec-fact _ λ fill.
              let full : length din ≡ 4 = fill refl in
              let (last, e) = get_elem?-some din 3 (omega arith) in
              Spec-deref _ last _ e (
                Spec-if (wait_over last) _ _ (λ _. Spec-pure tt λ w h. h)
                  λ _. poll-Spec retry_count))

  payload-Spec :
      (access : TpmAccess) (val : List ℕ) (len : ℕ)
      → Spec Selected
          (spi_payload p access val len)
          (λ din w. Selected w × ReadFull access len din)
          (Safe Selected)
  payload-Spec tpm_access_read val len =
      Spec-post _ _ (λ din w h. (h.0, λ _. h.1 refl)) (λ x w h. h)
        (transfer_or_fail-Spec none true len)
  payload-Spec tpm_access_write val len =
      Spec-post _ _ (λ din w h. (h.0, λ e. absurd cc)) (λ x w h. h)
        (transfer_or_fail-Spec (some val) false len)

  exchange-Spec :
      (tpm_reg : ℕ) (access : TpmAccess) (len : ℕ) (val : List ℕ)
      → Spec Selected
          (spi_exchange p tpm_reg access len val)
          (λ din w. Selected w × ReadFull access len din)
          (Safe Selected)
  exchange-Spec tpm_reg access len val =
      Spec-bind _ (start-Spec tpm_reg access len) λ _. payload-Spec access val len

  end-frees : (w : Link D) → Selected w → Free (tpm2_spi_end_transaction p w)
  unfolding tpm2_spi_end_transaction
  end-frees w ((sp, (to, ph)), tk) = (
    (sp, (to, laws.release_frees _ (laws.stop_deselects w.dev ph))),
    omega (arith, tk, laws.stop_ticks cnt w.dev, laws.release_ticks cnt (p.spi.stop w.dev)),
  )

  end-Post :
      {A : Type 0} (Q : A → Type 0) (r : Outcome A × Link D)
      → Post (λ a w. Selected w × Q a) (Safe Selected) r
      → Post (λ a w. Free w × Q a) (Safe Free) (end_and_return p r)
  unfolding end_and_return
  end-Post Q (ok a, w) h = (end-frees w h.0, h.1)
  end-Post Q (fail (err e), w) h = end-frees w h
  end-Post Q (fail fault, w) h = absurd h
  end-Post Q (fail hang, w) h = absurd h

  init-Spec : Spec Free (tpm2_spi_init p) (λ _. Selected) (Safe Free)
  unfolding tpm2_spi_init
  init-Spec = record {
    at = λ w ((sp, (to, ph)), tk). rw sp (
        split (Post (λ _. Selected) (Safe Free)) (nonzero (p.spi.get_access w.dev).0)
          (λ bad. (
            (refl, (to, laws.get_access_refused w.dev ph bad)),
            omega (arith, tk, laws.get_access_ticks cnt w.dev),
          ))
          λ good. (
            (refl, (to, laws.start_selects _ (laws.get_access_taken w.dev ph good))),
            omega (
              arith,
              tk,
              laws.get_access_ticks cnt w.dev,
              laws.start_ticks cnt (p.spi.get_access w.dev).1,
            ),
          ));
  }

  pub io-Spec :
      (tpm_reg : ℕ) (access : TpmAccess) (len : ℕ) (val : List ℕ)
      → Spec Free
          (tpm2_fifo_io p tpm_reg access len val)
          (λ din w. Free w × ReadFull access len din)
          (Safe Free)
  unfolding tpm2_fifo_io
  io-Spec tpm_reg access len val = Spec-bind _ init-Spec λ _. record {
    at = λ w h.
        end-Post (ReadFull access len) (spi_exchange p tpm_reg access len val w)
          ((exchange-Spec tpm_reg access len val).at w h);
  }

module _ {D : Type 0} {p : Platform D} {polls : ℕ} (laws : SpiLaws p polls) where
  forget :
      {A : Type 0} (Q : A → Type 0) (cnt n : ℕ) (r : Outcome A × Link D)
      → Post (λ a w. At laws free cnt n w × Q a) (Safe (At laws free cnt n)) r
      → Post (λ a w. InPhase laws free w × Q a) (Safe (InPhase laws free)) r
  forget Q cnt n (ok a, w) h = (h.0.0, h.1)
  forget Q cnt n (fail (err e), w) h = h.0
  forget Q cnt n (fail fault, w) h = h
  forget Q cnt n (fail hang, w) h = h

  -- Over any platform that obeys the laws, with the controller free, `tpm_spidev` set and the
  -- timer the caller's: every transaction, of any length and on every path, errors included, ends
  -- with no undefined behaviour and with the controller free again. A read that succeeds gives as
  -- many bytes as were asked for.
  pub tpm2_fifo_io-Safe :
      (tpm_reg : ℕ) (access : TpmAccess) (len : ℕ) (val : List ℕ) (w : Link D)
      → InPhase laws free w
      → Post
          (λ din w'. InPhase laws free w' × ReadFull access len din)
          (Safe (InPhase laws free))
          (tpm2_fifo_io p tpm_reg access len val w)
  tpm2_fifo_io-Safe tpm_reg access len val w h =
      let n = laws.ticks 0 w.dev in
      forget (ReadFull access len) 0 n (tpm2_fifo_io p tpm_reg access len val w)
        ((io-Spec laws 0 n tpm_reg access len val).at w (h, omega arith))
