-- ===== src/Command/Builder/Encode.antt =====
-- A row of fields: what a builder makes of it, as the marshalled bytes.
use lib_tpm.Base.{
  map, ◌%◌, sym, ap₂, ⊤, ℕ, ◌+◌, ◌≤◌, ◌<◌, ◌^◌, ◌≡◌, refl, ap, ◌∙◌, Bool-cases, inl, inr, some,
  List, [], ◌∷◌, ◌++◌, append_assoc, append-nil, length, length-append, ltb, ltb→lt, ltb→le, tests,
  arith,
}
use lib_tpm.Outcome.{invalid_param, pure, raise}
use lib_tpm.Endian.{Host}
use lib_tpm.Registers.{max_cmd_data}
use lib_tpm.Command.Builder.{
  u8, TpmCmdBuilder, tpm_cmd_init, tpm_update_buffer, update_all, Item, finished,
}
use lib_tpm.Command.Builder.Frame.{
  frame, built, item_bytes, IsItem, length-item, update-fits, update-full, tpm_cmd_init-frame,
}

-- The bytes of a row of fields.
abbrev pub encode : List Item → List ℕ
encode [] = []
encode (i ∷ items) = item_bytes i ++ encode items

abbrev pub AreItems : List Item → Type 0
AreItems [] = ⊤
AreItems ((x, n) ∷ items) = IsItem (x, n) × AreItems items

module _ (h : Host) (tag cmd_code : ℕ) where
  update_all-fits :
      (items : List Item) (payload : List ℕ)
      → AreItems items
      → length payload + length (encode items) ≤ max_cmd_data
      → update_all h (built tag cmd_code payload) items
        ≡ built tag cmd_code (payload ++ encode items)
  unfolding update_all
  update_all-fits [] payload i fits = rw (append-nil payload) refl
  update_all-fits ((x, n) ∷ items) payload i fits =
      let bs : List ℕ = item_bytes (x, n) in
      let l : length bs ≡ n = length-item h x n i.0 in
      let e : length (bs ++ encode items) ≡ length bs + length (encode items) =
        length-append bs (encode items) in
      let e' : length (payload ++ bs) ≡ length payload + length bs = length-append payload bs in
      rw (update-fits h tag cmd_code payload x n i.0 (omega arith)) (
        update_all-fits items (payload ++ bs) i.1 (omega arith)
        ∙ ap (built tag cmd_code) (append_assoc payload bs (encode items)))

-- An error state is kept.
update-error :
    (h : Host) (b : TpmCmdBuilder) (x n : ℕ)
    → b.error_state ≡ some invalid_param
    → (tpm_update_buffer h b x n).error_state ≡ some invalid_param
unfolding tpm_update_buffer
update-error h b x n e = ground arith

update_all-error :
    (h : Host) (items : List Item) (b : TpmCmdBuilder)
    → b.error_state ≡ some invalid_param
    → (update_all h b items).error_state ≡ some invalid_param
unfolding update_all
update_all-error h [] b e = e
update_all-error h ((x, n) ∷ items) b e = update_all-error h items _ (update-error h b x n e)

module _ (h : Host) (tag cmd_code : ℕ) where
  update_all-full :
      (items : List Item) (payload : List ℕ)
      → AreItems items
      → length payload ≤ max_cmd_data
      → max_cmd_data < length payload + length (encode items)
      → (update_all h (built tag cmd_code payload) items).error_state ≡ some invalid_param
  unfolding update_all
  update_all-full [] payload i room full = absurd (omega arith)
  update_all-full ((x, n) ∷ items) payload i room full =
      elim (Bool-cases (ltb max_cmd_data (length payload + n))) [
        | inl over ↦
            rw (update-full h tag cmd_code payload x n room (ltb→lt _ _ over), update_all)
              (update_all-error h items _ refl)
        | inr under ↦
            let bs : List ℕ = item_bytes (x, n) in
            let l : length bs ≡ n = length-item h x n i.0 in
            let e : length (bs ++ encode items) ≡ length bs + length (encode items) =
              length-append bs (encode items) in
            let e' : length (payload ++ bs) ≡ length payload + length bs =
              length-append payload bs in
            rw (update-fits h tag cmd_code payload x n i.0 (ltb→le _ _ under), update_all)
              (update_all-full items (payload ++ bs) i.1 (omega (tests, under)) (omega arith))
      ]

-- A command's tag and code fit their header fields, and its fields marshal to the payload.
pub record Marshals (tag cmd_code : ℕ) (items : List Item) (payload : List ℕ) : Type 0 where
  pub tag_fits : tag < 2 ^ 16
  pub code_fits : cmd_code < 2 ^ 32
  pub are_items : AreItems items
  pub bytes : encode items ≡ payload

module _ {S : Type 0} (h : Host) {tag cmd_code : ℕ} {items : List Item} {payload : List ℕ}
    (m : Marshals tag cmd_code items payload) where
  -- For a tag of 16 bits, a command code of 32 bits and fields of one, two or four bytes that
  -- take at most 246 bytes together, `tpm_cmd_init`, one `tpm_update_buffer` for each field and
  -- `tpm_builder_finalize` succeed with the frame whose payload is the fields' bytes in order.
  pub finished-fits :
      length payload ≤ max_cmd_data
      → finished {S = S} (update_all h (tpm_cmd_init h tag cmd_code) items)
        ≡ pure (frame tag cmd_code payload)
  unfolding finished
  finished-fits fits = rw (tpm_cmd_init-frame h tag cmd_code m.tag_fits m.code_fits) (
      rw (update_all-fits h tag cmd_code items [] m.are_items (omega (arith, ap length m.bytes)))
        (ap (λ t. pure (frame tag cmd_code t)) m.bytes))

  -- A command whose fields do not fit ends in TPM_INVALID_PARAM.
  pub finished-full :
      max_cmd_data < length payload
      → finished {S = S} (update_all h (tpm_cmd_init h tag cmd_code) items) ≡ raise invalid_param
  unfolding finished
  finished-full full = rw (tpm_cmd_init-frame h tag cmd_code m.tag_fits m.code_fits) (
      rw
        (update_all-full h tag cmd_code items [] m.are_items (omega arith)
          (omega (arith, ap length m.bytes)))
        refl)

-- Bytes of an array.
abbrev pub AreBytes : List ℕ → Type 0
AreBytes [] = ⊤
AreBytes (b ∷ bs) = (b < 2 ^ 8) × AreBytes bs

pub encode-append : (xs ys : List Item) → encode (xs ++ ys) ≡ encode xs ++ encode ys
encode-append [] ys = refl
encode-append (x ∷ xs) ys =
    ap (λ t. item_bytes x ++ t) (encode-append xs ys)
    ∙ sym (append_assoc (item_bytes x) (encode xs) (encode ys))

-- Bytes that are added one after another are marshalled as they are.
pub encode-map-u8 : (bs : List ℕ) → AreBytes bs → encode (map u8 bs) ≡ bs
encode-map-u8 [] h = refl
encode-map-u8 (b ∷ bs) h =
    let e : b % 2 ^ 8 ≡ b = omega arith in ap₂ (λ (c : ℕ) cs. c ∷ cs) e (encode-map-u8 bs h.1)

pub AreItems-append : (xs ys : List Item) → AreItems xs → AreItems ys → AreItems (xs ++ ys)
AreItems-append [] ys hx hy = hy
AreItems-append (x ∷ xs) ys hx hy = (hx.0, AreItems-append xs ys hx.1 hy)

pub AreItems-map-u8 : (bs : List ℕ) → AreBytes bs → AreItems (map u8 bs)
AreItems-map-u8 [] h = tt
AreItems-map-u8 (b ∷ bs) h = ((omega arith, inl refl), AreItems-map-u8 bs h.1)
