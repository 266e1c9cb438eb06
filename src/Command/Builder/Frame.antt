-- ===== src/Command/Builder/Frame.antt =====
-- The command that a builder holds, as its fields and its payload, and each builder operation on it.
use lib_tpm.Base.{
  ℕ, suc, ◌+◌, ◌-◌, ◌/◌, false, true, ◌%◌, ◌^◌, ◌≤◌, ◌<◌, ◌≡◌, refl, sym, ap, ◌∙◌, ◌⊎◌, inl, inr,
  none, some, List, [], ◌∷◌, ◌++◌, append-nil, length, replicate, set, set-append, length-append,
  ap₂, ◌≡⟨◌⟩◌, ◌∎, if◌then◌else◌, ◌==◌, ltb, lt→ltb, le→ltb, arith,
}
use lib_tpm.Outcome.{invalid_param}
use lib_tpm.Endian.{Host, be16, be32}
use lib_tpm.Endian.Wire.{memory16-htobe16, memory32-htobe32, be32toh-word32}
use lib_tpm.Buffer.{TpmCmd, size_of, set_size}
use lib_tpm.Registers.{tpm_header_size, max_cmd_data, max_size_cmdbuf}
use lib_tpm.Command.Builder.{
  TpmCmdBuilder, tpm_cmd_init, new_bytes, write_bytes, append_data, tpm_update_buffer, Item,
}

-- A command as it goes over the wire: big-endian header fields, the payload, zeros behind it.
abbrev pub frame : ℕ → ℕ → List ℕ → TpmCmd
frame tag cmd_code payload = record {
  header = be16 tag ++ (be32 (tpm_header_size + length payload) ++ be32 cmd_code);
  data_bytes = payload ++ replicate (max_cmd_data - length payload) 0;
}

abbrev pub built : ℕ → ℕ → List ℕ → TpmCmdBuilder
built tag cmd_code payload = record { cmd = frame tag cmd_code payload; error_state = none }

-- The bytes of a field, and the fields that the builder is made for.
abbrev pub item_bytes : Item → List ℕ
item_bytes (x, n) = if n == 1 then x % 2 ^ 8 ∷ [] else if n == 2 then be16 x else be32 x

abbrev pub IsItem : Item → Type 0
IsItem (x, n) = (x < 2 ^ 32) × ((n ≡ 1) ⊎ (n ≡ 2) ⊎ (n ≡ 4))

module _ (h : Host) where
  -- On a host of either byte order, the size in the header of a frame with a payload of at most
  -- 246 bytes reads back as ten plus the length of the payload.
  pub size_of-frame :
      (tag cmd_code : ℕ) (payload : List ℕ)
      → length payload ≤ max_cmd_data
      → size_of h (frame tag cmd_code payload) ≡ tpm_header_size + length payload
  unfolding size_of
  size_of-frame tag cmd_code payload fits =
      let n : ℕ = tpm_header_size + length payload in
      omega (
        arith,
        be32toh-word32 h (n / 2 ^ 24 % 2 ^ 8) (n / 2 ^ 16 % 2 ^ 8) (n / 2 ^ 8 % 2 ^ 8) (n % 2 ^ 8)
            (omega arith) (omega arith) (omega arith) (omega arith),
      )

  pub tpm_cmd_init-frame :
      (tag cmd_code : ℕ)
      → tag < 2 ^ 16
      → cmd_code < 2 ^ 32
      → tpm_cmd_init h tag cmd_code ≡ built tag cmd_code []
  unfolding tpm_cmd_init
  tpm_cmd_init-frame tag cmd_code ht hc = rw (memory16-htobe16 h tag ht) (
      rw (memory32-htobe32 h tpm_header_size (omega arith))
        (rw (memory32-htobe32 h cmd_code hc) refl))

  new_bytes-item : (x n : ℕ) → IsItem (x, n) → new_bytes h x n ≡ some (item_bytes (x, n))
  unfolding new_bytes
  new_bytes-item x n (lt, inl e) = rw e refl
  new_bytes-item x n (lt, inr (inl e)) =
      rw e (rw (memory16-htobe16 h (x % 2 ^ 16) (omega arith)) (ground arith))
  new_bytes-item x n (lt, inr (inr e)) = rw e (rw (memory32-htobe32 h x lt) refl)

  pub length-item : (x n : ℕ) → IsItem (x, n) → length (item_bytes (x, n)) ≡ n
  length-item x n i = ground arith

append_one : (xs ys : List ℕ) (b : ℕ) → xs ++ b ∷ ys ≡ (xs ++ b ∷ []) ++ ys
append_one [] ys b = refl
append_one (x ∷ xs) ys b = ap (λ t. x ∷ t) (append_one xs ys b)

-- Bytes written behind a prefix replace as many zeros.
write_bytes-append :
    (bs pl : List ℕ) (k : ℕ)
    → write_bytes (pl ++ replicate (length bs + k) 0) (length pl) bs ≡ (pl ++ bs) ++ replicate k 0
unfolding write_bytes
write_bytes-append [] pl k =
    let e : 0 + k ≡ k = omega arith in rw (append-nil pl) (ap (λ (n : ℕ). pl ++ replicate n 0) e)
write_bytes-append (b ∷ bs) pl k =
    let zeros : List ℕ = replicate (length bs + k) 0 in
    let e : suc (length bs) + k ≡ suc (length bs + k) = omega arith in
    let l : length pl + 1 ≡ length (pl ++ b ∷ []) = omega (arith, length-append pl (b ∷ [])) in
    write_bytes (set (pl ++ replicate (suc (length bs) + k) 0) (length pl) b) (length pl + 1) bs
    ≡⟨ ap (λ (n : ℕ). write_bytes (set (pl ++ replicate n 0) (length pl) b) (length pl + 1) bs) e ⟩
      write_bytes (set (pl ++ 0 ∷ zeros) (length pl) b) (length pl + 1) bs
    ≡⟨ ap₂ (λ t n. write_bytes t n bs) (set-append pl zeros 0 b ∙ append_one pl zeros b) l ⟩
      write_bytes ((pl ++ b ∷ []) ++ zeros) (length (pl ++ b ∷ [])) bs
    ≡⟨ write_bytes-append bs (pl ++ b ∷ []) k ⟩ ((pl ++ b ∷ []) ++ bs) ++ replicate k 0
    ≡⟨ ap (λ t. t ++ replicate k 0) (sym (append_one pl bs b)) ⟩ (pl ++ b ∷ bs) ++ replicate k 0 ∎

-- The payload after a write at its end.
write_bytes-payload :
    (payload bs : List ℕ) (start : ℕ)
    → start ≡ length payload
    → length payload + length bs ≤ max_cmd_data
    → write_bytes (payload ++ replicate (max_cmd_data - length payload) 0) start bs
      ≡ (payload ++ bs) ++ replicate (max_cmd_data - length (payload ++ bs)) 0
write_bytes-payload payload bs start e fits =
    let k : ℕ = max_cmd_data - length (payload ++ bs) in
    let l : max_cmd_data - length payload ≡ length bs + k =
      omega (arith, length-append payload bs) in
    ap₂ (λ n t. write_bytes (payload ++ replicate n 0) t bs) l e ∙ write_bytes-append bs payload k

module _ (h : Host) (tag cmd_code : ℕ) where
  -- The header of a command whose size has changed.
  set_size-frame :
      (old size new : ℕ) (d : List ℕ)
      → size ≡ new
      → new < 2 ^ 32
      → set_size h size
          (record { header = be16 tag ++ (be32 old ++ be32 cmd_code); data_bytes = d })
        ≡ record { header = be16 tag ++ (be32 new ++ be32 cmd_code); data_bytes = d }
  unfolding set_size
  set_size-frame old size new d e lt = rw e (rw (memory32-htobe32 h new lt) refl)

  append_data-fits :
      (payload : List ℕ) (size x n : ℕ)
      → size ≡ tpm_header_size + length payload
      → IsItem (x, n)
      → length payload + n ≤ max_cmd_data
      → append_data h (built tag cmd_code payload) size x n
        ≡ built tag cmd_code (payload ++ item_bytes (x, n))
  unfolding append_data
  append_data-fits payload size x n e i fits =
      let bs : List ℕ = item_bytes (x, n) in
      let start : ℕ = (size + 2 ^ 32 - tpm_header_size) % 2 ^ 32 in
      let l : length bs ≡ n = length-item h x n i in
      let grown : size + n ≡ tpm_header_size + length (payload ++ bs) =
        omega (arith, length-append payload bs) in
      let room : ltb max_size_cmdbuf (size + n) ≡ false = le→ltb _ _ (omega arith) in
      rw (room, new_bytes-item h x n i)
        (rw (write_bytes-payload payload bs start (omega arith) (omega arith)) (
          ap (λ c. record { cmd = c; error_state = none })
            (set_size-frame (tpm_header_size + length payload) (size + n) _ _ grown
              (omega (arith, grown)))))

  -- In a builder that holds a command with a payload, `tpm_update_buffer` with a field of one, two
  -- or four bytes that fits into the 246 bytes gives the builder of the same command with the
  -- field's bytes, most significant first, behind the payload, and the size in the header grown.
  pub update-fits :
      (payload : List ℕ) (x n : ℕ)
      → IsItem (x, n)
      → length payload + n ≤ max_cmd_data
      → tpm_update_buffer h (built tag cmd_code payload) x n
        ≡ built tag cmd_code (payload ++ item_bytes (x, n))
  unfolding tpm_update_buffer
  update-fits payload x n i fits =
      append_data-fits payload _ x n (size_of-frame h tag cmd_code payload (omega arith)) i fits

  -- In a builder that holds a command with a payload of at most 246 bytes, `tpm_update_buffer`
  -- with a field that does not fit behind it sets the error state to TPM_INVALID_PARAM, and
  -- changes no byte of the command.
  pub update-full :
      (payload : List ℕ) (x n : ℕ)
      → length payload ≤ max_cmd_data
      → max_cmd_data < length payload + n
      → tpm_update_buffer h (built tag cmd_code payload) x n
        ≡ record { cmd = frame tag cmd_code payload; error_state = some invalid_param }
  unfolding tpm_update_buffer append_data
  update-full payload x n room full =
      let over : ltb max_size_cmdbuf (tpm_header_size + length payload + n) ≡ true =
        lt→ltb _ _ (omega arith) in
      rw (size_of-frame h tag cmd_code payload room) (rw over refl)
