-- ===== src/Sod/Finishes.antt =====
-- With overflow checks the walk returns for every input: each loop has fuel enough.
use vocdoni_passport_prover.Prelude.{
  ℕ, zero, suc, ◌+◌, ◌-◌, ◌<◌, true, ◌&&◌, Option, some, [], ◌∷◌, ◌≡◌, arith, ltb, leb, ◌==◌,
  length, ok, Bool-cases, inl, inr,
}
use vocdoni_passport_prover.Der.{Bytes, TlvHeader, parse_tlv}
use vocdoni_passport_prover.Der.Tlv.{parse_tlv_forward}
use vocdoni_passport_prover.Sod.{
  Certificate, SignedData, no_signed_data, next_pos, find_octet_string, parse_econtent_info,
  signer_fields, parse_signer_info_signature_algorithm, read_digest, read_econtent,
  read_certificate, read_signer, read_field, signed_fields, envelope_of, parse_signed_data,
  outer_fields, start_offset, parse_sod_envelope,
}
use vocdoni_passport_prover.Sod.Progress.{
  Finishes, >>=-Finishes, ok-Finishes, context-Finishes, context-eq-ok, add_usize-Finishes,
  bytes_slice-Finishes, content-Finishes, next_pos-Finishes, parse_lds_hash_algorithm_oid-Finishes,
  next_pos-le,
}

module _ (x : Bytes → Option Certificate) where
  -- What one header leaves of the buffer is less than the fuel that is left.
  fuel_left :
      (buf : Bytes) (pos fuel : ℕ) (t : TlvHeader) (n : ℕ)
      → length buf - pos < suc fuel
      → parse_tlv buf pos ≡ some t
      → next_pos true x t ≡ ok n
      → length buf - n < fuel
  fuel_left buf pos fuel t n h e k =
      omega (arith, parse_tlv_forward buf pos t e, next_pos-le x t n k)

  find_octet_string-Finishes :
      (fuel : ℕ) (buf : Bytes) (pos end : ℕ)
      → length buf - pos < fuel
      → Finishes (find_octet_string true x fuel buf pos end)
  unfolding find_octet_string
  find_octet_string-Finishes zero buf pos end h = absurd (omega arith)
  find_octet_string-Finishes (suc fuel) buf pos end h = elim (Bool-cases (ltb pos end)) [
    | inr e ↦ rw (e, find_octet_string) (ok-Finishes _)
    | inl e ↦
        rw (e, find_octet_string)
          (>>=-Finishes _ _ (context-Finishes (parse_tlv buf pos) _) (λ tlv read.
            elim (Bool-cases (tlv.tag == 0xa0)) [
              | inl f ↦ rw f (
                  >>=-Finishes _ _ (context-Finishes (parse_tlv buf tlv.content_start) _)
                    (λ octet _.
                      >>=-Finishes _ _ (content-Finishes true buf octet) (λ c _. ok-Finishes _)))
              | inr f ↦ rw f (
                  >>=-Finishes _ _ (next_pos-Finishes true x tlv) (λ next step.
                    find_octet_string-Finishes fuel buf next end
                      (fuel_left buf pos fuel tlv next h (context-eq-ok _ _ read) step)))
            ]))
  ]

  parse_econtent_info-Finishes :
      (fuel : ℕ) (buf : Bytes) (start len : ℕ)
      → length buf < fuel
      → Finishes (parse_econtent_info true x fuel buf start len)
  unfolding parse_econtent_info
  parse_econtent_info-Finishes fuel buf start len h =
      >>=-Finishes _ _ (add_usize-Finishes true start len) (λ end _.
        >>=-Finishes _ _ (find_octet_string-Finishes fuel buf start end (omega arith)) (λ o _.
          >>=-Finishes _ _ (context-Finishes o _) (λ c _.
            >>=-Finishes _ _ (parse_lds_hash_algorithm_oid-Finishes true x c)
              (λ oid _. ok-Finishes _))))

  signer_fields-Finishes :
      (fuel : ℕ) (buf : Bytes) (pos end i : ℕ)
      → length buf - pos < fuel
      → Finishes (signer_fields true x fuel buf pos end i)
  unfolding signer_fields
  signer_fields-Finishes zero buf pos end i h = absurd (omega arith)
  signer_fields-Finishes (suc fuel) buf pos end i h = elim (Bool-cases (ltb pos end)) [
    | inr e ↦ rw (e, signer_fields) (λ d. cc)
    | inl e ↦
        rw (e, signer_fields)
          (>>=-Finishes _ _ (context-Finishes (parse_tlv buf pos) _) (λ tlv read.
            elim (Bool-cases (tlv.tag == 0x30 && leb 3 i)) [
              | inl f ↦ rw f (
                  >>=-Finishes _ _ (context-Finishes (parse_tlv buf tlv.content_start) _) (λ oid _.
                    >>=-Finishes _ _ (content-Finishes true buf oid) (λ raw _. ok-Finishes _)))
              | inr f ↦ rw f (
                  >>=-Finishes _ _ (next_pos-Finishes true x tlv) (λ next step.
                    signer_fields-Finishes fuel buf next end (i + 1)
                      (fuel_left buf pos fuel tlv next h (context-eq-ok _ _ read) step)))
            ]))
  ]

  parse_signer_info_signature_algorithm-Finishes :
      (fuel : ℕ) (buf : Bytes) (start len : ℕ)
      → length buf < fuel
      → Finishes (parse_signer_info_signature_algorithm true x fuel buf start len)
  unfolding parse_signer_info_signature_algorithm
  parse_signer_info_signature_algorithm-Finishes fuel buf start len h =
      >>=-Finishes _ _ (add_usize-Finishes true start len)
        (λ end _. signer_fields-Finishes fuel buf start end 0 (omega arith))

  read_digest-Finishes :
      (buf : Bytes) (t : TlvHeader) (i : ℕ) (s : SignedData)
      → Finishes (read_digest true x buf t i s)
  unfolding read_digest
  read_digest-Finishes buf t i s = elim (Bool-cases (i == 1 && t.tag == 0x31)) [
    | inr e ↦ rw (e, read_digest) (ok-Finishes s)
    | inl e ↦
        rw (e, read_digest)
          (>>=-Finishes _ _ (context-Finishes (parse_tlv buf t.content_start) _) (λ seq _.
            >>=-Finishes _ _ (context-Finishes (parse_tlv buf seq.content_start) _)
              (λ oid _. >>=-Finishes _ _ (content-Finishes true buf oid) (λ raw _. ok-Finishes _))))
  ]

  read_econtent-Finishes :
      (fuel : ℕ) (buf : Bytes) (t : TlvHeader) (i : ℕ) (s : SignedData)
      → length buf < fuel
      → Finishes (read_econtent true x fuel buf t i s)
  unfolding read_econtent
  read_econtent-Finishes fuel buf t i s h = elim (Bool-cases (i == 2 && t.tag == 0x30)) [
    | inr e ↦ rw (e, read_econtent) (ok-Finishes s)
    | inl e ↦
        rw (e, read_econtent)
          (>>=-Finishes _ _
            (parse_econtent_info-Finishes fuel buf t.content_start t.content_length h)
            (λ r _. ok-Finishes _))
  ]

  read_certificate-Finishes :
      (buf : Bytes) (t : TlvHeader) (i : ℕ) (s : SignedData)
      → Finishes (read_certificate true x buf t i s)
  unfolding read_certificate
  read_certificate-Finishes buf t i s = elim (Bool-cases (t.tag == 0xa0 && leb 3 i)) [
    | inr e ↦ rw (e, read_certificate) (ok-Finishes s)
    | inl e ↦
        rw (e, read_certificate)
          (>>=-Finishes _ _ (context-Finishes (parse_tlv buf t.content_start) _) (λ seq _.
            >>=-Finishes _ _ (add_usize-Finishes true seq.content_start seq.content_length)
              (λ end _. >>=-Finishes _ _ (bytes_slice-Finishes buf seq.offset end) (λ der _.
                >>=-Finishes _ _ (context-Finishes (x der) _) (λ cert _. ok-Finishes _)))))
  ]

  read_signer-Finishes :
      (fuel : ℕ) (buf : Bytes) (t : TlvHeader) (i : ℕ) (s : SignedData)
      → length buf < fuel
      → Finishes (read_signer true x fuel buf t i s)
  unfolding read_signer
  read_signer-Finishes fuel buf t i s h = elim (Bool-cases (t.tag == 0x31 && leb 4 i)) [
    | inr e ↦ rw (e, read_signer) (ok-Finishes s)
    | inl e ↦
        rw (e, read_signer)
          (>>=-Finishes _ _ (context-Finishes (parse_tlv buf t.content_start) _) (λ info _.
            >>=-Finishes _ _
              (parse_signer_info_signature_algorithm-Finishes fuel buf info.content_start
                info.content_length h)
              (λ oid _. ok-Finishes _)))
  ]

  read_field-Finishes :
      (fuel : ℕ) (buf : Bytes) (t : TlvHeader) (i : ℕ) (s : SignedData)
      → length buf < fuel
      → Finishes (read_field true x fuel buf t i s)
  unfolding read_field
  read_field-Finishes fuel buf t i s h = >>=-Finishes _ _ (read_digest-Finishes buf t i s) (λ s1 _.
      >>=-Finishes _ _ (read_econtent-Finishes fuel buf t i s1 h) (λ s2 _.
        >>=-Finishes _ _ (read_certificate-Finishes buf t i s2)
          (λ s3 _. read_signer-Finishes fuel buf t i s3 h)))

  signed_fields-Finishes :
      (inner fuel : ℕ) (buf : Bytes) (pos end i : ℕ) (s : SignedData)
      → length buf < inner
      → length buf - pos < fuel
      → Finishes (signed_fields true x inner fuel buf pos end i s)
  unfolding signed_fields
  signed_fields-Finishes inner zero buf pos end i s g h = absurd (omega arith)
  signed_fields-Finishes inner (suc fuel) buf pos end i s g h = elim (Bool-cases (ltb pos end)) [
    | inr e ↦ rw (e, signed_fields) (ok-Finishes s)
    | inl e ↦
        rw (e, signed_fields)
          (>>=-Finishes _ _ (context-Finishes (parse_tlv buf pos) _) (λ tlv read.
            >>=-Finishes _ _ (read_field-Finishes inner buf tlv i s g) (λ s' _.
              >>=-Finishes _ _ (next_pos-Finishes true x tlv) (λ next step.
                signed_fields-Finishes inner fuel buf next end (i + 1) s' g
                  (fuel_left buf pos fuel tlv next h (context-eq-ok _ _ read) step)))))
  ]

  envelope_of-Finishes : (s : SignedData) → Finishes (envelope_of true x s)
  unfolding envelope_of
  envelope_of-Finishes s = >>=-Finishes _ _ (context-Finishes s.certificate _) (λ a _.
      >>=-Finishes _ _ (context-Finishes s.certificate_signature _) (λ b _.
        >>=-Finishes _ _ (context-Finishes s.digest _) (λ c _.
          >>=-Finishes _ _ (context-Finishes s.signer_signature _) (λ d _.
            >>=-Finishes _ _ (context-Finishes s.econtent_hash _)
              (λ e _. >>=-Finishes _ _ (context-Finishes s.econtent _) (λ f _. ok-Finishes _))))))

  parse_signed_data-Finishes :
      (fuel : ℕ) (buf : Bytes) (start len : ℕ)
      → length buf < fuel
      → Finishes (parse_signed_data true x fuel buf start len)
  unfolding parse_signed_data
  parse_signed_data-Finishes fuel buf start len h =
      >>=-Finishes _ _ (add_usize-Finishes true start len) (λ end _.
        >>=-Finishes _ _
          (signed_fields-Finishes fuel fuel buf start end 0 no_signed_data h (omega arith))
          (λ s _. envelope_of-Finishes s))

  outer_fields-Finishes :
      (inner fuel : ℕ) (sod : Bytes) (pos end : ℕ)
      → length sod < inner
      → length sod - pos < fuel
      → Finishes (outer_fields true x inner fuel sod pos end)
  unfolding outer_fields
  outer_fields-Finishes inner zero sod pos end g h = absurd (omega arith)
  outer_fields-Finishes inner (suc fuel) sod pos end g h = elim (Bool-cases (ltb pos end)) [
    | inr e ↦ rw (e, outer_fields) (λ d. cc)
    | inl e ↦
        rw (e, outer_fields)
          (>>=-Finishes _ _ (context-Finishes (parse_tlv sod pos) _) (λ tlv read.
            elim (Bool-cases (tlv.tag == 0xa0)) [
              | inl f ↦ rw f (
                  >>=-Finishes _ _ (context-Finishes (parse_tlv sod tlv.content_start) _) (λ d _.
                    parse_signed_data-Finishes inner sod d.content_start d.content_length g))
              | inr f ↦ rw f (
                  >>=-Finishes _ _ (next_pos-Finishes true x tlv) (λ next step.
                    outer_fields-Finishes inner fuel sod next end g
                      (fuel_left sod pos fuel tlv next h (context-eq-ok _ _ read) step)))
            ]))
  ]

  start_offset-Finishes : (sod : Bytes) → Finishes (start_offset true x sod)
  unfolding start_offset
  start_offset-Finishes [] = ok-Finishes 0
  start_offset-Finishes (b ∷ bs) = elim (Bool-cases (b == 0x77)) [
    | inr e ↦ rw (e, start_offset) (ok-Finishes 0)
    | inl e ↦
        rw (e, start_offset)
          (>>=-Finishes _ _ (context-Finishes (parse_tlv (b ∷ bs) 0) _) (λ w _. ok-Finishes _))
  ]

  -- In a build with overflow checks `parse_sod_envelope` returns for every input, whatever the
  -- certificate parser does: a result, an error or a panic, and no loop runs on. One round of each
  -- loop for each byte, and one more, is enough.
  pub parse_sod_envelope-Finishes : (sod : Bytes) → Finishes (parse_sod_envelope true x sod)
  unfolding parse_sod_envelope
  parse_sod_envelope-Finishes sod = >>=-Finishes _ _ (start_offset-Finishes sod) (λ offset _.
      >>=-Finishes _ _ (context-Finishes (parse_tlv sod offset) _) (λ outer _.
        >>=-Finishes _ _ (add_usize-Finishes true outer.content_start outer.content_length)
          (λ end _.
            outer_fields-Finishes (length sod + 1) (length sod + 1) sod outer.content_start end
              (omega arith) (omega arith))))
