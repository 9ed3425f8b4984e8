-- ===== src/Analysis/Keys.antt =====
-- `parse_subject_public_key_info` reads keys as DER writes them.
use vocdoni_passport_prover.Prelude.{
  ℕ, ◌+◌, ◌*◌, ◌%◌, ◌<◌, Bool, [], ◌∷◌, ◌++◌, ◌≡◌, refl, ap, ◌∙◌, arith, length, length-append,
  some, ok, err, Error, usize_values, add_usize, add_usize-small, append-nil,
}
use vocdoni_passport_prover.Prelude.Text.{text_eq, match_text, bytes_slice, show_nat}
use vocdoni_passport_prover.Resolution.{
  EcCurveToken, from_zkpassport_name, ecdsa, rsa_pkcs, rsa_pss, nist_p192, nist_p224, nist_p256,
  nist_p384, nist_p521, brainpool160r1, brainpool160t1, brainpool192r1, brainpool192t1,
  brainpool224r1, brainpool224t1, brainpool256r1, brainpool256t1, brainpool320r1, brainpool320t1,
  brainpool384r1, brainpool384t1, brainpool512r1, brainpool512t1,
}
use vocdoni_passport_prover.Der.{
  Bytes, parse_tlv, oid_parts, join_dots, parse_oid_raw, content, parse_oid_bytes,
}
use vocdoni_passport_prover.Der.Encoding.{
  encode_length, encode_tlv, header_of, parse_tlv-encode_tlv,
}
use vocdoni_passport_prover.Der.Oid.{encode_arc, encode_arcs, encode_oid}
use vocdoni_passport_prover.Analysis.{
  oid_ec_public_key, oid_rsa_encryption, oid_rsassa_pss, drop_sign_byte, u32_values,
  parse_rsa_key_size_bits, parse_ec_key, parse_rsa_key, parse_subject_public_key_info,
}

abbrev pub brainpool : ℕ → Bytes
brainpool n = encode_oid 1 3 (36 ∷ 3 ∷ 3 ∷ 2 ∷ 8 ∷ 1 ∷ 1 ∷ n ∷ [])

-- The object identifier of a curve: its first two arcs share the byte 0x2a for 1.2 and 0x2b for
-- 1.3 (SEC 2, RFC 5639).
abbrev pub curve_oid : EcCurveToken → Bytes
curve_oid nist_p192 = encode_oid 1 2 (840 ∷ 10045 ∷ 3 ∷ 1 ∷ 1 ∷ [])
curve_oid nist_p224 = encode_oid 1 3 (132 ∷ 0 ∷ 33 ∷ [])
curve_oid nist_p256 = encode_oid 1 2 (840 ∷ 10045 ∷ 3 ∷ 1 ∷ 7 ∷ [])
curve_oid nist_p384 = encode_oid 1 3 (132 ∷ 0 ∷ 34 ∷ [])
curve_oid nist_p521 = encode_oid 1 3 (132 ∷ 0 ∷ 35 ∷ [])
curve_oid brainpool160r1 = brainpool 1
curve_oid brainpool160t1 = brainpool 2
curve_oid brainpool192r1 = brainpool 3
curve_oid brainpool192t1 = brainpool 4
curve_oid brainpool224r1 = brainpool 5
curve_oid brainpool224t1 = brainpool 6
curve_oid brainpool256r1 = brainpool 7
curve_oid brainpool256t1 = brainpool 8
curve_oid brainpool320r1 = brainpool 9
curve_oid brainpool320t1 = brainpool 10
curve_oid brainpool384r1 = brainpool 11
curve_oid brainpool384t1 = brainpool 12
curve_oid brainpool512r1 = brainpool 13
curve_oid brainpool512t1 = brainpool 14

-- The whole DER of a named curve's identifier, header and all, selects that curve, for each of the
-- nineteen curves and whatever the point.
pub parse_subject_public_key_info-curve :
    (checks : Bool) (c : EcCurveToken) (point : Bytes)
    → parse_subject_public_key_info checks oid_ec_public_key (encode_tlv 0x06 (curve_oid c)) point
      ≡ ok (ecdsa c)
unfolding parse_subject_public_key_info parse_ec_key parse_oid_bytes parse_tlv content add_usize
    bytes_slice parse_oid_raw oid_parts join_dots show_nat match_text text_eq from_zkpassport_name
    encode_tlv encode_length encode_oid encode_arcs encode_arc
parse_subject_public_key_info-curve checks nist_p192 point = refl
parse_subject_public_key_info-curve checks _ point = refl

-- Its content octets alone, without the header, are refused.
pub parse_subject_public_key_info-curve_content :
    (checks : Bool) (c : EcCurveToken) (point : Bytes)
    → (e : Error) × (parse_subject_public_key_info checks oid_ec_public_key (curve_oid c) point
        ≡ err e)
unfolding parse_subject_public_key_info parse_ec_key parse_oid_bytes parse_tlv text_eq encode_oid
    encode_arcs encode_arc
parse_subject_public_key_info-curve_content checks nist_p192 point = (_, refl)
parse_subject_public_key_info-curve_content checks _ point = (_, refl)

-- The DER of an RSA key: a sequence of the modulus and the exponent.
unfoldable pub rsa_key : Bytes → Bytes → Bytes
rsa_key modulus exponent = encode_tlv 0x30 (encode_tlv 0x02 modulus ++ encode_tlv 0x02 exponent)

-- What stands in front of the modulus.
rsa_front : Bytes → Bytes → Bytes
rsa_front m e = 0x30 ∷ encode_length (length (encode_tlv 0x02 m ++ encode_tlv 0x02 e))

rsa_key-front :
    (m e : Bytes) → rsa_key m e ≡ rsa_front m e ++ (encode_tlv 0x02 m ++ encode_tlv 0x02 e)
unfolding rsa_key rsa_front encode_tlv
rsa_key-front m e = refl

rsa_key-sequence :
    (m e : Bytes)
    → length (rsa_key m e) < usize_values
    → parse_tlv (rsa_key m e) 0 ≡ some (header_of [] 0x30 (encode_tlv 0x02 m ++ encode_tlv 0x02 e))
unfolding rsa_key
rsa_key-sequence m e h =
    let body = encode_tlv 0x02 m ++ encode_tlv 0x02 e in
    let long : length (rsa_key m e) ≡ length (rsa_front m e) + length body =
      ap length (rsa_key-front m e) ∙ length-append (rsa_front m e) body in
    let read = (parse_tlv-encode_tlv [] [] body 0x30 (omega arith)).0 in
    rw (append-nil (encode_tlv 0x30 body)) at read

length-encode_tlv :
    (tag : ℕ) (c : Bytes)
    → length (encode_tlv tag c) ≡ 1 + (length (encode_length (length c)) + length c)
unfolding encode_tlv
length-encode_tlv tag c = omega (arith, length-append (encode_length (length c)) c)

-- A content whose end is a `usize` is what the slice behind its header holds.
content-encode_tlv :
    (checks : Bool) (pre rest c : Bytes) (tag : ℕ)
    → length (pre ++ (encode_tlv tag c ++ rest)) < usize_values
    → content checks (pre ++ (encode_tlv tag c ++ rest)) (header_of pre tag c) ≡ ok c
unfolding content
content-encode_tlv checks pre rest c tag h =
    let t = header_of pre tag c in
    let size : length (pre ++ (encode_tlv tag c ++ rest))
        ≡ length pre + (1 + (length (encode_length (length c)) + length c) + length rest) =
      omega (
        arith,
        length-append pre (encode_tlv tag c ++ rest),
        length-append (encode_tlv tag c) rest,
        length-encode_tlv tag c,
      ) in
    rw (add_usize-small checks t.content_start t.content_length (omega arith))
      (parse_tlv-encode_tlv pre rest c tag (omega arith)).1

module _ (checks : Bool) (m e : Bytes) (h : length (rsa_key m e) < usize_values) where
  rsa_key-modulus :
      (parse_tlv (rsa_key m e) (length (rsa_front m e)) ≡ some (header_of (rsa_front m e) 0x02 m))
      × (content checks (rsa_key m e) (header_of (rsa_front m e) 0x02 m) ≡ ok m)
  rsa_key-modulus =
      let pre = rsa_front m e in
      let rest = encode_tlv 0x02 e in
      let size : length (rsa_key m e)
          ≡ length pre + (1 + (length (encode_length (length m)) + length m) + length rest) =
        ap length (rsa_key-front m e)
        ∙ omega (
          arith,
          length-append pre (encode_tlv 0x02 m ++ rest),
          length-append (encode_tlv 0x02 m) rest,
          length-encode_tlv 0x02 m,
        ) in
      let fits : length (pre ++ (encode_tlv 0x02 m ++ rest)) < usize_values =
        rw (rsa_key-front m e) at h in
      rw (rsa_key-front m e) (
        (parse_tlv-encode_tlv pre rest m 0x02 (omega arith)).0,
        content-encode_tlv checks pre rest m 0x02 fits,
      )

  parse_rsa_key_size_bits-rsa_key :
      parse_rsa_key_size_bits checks (rsa_key m e)
      ≡ ok ((length (drop_sign_byte m) * 8) % u32_values)
  unfolding parse_rsa_key_size_bits
  parse_rsa_key_size_bits-rsa_key =
      let (read, bytes) = rsa_key-modulus in
      let start : (header_of [] 0x30 (encode_tlv 0x02 m ++ encode_tlv 0x02 e)).content_start
          ≡ length (rsa_front m e) =
        unfold rsa_front in omega arith in
      rw (rsa_key-sequence m e h) (rw start (rw read (rw bytes)))

-- An RSA key whose modulus is written as DER writes a positive integer, with a zero byte in front
-- of its highest bit, has eight bits for each byte of the modulus. The algorithm's identifier
-- tells the padding scheme. The key fits in memory and its modulus is shorter than 2^29 bytes.
pub parse_subject_public_key_info-rsa_key :
    (checks : Bool) (modulus exponent parameters : Bytes)
    → length (rsa_key (0 ∷ modulus) exponent) < usize_values
    → 8 * length modulus < u32_values
    → (parse_subject_public_key_info checks oid_rsa_encryption parameters
          (rsa_key (0 ∷ modulus) exponent)
        ≡ ok (rsa_pkcs (8 * length modulus)))
      × (parse_subject_public_key_info checks oid_rsassa_pss parameters
            (rsa_key (0 ∷ modulus) exponent)
          ≡ ok (rsa_pss (8 * length modulus)))
unfolding parse_subject_public_key_info parse_rsa_key text_eq drop_sign_byte
parse_subject_public_key_info-rsa_key checks modulus exponent parameters h l =
    let bits = parse_rsa_key_size_bits-rsa_key checks (0 ∷ modulus) exponent h in
    let small : (length modulus * 8) % u32_values ≡ 8 * length modulus = omega arith in
    (rw (bits, small), rw (bits, small))
