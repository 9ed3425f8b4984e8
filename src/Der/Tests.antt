-- ===== src/Der/Tests.antt =====
-- Headers and identifiers of sample buffers, and the theorems at them.
use vocdoni_passport_prover.Prelude.{
  List, ◌≤◌, ℕ, ◌+◌, some, [], ◌∷◌, ◌++◌, ◌≡◌, refl, arith, length, replicate, ok,
}
use vocdoni_passport_prover.Prelude.Text.{codes, bytes_slice, show_nat}
use vocdoni_passport_prover.Der.{Bytes, TlvHeader, parse_tlv, oid_parts, join_dots, parse_oid_raw}
use vocdoni_passport_prover.Der.Tlv.{HeaderIn, parse_tlv-HeaderIn}
use vocdoni_passport_prover.Der.Encoding.{encode_tlv, header_of, parse_tlv-encode_tlv}
use vocdoni_passport_prover.Der.Oid.{
  encode_oid, encode_arcs, encode_arc, parse_oid_raw-encode_oid, parse_oid_raw_second_arc,
}

-- The identifier of SHA-256 as it stands in a signed object.
abbrev sha256_oid : Bytes
sha256_oid = 0x60 ∷ 0x86 ∷ 0x48 ∷ 0x01 ∷ 0x65 ∷ 0x03 ∷ 0x04 ∷ 0x02 ∷ 0x01 ∷ []

sha256_oid_text : parse_oid_raw sha256_oid ≡ codes "2.16.840.1.101.3.4.2.1"
unfolding parse_oid_raw oid_parts join_dots show_nat
sha256_oid_text = refl

sha256_oid_bytes : encode_oid 2 16 (840 ∷ 1 ∷ 101 ∷ 3 ∷ 4 ∷ 2 ∷ 1 ∷ []) ≡ sha256_oid
unfolding encode_oid encode_arcs encode_arc
sha256_oid_bytes = refl

abbrev long_header : TlvHeader
long_header = record { offset = 1; tag = 0x30; content_start = 5; content_length = 0x0102 }

abbrev long_buffer : Bytes
long_buffer = 0x00 ∷ 0x30 ∷ 0x82 ∷ 0x01 ∷ 0x02 ∷ 0x04 ∷ []

long_read : parse_tlv long_buffer 1 ≡ some long_header
unfolding parse_tlv
long_read = refl

parse_tlv-HeaderIn_example : HeaderIn long_buffer 1 long_header
parse_tlv-HeaderIn_example = parse_tlv-HeaderIn long_buffer 1 long_header (omega arith) long_read

parse_tlv-encode_tlv_example :
    (parse_tlv ((0x05 ∷ 0x00 ∷ []) ++ (encode_tlv 0x04 (replicate 200 7) ++ (0x01 ∷ []))) 2
      ≡ some (header_of (0x05 ∷ 0x00 ∷ []) 0x04 (replicate 200 7)))
    × (bytes_slice
          ((0x05 ∷ 0x00 ∷ []) ++ (encode_tlv 0x04 (replicate 200 7) ++ (0x01 ∷ [])))
          (header_of (0x05 ∷ 0x00 ∷ []) 0x04 (replicate 200 7)).content_start
          ((header_of (0x05 ∷ 0x00 ∷ []) 0x04 (replicate 200 7)).content_start
            + length {A = ℕ} (replicate 200 7))
        ≡ ok (replicate 200 7))
parse_tlv-encode_tlv_example =
    parse_tlv-encode_tlv (0x05 ∷ 0x00 ∷ []) (0x01 ∷ []) (replicate 200 7) 0x04 (omega arith)

parse_oid_raw-encode_oid_example :
    parse_oid_raw (encode_oid 1 2 (840 ∷ 113549 ∷ 1 ∷ 1 ∷ 11 ∷ []))
    ≡ join_dots (1 ∷ 2 ∷ 840 ∷ 113549 ∷ 1 ∷ 1 ∷ 11 ∷ [])
parse_oid_raw-encode_oid_example =
    parse_oid_raw-encode_oid 1 2 (840 ∷ 113549 ∷ 1 ∷ 1 ∷ 11 ∷ []) (omega arith) (omega arith)
      (omega arith)

-- The example of X.690: 2.999 is read as 3.16.55.
second_arc_999 :
    (encode_oid 2 999 [] ≡ 0x88 ∷ 0x37 ∷ [])
    × (parse_oid_raw (encode_oid 2 999 []) ≡ codes "3.16.55")
unfolding encode_oid encode_arcs encode_arc parse_oid_raw oid_parts join_dots show_nat
second_arc_999 = (refl, refl)

parse_oid_raw_second_arc_example :
    (first : ℕ) × (parts : List ℕ) × (3 ≤ first)
    × (first ≤ 6)
    × (parse_oid_raw (encode_oid 2 999 []) ≡ join_dots (first ∷ parts))
parse_oid_raw_second_arc_example = parse_oid_raw_second_arc 999 [] (omega arith)
