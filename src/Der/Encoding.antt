-- ===== src/Der/Encoding.antt =====
-- `parse_tlv` reads what DER writes: `encode_tlv` is the writer of X.690 with definite lengths.
use vocdoni_passport_prover.Prelude.{
  ℕ, zero, suc, ◌+◌, ◌*◌, ◌/◌, ◌%◌, ◌^◌, ◌≤◌, ◌<◌, none, some, [], ◌∷◌, ◌++◌, ltb, ◌==◌,
  if◌then◌else◌, get_elem?-append, length, length-append, Bool-cases, arith, ◌≡◌, ap, ◌∙◌,
  append_assoc, usize_values, inl, inr, ltb→lt, ltb→le, lt→ltb, le→ltb, ==_iff, ◌≢◌, ok,
}
use native.Mathlib.Nat.{pow-suc}
use vocdoni_passport_prover.Prelude.Text.{bytes_slice, bytes_slice_middle}
use vocdoni_passport_prover.Der.{Bytes, TlvHeader, long_length, tlv_length, parse_tlv}

-- The bytes of a number, most significant first, before those in `out`.
big_endian : ℕ → ℕ → Bytes → Bytes
big_endian zero n out = out
big_endian (suc f) n out =
    let rest = big_endian f (n / 256) ((n % 256) ∷ out) in if n == 0 then out else rest

-- The length of a content as DER writes it.
unfoldable pub encode_length : ℕ → Bytes
unfolding big_endian
encode_length n =
    if ltb n 128 then n ∷ [] else (128 + length (big_endian 8 n [])) ∷ big_endian 8 n []

unfoldable pub encode_tlv : ℕ → Bytes → Bytes
encode_tlv tag c = tag ∷ (encode_length (length c) ++ c)

length-big_endian : (f n : ℕ) (out : Bytes) → length (big_endian f n out) ≤ f + length out
unfolding big_endian
length-big_endian zero n out = omega arith
length-big_endian (suc f) n out = ground (arith, length-big_endian f (n / 256) ((n % 256) ∷ out))

-- What the loop makes of some bytes.
fold_length : ℕ → Bytes → ℕ
fold_length len [] = len
fold_length len (b ∷ bs) = fold_length ((len * 256) % usize_values + b) bs

fold_length-big_endian :
    (f n : ℕ) (out : Bytes)
    → n < 256 ^ f
    → n < usize_values
    → fold_length 0 (big_endian f n out) ≡ fold_length n out
unfolding fold_length big_endian
fold_length-big_endian zero n out h l = let z : n ≡ 0 = omega arith in rw z
fold_length-big_endian (suc f) n out h l = elim (Bool-cases (n == 0)) [
  | inl e ↦ (let z : n ≡ 0 = (==_iff n 0).0 e in rw (e, z))
  | inr e ↦ rw e (
      fold_length-big_endian f (n / 256) ((n % 256) ∷ out) (omega (arith, pow-suc 256 f))
        (omega arith)
      ∙ ap (λ x. fold_length x out) (omega arith))
]

long_length_lem :
    (bs pre rest : Bytes) (len : ℕ)
    → long_length (length bs) (pre ++ (bs ++ rest)) (length pre) len
      ≡ some (length pre + length bs, fold_length len bs)
unfolding long_length fold_length
long_length_lem [] pre rest len = ground arith
long_length_lem (b ∷ bs) pre rest len =
    let next = long_length_lem bs (pre ++ b ∷ []) rest ((len * 256) % usize_values + b) in
    let size : length (pre ++ b ∷ []) ≡ length pre + 1 = length-append pre (b ∷ []) in
    let same : (pre ++ b ∷ []) ++ (bs ++ rest) ≡ pre ++ (b ∷ (bs ++ rest)) =
      append_assoc pre (b ∷ []) (bs ++ rest) in
    rw (get_elem?-append pre b (bs ++ rest), long_length) (rw (same, size) at next ∙ ground arith)

-- What the header of a written content is.
abbrev pub header_of : Bytes → ℕ → Bytes → TlvHeader
header_of pre tag c = record {
  offset = length pre;
  tag = tag;
  content_start = length pre + (1 + length (encode_length (length c)));
  content_length = length c;
}

length-le-big_endian : (f n : ℕ) (out : Bytes) → length out ≤ length (big_endian f n out)
unfolding big_endian
length-le-big_endian zero n out = omega arith
length-le-big_endian (suc f) n out =
    ground (arith, length-le-big_endian f (n / 256) ((n % 256) ∷ out))

big_endian_some : (n : ℕ) → n ≢ 0 → 1 ≤ length (big_endian 8 n [])
unfolding big_endian
big_endian_some n h = ground (arith, length-le-big_endian 7 (n / 256) ((n % 256) ∷ []))

encode_length_short : (n : ℕ) → n < 128 → encode_length n ≡ n ∷ []
unfolding encode_length
encode_length_short n h = rw (lt→ltb n 128 h)

encode_length_long :
    (n : ℕ) → 128 ≤ n → encode_length n ≡ (128 + length (big_endian 8 n [])) ∷ big_endian 8 n []
unfolding encode_length
encode_length_long n h = rw (le→ltb n 128 h)

-- At a byte that is there, `tlv_length` goes by it.
tlv_length_at :
    (pre more : Bytes) (b : ℕ)
    → tlv_length (pre ++ b ∷ more) (length pre) ≡ (
        if b == 0x80
        then none
        else if ltb 0x80 b
        then long_length (b % 128) (pre ++ b ∷ more) (length pre + 1) 0
        else some (length pre + 1, b))
unfolding tlv_length
tlv_length_at pre more b = rw (get_elem?-append pre b more, tlv_length)

tlv_length-long :
    (pre rest bs : Bytes) (n : ℕ)
    → 1 ≤ length bs
    → length bs ≤ 8
    → fold_length 0 bs ≡ n
    → tlv_length (pre ++ (((128 + length bs) ∷ bs) ++ rest)) (length pre)
      ≡ some (length pre + suc (length bs), n)
tlv_length-long pre rest bs n low high e =
    let b = 128 + length bs in
    let size : length (pre ++ b ∷ []) ≡ length pre + 1 = length-append pre (b ∷ []) in
    let same : (pre ++ b ∷ []) ++ (bs ++ rest) ≡ pre ++ (b ∷ (bs ++ rest)) =
      append_assoc pre (b ∷ []) (bs ++ rest) in
    let run = rw (same, size) at (long_length_lem bs (pre ++ b ∷ []) rest 0) in
    let k : b % 128 ≡ length bs = omega arith in
    tlv_length_at pre (bs ++ rest) b ∙ rw (k, lt→ltb 128 b (omega arith)) (ground (arith, run))

fold_length_all : (n : ℕ) → n < usize_values → fold_length 0 (big_endian 8 n []) ≡ n
unfolding fold_length
fold_length_all n h = fold_length-big_endian 8 n [] (omega arith) h

tlv_length-encode_length :
    (pre rest : Bytes) (n : ℕ)
    → n < usize_values
    → tlv_length (pre ++ (encode_length n ++ rest)) (length pre)
      ≡ some (length pre + length (encode_length n), n)
tlv_length-encode_length pre rest n h = elim (Bool-cases (ltb n 128)) [
  | inl e ↦
      let small = ltb→lt n 128 e in
      rw (encode_length_short n small) (tlv_length_at pre rest n ∙ ground arith)
  | inr e ↦
      let large = ltb→le n 128 e in
      rw (encode_length_long n large) (
        tlv_length-long pre rest (big_endian 8 n []) n (big_endian_some n (omega arith))
          (omega (arith, length-big_endian 8 n [])) (fold_length_all n h))
]

parse_tlv_at :
    (pre more : Bytes) (tag p l : ℕ)
    → tlv_length (pre ++ tag ∷ more) (length pre + 1) ≡ some (p, l)
    → parse_tlv (pre ++ tag ∷ more) (length pre)
      ≡ some (record { offset = length pre; tag = tag; content_start = p; content_length = l })
unfolding parse_tlv
parse_tlv_at pre more tag p l e = rw (get_elem?-append pre tag more, parse_tlv, e)

-- What DER writes is read back: at the start of a written content, whatever stands before and
-- behind it, the header has the content's tag and length, and the content begins where it says.
pub parse_tlv-encode_tlv :
    (pre rest c : Bytes) (tag : ℕ)
    → length c < usize_values
    → (parse_tlv (pre ++ (encode_tlv tag c ++ rest)) (length pre) ≡ some (header_of pre tag c))
      × (bytes_slice
            (pre ++ (encode_tlv tag c ++ rest))
            (header_of pre tag c).content_start
            ((header_of pre tag c).content_start + length c)
          ≡ ok c)
unfolding encode_tlv
parse_tlv-encode_tlv pre rest c tag h =
    let len = encode_length (length c) in
    let size : length (pre ++ tag ∷ []) ≡ length pre + 1 = length-append pre (tag ∷ []) in
    let same : (pre ++ tag ∷ []) ++ (len ++ (c ++ rest)) ≡ pre ++ (tag ∷ (len ++ (c ++ rest))) =
      append_assoc pre (tag ∷ []) (len ++ (c ++ rest)) in
    let found =
      rw (same, size) at (tlv_length-encode_length (pre ++ tag ∷ []) (c ++ rest) (length c) h) in
    let behind : (len ++ c) ++ rest ≡ len ++ (c ++ rest) = append_assoc len c rest in
    let front : length (pre ++ (tag ∷ len)) ≡ length pre + (1 + length len) =
      omega (arith, length-append pre (tag ∷ len)) in
    (
      rw behind (
          parse_tlv_at pre (len ++ (c ++ rest)) tag (length pre + 1 + length len) (length c) found
          ∙ ground arith),
      rw behind (
          rw (append_assoc pre (tag ∷ len) (c ++ rest), front) at
            (bytes_slice_middle (pre ++ (tag ∷ len)) c rest)),
    )
