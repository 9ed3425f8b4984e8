-- ===== src/Der/Tlv.antt =====
-- Where a header that `parse_tlv` reads lies.
use vocdoni_passport_prover.Prelude.{
  ℕ, zero, suc, ◌+◌, ◌*◌, ◌%◌, ◌≤◌, ◌<◌, some, [], ◌∷◌, get_elem?, length, All, Option-cases, arith,
  ◌≡◌, usize_values, inl, inr,
}
use vocdoni_passport_prover.Der.{Bytes, TlvHeader, long_length, tlv_length, parse_tlv}

get_elem?-lt : (buf : Bytes) (i b : ℕ) → get_elem? buf i ≡ some b → i < length buf
get_elem?-lt [] i b h = cc
get_elem?-lt (x ∷ xs) zero b h = omega arith
get_elem?-lt (x ∷ xs) (suc i) b h = omega (arith, get_elem?-lt xs i b h)

get_elem?-byte :
    (buf : Bytes) (i b : ℕ) → All (λ x. x < 256) buf → get_elem? buf i ≡ some b → b < 256
get_elem?-byte [] i b a h = cc
get_elem?-byte (x ∷ xs) zero b a h = ground arith
get_elem?-byte (x ∷ xs) (suc i) b a h = get_elem?-byte xs i b a.1 h

-- A length lies behind the position where it was looked for and inside the buffer.
abbrev Lies : Bytes → ℕ → ℕ × ℕ → Type 0
Lies buf pos r = (pos ≤ r.0) × (r.0 ≤ length buf) × (r.1 < usize_values)

long_length-Lies :
    (n : ℕ) (buf : Bytes) (pos len : ℕ) (r : ℕ × ℕ)
    → All (λ x. x < 256) buf
    → pos ≤ length buf
    → len < usize_values
    → long_length n buf pos len ≡ some r
    → Lies buf pos r
unfolding long_length
long_length-Lies zero buf pos len r a p l e = ground arith
long_length-Lies (suc n) buf pos len r a p l e = elim (Option-cases (get_elem? buf pos)) [
  | inl h ↦ cc (rw (h, long_length) at e)
  | inr (b, h) ↦
      let at = get_elem?-lt buf pos b h in
      let byte = get_elem?-byte buf pos b a h in
      let (low, high, size) =
        long_length-Lies n buf (pos + 1) ((len * 256) % usize_values + b) r a (omega arith)
          (omega arith) (rw (h, long_length) at e) in
      (omega arith, high, size)
]

tlv_length-Lies :
    (buf : Bytes) (pos : ℕ) (r : ℕ × ℕ)
    → All (λ x. x < 256) buf
    → tlv_length buf pos ≡ some r
    → Lies buf (pos + 1) r
unfolding tlv_length
tlv_length-Lies buf pos r a e = elim (Option-cases (get_elem? buf pos)) [
  | inl h ↦ cc (rw (h, tlv_length) at e)
  | inr (b, h) ↦
      let at = get_elem?-lt buf pos b h in
      let byte = get_elem?-byte buf pos b a h in
      ground (
        arith,
        rw (h, tlv_length) at e,
        long_length-Lies (b % 128) buf (pos + 1) 0 r a (omega arith) (omega arith),
      )
]

-- What a header tells of the buffer that it was read from.
pub record HeaderIn (buf : Bytes) (offset : ℕ) (t : TlvHeader) : Type 0 where
  pub at : t.offset ≡ offset
  pub tagged : get_elem? buf offset ≡ some t.tag
  pub behind : offset + 2 ≤ t.content_start
  pub inside : t.content_start ≤ length buf
  pub sized : t.content_length < usize_values

-- A header that is read lies in the buffer: it begins at the offset with its tag, takes two bytes
-- or more, and ends inside. The length that it states is a `usize`; it may reach out of the
-- buffer.
pub parse_tlv-HeaderIn :
    (buf : Bytes) (offset : ℕ) (t : TlvHeader)
    → All (λ x. x < 256) buf
    → parse_tlv buf offset ≡ some t
    → HeaderIn buf offset t
unfolding parse_tlv
parse_tlv-HeaderIn buf offset t a e = elim (Option-cases (get_elem? buf offset)) [
  | inl h ↦ cc (rw (h, parse_tlv) at e)
  | inr (b, h) ↦ elim (Option-cases (tlv_length buf (offset + 1))) [
    | inl k ↦ cc (rw (h, parse_tlv, k) at e)
    | inr (r, k) ↦
        let (low, high, size) = tlv_length-Lies buf (offset + 1) r a k in
        let made = rw (h, parse_tlv, k) at e in
        record {
          at = ground (arith, made);
          tagged = ground (arith, made, h);
          behind = ground (arith, made, low);
          inside = ground (arith, made, high);
          sized = ground (arith, made, size);
        }
  ]
]

long_length-le :
    (n : ℕ) (buf : Bytes) (pos len : ℕ) (r : ℕ × ℕ) → long_length n buf pos len ≡ some r → pos ≤ r.0
unfolding long_length
long_length-le zero buf pos len r e = ground arith
long_length-le (suc n) buf pos len r e = elim (Option-cases (get_elem? buf pos)) [
  | inl h ↦ cc (rw (h, long_length) at e)
  | inr (b, h) ↦ omega (
    arith,
    long_length-le n buf (pos + 1) ((len * 256) % usize_values + b) r (rw (h, long_length) at e),
  )
]

tlv_length-le : (buf : Bytes) (pos : ℕ) (r : ℕ × ℕ) → tlv_length buf pos ≡ some r → pos + 1 ≤ r.0
unfolding tlv_length
tlv_length-le buf pos r e = elim (Option-cases (get_elem? buf pos)) [
  | inl h ↦ cc (rw (h, tlv_length) at e)
  | inr (b, h) ↦ ground (arith, rw (h, tlv_length) at e, long_length-le (b % 128) buf (pos + 1) 0 r)
]

-- Reading a header moves forward, and only inside the buffer.
pub parse_tlv_forward :
    (buf : Bytes) (offset : ℕ) (t : TlvHeader)
    → parse_tlv buf offset ≡ some t
    → (offset < length buf) × (offset + 2 ≤ t.content_start)
unfolding parse_tlv
parse_tlv_forward buf offset t e = elim (Option-cases (get_elem? buf offset)) [
  | inl h ↦ cc (rw (h, parse_tlv) at e)
  | inr (b, h) ↦ elim (Option-cases (tlv_length buf (offset + 1))) [
    | inl k ↦ cc (rw (h, parse_tlv, k) at e)
    | inr (r, k) ↦
        let made = rw (h, parse_tlv, k) at e in
        let low = tlv_length-le buf (offset + 1) r k in
        (get_elem?-lt buf offset b h, ground (arith, made, low))
  ]
]
