-- ===== src/Der.antt =====
-- crates/prover-core/src/analysis.rs: `Tlv`, `parse_tlv`, `parse_oid_raw` and `parse_oid_bytes`.
-- Offsets are `usize`; a buffer's bytes are below 256.
pub mod Tlv
pub mod Encoding
pub mod Oid
mod Tests
use vocdoni_passport_prover.Prelude.{
  ℕ, zero, suc, ◌+◌, ◌*◌, ◌/◌, ◌%◌, Bool, true, false, not, Option, none, some, List, [], ◌∷◌, ◌++◌,
  map, ltb, ◌==◌, if◌then◌else◌, get_elem?, message, detail, context, Outcome, ok, err, panic,
  ◌>>=◌, ◌>>◌, usize_values, add_usize,
}
use vocdoni_passport_prover.Prelude.Text.{Text, show_nat, bytes_slice}

abbrev pub Bytes : Type 0
Bytes = List ℕ

pub record TlvHeader : Type 0 where
  pub offset : ℕ
  pub tag : ℕ
  pub content_start : ℕ
  pub content_length : ℕ

-- The loop over the bytes of a long length, with the rounds left: the position and the length.
unfoldable pub long_length : ℕ → Bytes → ℕ → ℕ → Option (ℕ × ℕ)
long_length zero buf pos len = some (pos, len)
long_length (suc n) buf pos len = elim (get_elem? buf pos) [
  | none ↦ none
  | some b ↦ long_length n buf (pos + 1) ((len * 256) % usize_values + b)
]

-- `parse_tlv` behind the tag, at the first byte of the length.
unfoldable pub tlv_length : Bytes → ℕ → Option (ℕ × ℕ)
unfolding long_length
tlv_length buf pos = elim (get_elem? buf pos) [
  | none ↦ none
  | some b ↦
      if b == 0x80
      then none
      else if ltb 0x80 b
      then long_length (b % 128) buf (pos + 1) 0
      else some (pos + 1, b)
]

unfoldable pub parse_tlv : Bytes → ℕ → Option TlvHeader
unfolding tlv_length
parse_tlv buf offset = elim (get_elem? buf offset) [
  | none ↦ none
  | some t ↦ elim (tlv_length buf (offset + 1)) [
    | none ↦ none
    | some (p, l) ↦
        some (record { offset = offset; tag = t; content_start = p; content_length = l })
  ]
]

-- The loop of `parse_oid_raw` on a `u64` value: the shift drops what leaves the 64 bits.
unfoldable pub oid_parts : ℕ → Bytes → List ℕ
oid_parts value [] = []
oid_parts value (b ∷ bs) =
    let v = (value * 128) % usize_values + b % 128 in
    elim (ltb b 128) [ true ↦ v ∷ oid_parts 0 bs | false ↦ oid_parts v bs ]

-- `collect::<Vec<_>>().join(".")` of the printed parts.
unfoldable pub join_dots : List ℕ → Text
join_dots [] = []
join_dots (n ∷ []) = show_nat n
join_dots (n ∷ m ∷ ns) = show_nat n ++ (b'.' ∷ join_dots (m ∷ ns))

unfoldable pub parse_oid_raw : Bytes → Text
parse_oid_raw [] = []
parse_oid_raw (b ∷ bs) = join_dots ((b / 40) ∷ (b % 40) ∷ oid_parts 0 bs)

-- A build with overflow checks, or one without.
module _ (checks : Bool) where
  -- `&buf[tlv.content_start..tlv.content_start + tlv.content_length]`.
  unfoldable pub content : Bytes → TlvHeader → Outcome Bytes
  content buf t = do
    end ← add_usize checks t.content_start t.content_length
    bytes_slice buf t.content_start end

  unfoldable pub parse_oid_bytes : Bytes → Outcome Text
  unfolding content
  parse_oid_bytes bytes = do
    t ← context (parse_tlv bytes 0) "invalid OID TLV"
    raw ←
        (if not (t.tag == 0x06)
          then err (detail "expected OID tag, got {}" (show_nat t.tag ∷ []))
          else content bytes t)
    ok (parse_oid_raw raw)
