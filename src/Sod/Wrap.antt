-- ===== src/Sod/Wrap.antt =====
-- A build without overflow checks: where it does as the checked one, and where it never returns.
use vocdoni_passport_prover.Prelude.{
  ℕ, zero, suc, ◌+◌, ◌%◌, ◌<◌, false, Option, some, ◌≡◌, refl, arith, ◌==◌, ok, unfinished,
  add_usize, usize_values, add_usize-small, ◌∙◌,
}
use vocdoni_passport_prover.Der.{Bytes, TlvHeader, parse_tlv}
use vocdoni_passport_prover.Sod.{
  Certificate, next_pos, outer_fields, start_offset, parse_sod_envelope_on,
}

-- The header's end, as `usize` wraps it, is the place where the header itself begins.
abbrev pub WrapsBack : TlvHeader → ℕ → Type 0
WrapsBack t pos = (t.content_start + t.content_length ≡ usize_values + pos)

module _ (x : Bytes → Option Certificate) where
  next_pos-WrapsBack :
      (t : TlvHeader) (pos : ℕ) → pos < usize_values → WrapsBack t pos → next_pos false x t ≡ ok pos
  unfolding next_pos add_usize
  next_pos-WrapsBack t pos h w =
      let back : (t.content_start + t.content_length) % usize_values ≡ pos = omega arith in
      ground (arith, back)

  -- One round over a child that is not the payload.
  outer_fields_round :
      (inner fuel : ℕ) (sod : Bytes) (pos end n : ℕ) (t : TlvHeader)
      → pos < end
      → parse_tlv sod pos ≡ some t
      → (t.tag == 0xa0) ≡ false
      → next_pos false x t ≡ ok n
      → outer_fields false x inner (suc fuel) sod pos end
        ≡ outer_fields false x inner fuel sod n end
  unfolding outer_fields
  outer_fields_round inner fuel sod pos end n t h e g k = ground arith

  outer_fields-WrapsBack :
      (inner fuel : ℕ) (sod : Bytes) (pos end : ℕ) (t : TlvHeader)
      → pos < end
      → pos < usize_values
      → parse_tlv sod pos ≡ some t
      → (t.tag == 0xa0) ≡ false
      → WrapsBack t pos
      → outer_fields false x inner fuel sod pos end ≡ unfinished
  unfolding outer_fields
  outer_fields-WrapsBack inner zero sod pos end t h l e g w = refl
  outer_fields-WrapsBack inner (suc fuel) sod pos end t h l e g w =
      outer_fields_round inner fuel sod pos end pos t h e g (next_pos-WrapsBack t pos l w)
      ∙ outer_fields-WrapsBack inner fuel sod pos end t h l e g w

  -- In a build without overflow checks, a first child of the outer sequence whose stated length
  -- leads the sum round to the child itself keeps the loop going for ever: no number of rounds is
  -- enough.
  pub parse_sod_envelope_on-WrapsBack :
      (fuel : ℕ) (sod : Bytes) (offset : ℕ) (outer child : TlvHeader)
      → start_offset false x sod ≡ ok offset
      → parse_tlv sod offset ≡ some outer
      → 0 < outer.content_length
      → outer.content_start + outer.content_length < usize_values
      → parse_tlv sod outer.content_start ≡ some child
      → (child.tag == 0xa0) ≡ false
      → WrapsBack child outer.content_start
      → parse_sod_envelope_on false x fuel sod ≡ unfinished
  unfolding parse_sod_envelope_on
  parse_sod_envelope_on-WrapsBack fuel sod offset outer child s o l h c g w =
      rw (s, o, add_usize-small false outer.content_start outer.content_length h)
        (outer_fields-WrapsBack fuel fuel sod outer.content_start
          (outer.content_start + outer.content_length) child (omega arith) (omega arith) c g w)
