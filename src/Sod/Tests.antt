-- ===== src/Sod/Tests.antt =====
-- The walk over sample buffers, and the theorems at them.
use vocdoni_passport_prover.Prelude.{
  true, false, none, some, Option, [], ◌∷◌, ◌≡◌, refl, arith, ok, unfinished,
}
use vocdoni_passport_prover.Der.{Bytes, TlvHeader, parse_tlv}
use vocdoni_passport_prover.Sod.{
  Certificate, start_offset, parse_sod_envelope_on, parse_sod_envelope,
}
use vocdoni_passport_prover.Sod.Progress.{Finishes}
use vocdoni_passport_prover.Sod.Finishes.{parse_sod_envelope-Finishes}
use vocdoni_passport_prover.Sod.Wrap.{parse_sod_envelope_on-WrapsBack}

-- A certificate parser that takes nothing.
abbrev no_certificate : Bytes → Option Certificate
no_certificate der = none

-- A child whose eight length bytes lead back to its own first byte.
abbrev looping : Bytes
looping = 0x30 ∷ 0x0a ∷ 0x04 ∷ 0x88 ∷ 0xff ∷ 0xff ∷ 0xff ∷ 0xff ∷ 0xff ∷ 0xff ∷ 0xff ∷ 0xf6 ∷ []

abbrev looping_outer : TlvHeader
looping_outer = record { offset = 0; tag = 0x30; content_start = 2; content_length = 10 }

abbrev looping_child : TlvHeader
looping_child = record {
  offset = 2;
  tag = 0x04;
  content_start = 12;
  content_length = 0xffff_ffff_ffff_fff6;
}

looping_start : start_offset false no_certificate looping ≡ ok 0
unfolding start_offset
looping_start = refl

looping_reads :
    (parse_tlv looping 0 ≡ some looping_outer) × (parse_tlv looping 2 ≡ some looping_child)
unfolding parse_tlv
looping_reads = (refl, refl)

parse_sod_envelope_on-WrapsBack_example :
    parse_sod_envelope_on false no_certificate 1000000 looping ≡ unfinished
parse_sod_envelope_on-WrapsBack_example =
    parse_sod_envelope_on-WrapsBack no_certificate 1000000 looping 0 looping_outer looping_child
      looping_start looping_reads.0 (omega arith) (omega arith) looping_reads.1 refl (omega arith)

parse_sod_envelope-Finishes_example : Finishes (parse_sod_envelope true no_certificate looping)
parse_sod_envelope-Finishes_example = parse_sod_envelope-Finishes no_certificate looping
