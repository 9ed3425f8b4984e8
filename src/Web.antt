-- ===== src/Web.antt =====
-- What crates/prover-core/src/registry.rs and crates/prover-core/src/certificates.rs share: the
-- answers of the HTTP client, and `decode_json_bytes` and `is_gzip`, which both files declare.
use vocdoni_passport_prover.Prelude.{
  Bool, true, false, ◌≡◌, refl, ◌>>◌, ◌&&◌, Option, none, some, ◌==◌, if◌then◌else◌, [], ◌∷◌, Error,
  detail, Outcome, ok, err, panic, unfinished, ◌>>=◌,
}
use vocdoni_passport_prover.Prelude.Text.{Text}
use vocdoni_passport_prover.Json.{Value}
use vocdoni_passport_prover.Der.{Bytes}

-- The end of a request: `send` fails, `error_for_status` does, reading the body does, or there is
-- a body.
pub data Reply : Type 0 where
  unreachable : Reply
  refused : Reply
  cut_off : Reply
  body : Bytes → Reply

-- The HTTP client, and the decoder of gzip.
pub record Http : Type 0 where
  pub get : Text → Reply
  pub post : Text → Value → Reply
  pub gunzip : Bytes → Option Bytes

-- The three contexts of a request.
unfoldable pub body_of : Reply → Error → Error → Error → Outcome Bytes
body_of unreachable at_send at_status at_body = err at_send
body_of refused at_send at_status at_body = err at_status
body_of cut_off at_send at_status at_body = err at_body
body_of (body bytes) at_send at_status at_body = ok bytes

unfoldable pub is_gzip : Bytes → Bool
is_gzip [] = false
is_gzip (a ∷ []) = false
is_gzip (a ∷ b ∷ rest) = a == 0x1f && b == 0x8b

-- `with_context`, or `bail!` on nothing.
abbrev pub expect {ℓ} : {A : Type ℓ} → Option A → Error → Outcome A
expect (some a) e = ok a
expect none e = err e

-- `bail!` unless the test holds.
abbrev pub ensure : Bool → Error → Outcome (Unit {0})
ensure test e = if test then ok tt else err e

-- `with_context` on a result: the new message is the outermost one.
abbrev pub within {ℓ} : {A : Type ℓ} → Error → Outcome A → Outcome A
within e (ok a) = ok a
within e (err _) = err e
within e panic = panic
within e unfinished = unfinished

-- `decode_json_bytes`, with the reader of the JSON type.
unfoldable pub decode_json_bytes {ℓ} :
    {A : Type ℓ} → (Bytes → Option A) → Http → Bytes → Text → Outcome A
decode_json_bytes read http bytes url = do
  json_bytes ←
      (if is_gzip bytes
        then expect (http.gunzip bytes) (detail "failed to gunzip response body: {url}" (url ∷ []))
        else ok bytes)
  expect (read json_bytes) (detail "failed to decode JSON payload: {url}" (url ∷ []))

pub ensure-eq-ok {ℓ} :
    {B : Type ℓ} (test : Bool) (e : Error) (next : Outcome B) {b : B}
    → (ensure test e >> next) ≡ ok b
    → (test ≡ true) × (next ≡ ok b)
ensure-eq-ok true e next h = (refl, h)
ensure-eq-ok false e next h = cc
