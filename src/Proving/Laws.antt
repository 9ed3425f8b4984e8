-- ===== src/Proving/Laws.antt =====
-- The steps of a proof that went well.
use vocdoni_passport_prover.Prelude.{
  ℕ, ◌/◌, ◌%◌, ◌^◌, ◌≡◌, refl, ◌∙◌, ap, subst, inl, inr, true, some, length, ok, Bool-cases, arith,
}
use vocdoni_passport_prover.Prelude.Text.{Text, codes, match_text}
use vocdoni_passport_prover.Der.{Bytes}
use vocdoni_passport_prover.Registry.{PackagedCircuit, RegistryJson}
use vocdoni_passport_prover.Witness.{Attempt, good}
use vocdoni_passport_prover.Witness.Agreement.{Attempt-cases}
use vocdoni_passport_prover.Config.{ConfigJson}
use vocdoni_passport_prover.Io.{
  World, Files, Os, Command, Output, Action, after_command, output, ◌>>=◌,
}
use vocdoni_passport_prover.Io.Laws.{Option-cases, read-next, lift-next}
use vocdoni_passport_prover.Proving.Binary.{run_command}
use vocdoni_passport_prover.Proving.{
  ProofArtifacts, public_inputs_count, read_required_file, collect_proof, decode_vkey,
}

-- A command that ends with success.
pub record Ran (os : Os) (cmd : Command) (given : Files) (left : Files) : Type 0 where
  pub out : Output
  pub executed : os.execute cmd given ≡ some (out, left)
  pub succeeded : out.success ≡ true

pub run_command-next :
    {B : Type 0} (os : Os) (cmd : Command) (description : Text) (next : Unit {0} → Action B)
    (w : World) {w' : World} {b : B}
    → (run_command os cmd description >>= next) w ≡ (w', ok b)
    → (left : Files) × Ran os cmd w.files left × (next tt (after_command cmd left w) ≡ (w', ok b))
unfolding run_command output
run_command-next os cmd description next w h = elim (Option-cases (os.execute cmd w.files)) [
  | inl n ↦ cc (rw (run_command, output, n) at h)
  | inr ((out, left), x) ↦
      let k = rw (run_command, output, x) at h in
      elim (Bool-cases out.success) [
        | inl s ↦ (left, record { out = out; executed = x; succeeded = s }, rw (s) at k)
        | inr s ↦ cc (rw (s) at k)
      ]
]

pub public_inputs_count-eq-ok :
    (bytes : Bytes) {n : ℕ}
    → public_inputs_count bytes ≡ ok n
    → (length bytes % 32 ≡ 0) × (n ≡ length bytes / 32 % 2 ^ 32)
unfolding public_inputs_count
public_inputs_count-eq-ok bytes h = ground arith

pub public_inputs_count-eq :
    (bytes : Bytes)
    → length bytes % 32 ≡ 0
    → public_inputs_count bytes ≡ ok (length bytes / 32 % 2 ^ 32)
unfolding public_inputs_count
public_inputs_count-eq bytes h = ground arith

-- What a proof is made of.
pub record Collected (os : Os) (dir : Text) (vk : Bytes) (files : Files) (a : ProofArtifacts)
    : Type 0 where
  pub proof_left : match_text (os.fs.join dir (codes "proof")) files.disk ≡ some a.proof
  pub inputs_left :
      match_text (os.fs.join dir (codes "public_inputs")) files.disk ≡ some a.public_inputs
  pub whole : length a.public_inputs % 32 ≡ 0
  pub count : a.public_inputs_count ≡ length a.public_inputs / 32 % 2 ^ 32
  pub key : a.verification_key ≡ vk

module _ (os : Os) (config : ConfigJson) (json : RegistryJson)
    (decode_base64 : Text → Attempt Bytes) (platform : Text × Text) where
  pub collect_proof-Collected :
      (dir : Text) (vk : Bytes) (w : World) {w' : World} {a : ProofArtifacts}
      → collect_proof os config json decode_base64 platform dir vk w ≡ (w', ok a)
      → Collected os dir vk w.files a
  unfolding collect_proof read_required_file
  collect_proof-Collected dir vk w {a = a} h =
      let (proof, m1, k1) = read-next (os.fs.join dir (codes "proof")) _ _ w h in
      let (inputs, m2, k2) = read-next (os.fs.join dir (codes "public_inputs")) _ _ w k1 in
      let (count, c, k3) = lift-next (public_inputs_count inputs) _ w k2 in
      let (whole, counted) = public_inputs_count-eq-ok inputs c in
      let made : record {
        proof = proof;
        public_inputs = inputs;
        verification_key = vk;
        public_inputs_count = count;
      }
          ≡ a =
        cc (ap (λ x. x.1) k3) in
      subst (Collected os dir vk w.files) made
        record { proof_left = m1; inputs_left = m2; whole = whole; count = counted; key = refl }

  pub decode_vkey-eq-ok :
      (circuit : PackagedCircuit) {vk : Bytes}
      → decode_vkey os config json decode_base64 platform circuit ≡ ok vk
      → decode_base64 circuit.vkey ≡ good vk
  unfolding decode_vkey
  decode_vkey-eq-ok circuit h = elim (Attempt-cases (decode_base64 circuit.vkey)) [
    | inl (b, e) ↦ e ∙ cc (rw (decode_vkey, e) at h)
    | inr (b, e) ↦ cc (rw (decode_vkey, e) at h)
  ]
