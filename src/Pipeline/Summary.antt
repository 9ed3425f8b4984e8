-- ===== src/Pipeline/Summary.antt =====
-- crates/prover-core/src/pipeline.rs: the summary of the compatibility matrix.
use vocdoni_passport_prover.Prelude.{List, [], ◌∷◌}
use vocdoni_passport_prover.Prelude.Text.{Text, codes}
use vocdoni_passport_prover.Config.{CompatibilityMatrix}

-- In the order of the map's keys.
unfoldable pub compatibility_matrix_summary : CompatibilityMatrix → List (Text × Text)
compatibility_matrix_summary matrix =
    (codes "bb_version", matrix.proving.bb_version)
    ∷ (codes "canonical_backend", matrix.proving.canonical_backend)
    ∷ (codes "circuit_version", matrix.registry.circuit_version)
    ∷ (codes "noir_version", matrix.proving.noir_version)
    ∷ (codes "oracle_hash_inner", matrix.proving.inner_oracle_hash)
    ∷ (codes "oracle_hash_outer_evm", matrix.proving.outer_evm_oracle_hash)
    ∷ (codes "status", matrix.status)
    ∷ []
