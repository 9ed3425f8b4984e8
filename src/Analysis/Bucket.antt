-- ===== src/Analysis/Bucket.antt =====
-- The size classes of `bucket_tbs_len`.
use vocdoni_passport_prover.Prelude.{ℕ, ◌≤◌, ◌<◌, ◌≡◌, ◌⊎◌, arith}
use vocdoni_passport_prover.Analysis.{bucket_tbs_len}

-- The sizes that signature circuits exist for.
abbrev pub IsBucket : ℕ → Type 0
IsBucket b = (b ≡ 700) ⊎ (b ≡ 1000) ⊎ (b ≡ 1200) ⊎ (b ≡ 1600)

-- A text of more than 1600 bytes is given the bucket 1600, in which it does not fit.
bucket_tbs_len_over : (n : ℕ) → 1600 < n → (bucket_tbs_len n ≡ 1600) × (bucket_tbs_len n < n)
unfolding bucket_tbs_len
bucket_tbs_len_over n h = (ground arith, ground arith)

-- The bucket of a length is one of the four sizes, and a longer text never has a smaller one. A
-- text of up to 1600 bytes fits in its bucket, and in no smaller one. A longer text is given the
-- bucket 1600, in which it does not fit.
pub bucket_tbs_len_least :
    (n : ℕ)
    → IsBucket (bucket_tbs_len n)
      × ((m : ℕ) → m ≤ n → bucket_tbs_len m ≤ bucket_tbs_len n)
      × (n ≤ 1600 → n ≤ bucket_tbs_len n)
      × ((b : ℕ) → IsBucket b → n ≤ b → bucket_tbs_len n ≤ b)
      × (1600 < n → (bucket_tbs_len n ≡ 1600) × (bucket_tbs_len n < n))
unfolding bucket_tbs_len
bucket_tbs_len_least n = (
  ground arith,
  λ m h. ground arith,
  λ h. ground arith,
  λ b i h. ground arith,
  bucket_tbs_len_over n,
)
