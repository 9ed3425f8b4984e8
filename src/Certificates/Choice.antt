-- ===== src/Certificates/Choice.antt =====
-- The choice of the CSCA certificate, `resolve_csca`, against four searches.
use vocdoni_passport_prover.Prelude.{
  ◌≤◌, Bool, ◌&&◌, List, [], ◌∷◌, ◌==◌, first, filter, sort_by_key, find, or_else, first-filter,
  find-filter, first-sort_by_key, ◌≡◌, refl, inl, inr, Bool-cases, Option-cases, arith,
}
use vocdoni_passport_prover.Prelude.Text.{eq_ignore_ascii_case}
use vocdoni_passport_prover.Analysis.{DocumentAnalysis}
use vocdoni_passport_prover.Certificates.{
  PackagedCertificate, PackagedCertificatesFile, algorithm_rank, is_same_country, is_issuer,
  resolve_csca, choose_csca, sort_candidate_certificates,
}

abbrev pub has_algorithm : DocumentAnalysis → PackagedCertificate → Bool
has_algorithm a c = eq_ignore_ascii_case c.signature_algorithm a.dsc_parent_signature_algorithm

algorithm_rank_small : (a : DocumentAnalysis) (c : PackagedCertificate) → algorithm_rank a c ≤ 1
unfolding algorithm_rank
algorithm_rank_small a c = ground arith

algorithm_rank_least :
    (a : DocumentAnalysis) (c : PackagedCertificate) → (algorithm_rank a c == 0) ≡ has_algorithm a c
unfolding algorithm_rank
algorithm_rank_least a c = elim (Bool-cases (has_algorithm a c)) [ inl h ↦ rw h | inr h ↦ rw h ]

find-cong {ℓ} :
    {A : Type ℓ} (p q : A → Bool) (xs : List A) → ((x : A) → p x ≡ q x) → find p xs ≡ find q xs
unfolding find
find-cong p q [] h = refl
find-cong p q (x ∷ xs) h = rw (h x, find-cong p q xs h)

-- The first of the sorted certificates that pass a test: one with the algorithm, if there is one.
first-sorted :
    (a : DocumentAnalysis) (test : PackagedCertificate → Bool) (cs : List PackagedCertificate)
    → first (sort_candidate_certificates (filter test cs) a)
      ≡ or_else (find (λ c. test c && has_algorithm a c) cs) (find test cs)
first-sorted a test cs = rw (
  first-sort_by_key (algorithm_rank a) (algorithm_rank_small a) (filter test cs),
  find-cong (λ c. algorithm_rank a c == 0) (has_algorithm a) (filter test cs)
      (algorithm_rank_least a),
  find-filter test (has_algorithm a) cs,
  first-filter test cs,
)

choose_csca-sorted :
    (a : DocumentAnalysis) (cs : List PackagedCertificate)
    → choose_csca a cs
      ≡ or_else
          (first (sort_candidate_certificates (filter (is_issuer a) cs) a))
          (first (sort_candidate_certificates cs a))
unfolding choose_csca filter sort_by_key
choose_csca-sorted a [] = refl
choose_csca-sorted a (c ∷ cs) =
    elim (Option-cases (first (sort_candidate_certificates (filter (is_issuer a) (c ∷ cs)) a))) [
      | inl h ↦ rw (choose_csca, h)
      | inr (x, h) ↦ rw (choose_csca, h)
    ]

-- The certificate that is chosen is the result of four searches through the list, each for when
-- the one before finds nothing: for the DSC's country, its issuer's key identifier and signature
-- algorithm; for country and identifier; for country and algorithm; for the country alone.
pub resolve_csca-find :
    (a : DocumentAnalysis) (p : PackagedCertificatesFile)
    → resolve_csca a p
      ≡ or_else
          (or_else
            (find (λ c. is_same_country a c && (is_issuer a c && has_algorithm a c)) p.certificates)
            (find (λ c. is_same_country a c && is_issuer a c) p.certificates))
          (or_else
            (find (λ c. is_same_country a c && has_algorithm a c) p.certificates)
            (find (is_same_country a) p.certificates))
unfolding resolve_csca
resolve_csca-find a p = rw (
  choose_csca-sorted a (filter (is_same_country a) p.certificates),
  first-sorted a (is_issuer a) (filter (is_same_country a) p.certificates),
  first-sorted a (is_same_country a) p.certificates,
  find-filter (is_same_country a) (λ c. is_issuer a c && has_algorithm a c) p.certificates,
  find-filter (is_same_country a) (is_issuer a) p.certificates,
)
