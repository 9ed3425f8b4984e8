-- ===== src/Planning/Circuits.antt =====
-- Which circuits the plan of a query holds.
use vocdoni_passport_prover.Prelude.{
  Bool, true, false, List, [], ◌∷◌, ◌++◌, ◌≡◌, ◌≢◌, ◌⊎◌, ◌↔◌, inl, inr, refl, sym, ap, subst, ok,
  length,
}
use vocdoni_passport_prover.Prelude.Text.{codes}
use vocdoni_passport_prover.Json.{Value}
use vocdoni_passport_prover.Types.{FixtureBundle, IsValid}
use vocdoni_passport_prover.Planning.{
  PlannedCircuit, ProofPlan, disclosure_circuits, push_if, disclose_circuit, age_circuit,
  nationality_in_circuit, nationality_out_circuit, country_in_circuit, country_out_circuit,
  build_proof_plan, outer_of,
}
use vocdoni_passport_prover.Planning.Success.{
  Normalizes, plan, build_proof_plan_lem, build_proof_plan-eq-ok,
}
use vocdoni_passport_prover.Planning.Query.{
  Asks, has_nested_key_iff, has_age_requirement_iff, has_disclose_bytes_requirement_iff, disclosure,
  age, nationality_in, nationality_out, country_in, country_out,
}

abbrev pub Member : PlannedCircuit → List PlannedCircuit → Type 0
Member c [] = ⊥
Member c (d ∷ ds) = (c ≡ d) ⊎ Member c ds

Member-append_left :
    (c : PlannedCircuit) (xs ys : List PlannedCircuit) → Member c xs → Member c (xs ++ ys)
Member-append_left c [] ys m = elim m [ ]
Member-append_left c (x ∷ xs) ys (inl e) = inl e
Member-append_left c (x ∷ xs) ys (inr m) = inr (Member-append_left c xs ys m)

Member-append_right :
    (c : PlannedCircuit) (xs ys : List PlannedCircuit) → Member c ys → Member c (xs ++ ys)
Member-append_right c [] ys m = m
Member-append_right c (x ∷ xs) ys m = inr (Member-append_right c xs ys m)

Member-concat :
    (c d : PlannedCircuit) (xs : List PlannedCircuit)
    → Member c (xs ++ d ∷ [])
    → Member c xs ⊎ (c ≡ d)
Member-concat c d [] (inl e) = inr e
Member-concat c d [] (inr m) = elim m [ ]
Member-concat c d (x ∷ xs) (inl e) = inl (inl e)
Member-concat c d (x ∷ xs) (inr m) = elim (Member-concat c d xs m) [
  | inl h ↦ inl (inr h)
  | inr h ↦ inr h
]

push_if-keeps :
    (b : Bool) (c d : PlannedCircuit) (cs : List PlannedCircuit)
    → Member c cs
    → Member c (push_if b d cs)
unfolding push_if
push_if-keeps true c d cs m = Member-append_left c cs (d ∷ []) m
push_if-keeps false c d cs m = m

push_if-adds :
    (b : Bool) (d : PlannedCircuit) (cs : List PlannedCircuit)
    → b ≡ true
    → Member d (push_if b d cs)
unfolding push_if
push_if-adds true d cs h = Member-append_right d cs (d ∷ []) (inl refl)
push_if-adds false d cs h = cc

push_if-cases :
    (b : Bool) (c d : PlannedCircuit) (cs : List PlannedCircuit)
    → Member c (push_if b d cs)
    → Member c cs ⊎ ((b ≡ true) × (c ≡ d))
unfolding push_if
push_if-cases true c d cs m = elim (Member-concat c d cs m) [
  | inl h ↦ inl h
  | inr e ↦ inr (refl, e)
]
push_if-cases false c d cs m = inl m

-- One more push, with what its test says.
push_if-Asks :
    (q : Value) (b : Bool) (d : PlannedCircuit) (cs : List PlannedCircuit)
    → ((c : PlannedCircuit) → Member c cs → Asks q c)
    → (b ≡ true → Asks q d)
    → (c : PlannedCircuit) → Member c (push_if b d cs)
    → Asks q c
push_if-Asks q b d cs known new c m = elim (push_if-cases b c d cs m) [
  | inl h ↦ known c h
  | inr (t, e) ↦ subst (λ x. Asks q x) (sym e) (new t)
]

Asks-disclosure_circuits :
    (q : Value) (c : PlannedCircuit) → Member c (disclosure_circuits q) → Asks q c
unfolding disclosure_circuits
Asks-disclosure_circuits q =
    push_if-Asks q _ country_out_circuit _
      (push_if-Asks q _ country_in_circuit _
        (push_if-Asks q _ nationality_out_circuit _
          (push_if-Asks q _ nationality_in_circuit _
            (push_if-Asks q _ age_circuit _
              (push_if-Asks q _ disclose_circuit [] (λ c m. elim m [ ])
                (λ t.
                  let (m, cfg, at, v, d) = (has_disclose_bytes_requirement_iff q).0 t in
                  disclosure m cfg at v d))
              (λ t. let (cfg, (m, at, g), h) = (has_age_requirement_iff q).0 t in age m cfg at g h))
            (λ t.
              let (cfg, (m, at, g), h) =
                (has_nested_key_iff q (codes "nationality") (codes "in")).0 t in
              nationality_in m cfg at g h))
          (λ t.
            let (cfg, (m, at, g), h) =
              (has_nested_key_iff q (codes "nationality") (codes "out")).0 t in
            nationality_out m cfg at g h))
        (λ t.
          let (cfg, (m, at, g), h) =
            (has_nested_key_iff q (codes "issuing_country") (codes "in")).0 t in
          country_in m cfg at g h))
      (λ t.
        let (cfg, (m, at, g), h) =
          (has_nested_key_iff q (codes "issuing_country") (codes "out")).0 t in
        country_out m cfg at g h)

disclosure_circuits-Asks :
    (q : Value) (c : PlannedCircuit) → Asks q c → Member c (disclosure_circuits q)
unfolding disclosure_circuits
disclosure_circuits-Asks q _ (disclosure m cfg at v d) =
    search
      (push_if-keeps, push_if-adds, (has_disclose_bytes_requirement_iff q).1 (m, cfg, at, v, d))
      depth 8
disclosure_circuits-Asks q _ (age m cfg at g h) =
    search (push_if-keeps, push_if-adds, (has_age_requirement_iff q).1 (cfg, (m, at, g), h)) depth 8
disclosure_circuits-Asks q _ (nationality_in m cfg at g h) =
    search
      (
        push_if-keeps,
        push_if-adds,
        (has_nested_key_iff q (codes "nationality") (codes "in")).1 (cfg, (m, at, g), h),
      )
      depth 8
disclosure_circuits-Asks q _ (nationality_out m cfg at g h) =
    search
      (
        push_if-keeps,
        push_if-adds,
        (has_nested_key_iff q (codes "nationality") (codes "out")).1 (cfg, (m, at, g), h),
      )
      depth 8
disclosure_circuits-Asks q _ (country_in m cfg at g h) =
    search
      (
        push_if-keeps,
        push_if-adds,
        (has_nested_key_iff q (codes "issuing_country") (codes "in")).1 (cfg, (m, at, g), h),
      )
      depth 8
disclosure_circuits-Asks q _ (country_out m cfg at g h) =
    push_if-adds _ country_out_circuit _
      ((has_nested_key_iff q (codes "issuing_country") (codes "out")).1 (cfg, (m, at, g), h))

-- A list that leaves out some of another's entries and keeps the order of the rest.
pub data Thins : List PlannedCircuit → List PlannedCircuit → Type 0 where
  nil : Thins [] []
  skip : {c : PlannedCircuit} {xs ys : List PlannedCircuit} → Thins xs ys → Thins xs (c ∷ ys)
  keep : {c : PlannedCircuit} {xs ys : List PlannedCircuit} → Thins xs ys → Thins (c ∷ xs) (c ∷ ys)

Thins-keep_last :
    (c : PlannedCircuit) {xs ys : List PlannedCircuit}
    → Thins xs ys
    → Thins (xs ++ c ∷ []) (ys ++ c ∷ [])
Thins-keep_last c nil = keep nil
Thins-keep_last c (skip t) = skip (Thins-keep_last c t)
Thins-keep_last c (keep t) = keep (Thins-keep_last c t)

Thins-skip_last :
    (c : PlannedCircuit) {xs ys : List PlannedCircuit} → Thins xs ys → Thins xs (ys ++ c ∷ [])
Thins-skip_last c nil = skip nil
Thins-skip_last c (skip t) = skip (Thins-skip_last c t)
Thins-skip_last c (keep t) = keep (Thins-skip_last c t)

push_if-Thins :
    (b : Bool) (c : PlannedCircuit) {xs ys : List PlannedCircuit}
    → Thins xs ys
    → Thins (push_if b c xs) (ys ++ c ∷ [])
unfolding push_if
push_if-Thins true c t = Thins-keep_last c t
push_if-Thins false c t = Thins-skip_last c t

abbrev pub all_circuits : List PlannedCircuit
all_circuits =
    disclose_circuit ∷ age_circuit ∷ nationality_in_circuit ∷ nationality_out_circuit
    ∷ country_in_circuit ∷ country_out_circuit ∷ []

disclosure_circuits-Thins : (q : Value) → Thins (disclosure_circuits q) all_circuits
unfolding disclosure_circuits
disclosure_circuits-Thins q = push_if-Thins _ country_out_circuit (
    push_if-Thins _ country_in_circuit (
      push_if-Thins _ nationality_out_circuit (
        push_if-Thins _ nationality_in_circuit
          (push_if-Thins _ age_circuit (push_if-Thins _ disclose_circuit nil)))))

-- The circuits of a plan are disclosure circuits, in the fixed order and none twice, behind them
-- the outer circuit. A disclosure circuit is among them exactly when the query asks for it.
pub build_proof_plan-circuits :
    (b : FixtureBundle) (p : ProofPlan)
    → build_proof_plan b ≡ ok p
    → (cs : List PlannedCircuit) × (p.resolved_circuits ≡ cs ++ outer_of (length cs) ∷ [])
      × Thins cs all_circuits
      × ((c : PlannedCircuit) → Member c cs ↔ Asks p.normalized_query c)
build_proof_plan-circuits b p e =
    let (v, n, h, same) = build_proof_plan-eq-ok b p e in
    (
      disclosure_circuits p.normalized_query,
      ap (λ (x : ProofPlan). x.resolved_circuits) same,
      disclosure_circuits-Thins p.normalized_query,
      λ c. (
        Asks-disclosure_circuits p.normalized_query c,
        disclosure_circuits-Asks p.normalized_query c,
      ),
    )

Member-ne-nil : (c : PlannedCircuit) (cs : List PlannedCircuit) → Member c cs → cs ≢ []
Member-ne-nil c [] m = elim m [ ]
Member-ne-nil c (d ∷ cs) m = λ e. cc

-- A valid bundle whose query is taken and asks for some circuit has a plan, for that query.
pub build_proof_plan-Asks :
    (b : FixtureBundle) (q : Value) (c : PlannedCircuit)
    → IsValid b
    → Normalizes b.request.query q
    → Asks q c
    → (p : ProofPlan) × (build_proof_plan b ≡ ok p) × (p.normalized_query ≡ q)
build_proof_plan-Asks b q c v n a =
    let some_circuit = Member-ne-nil c (disclosure_circuits q) (disclosure_circuits-Asks q c a) in
    (plan b q (disclosure_circuits q), build_proof_plan_lem b v n some_circuit, refl)
