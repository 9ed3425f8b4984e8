-- ===== src/Planning/Query.antt =====
-- What the tests of the planner say of a query, against a description of its contents.
use vocdoni_passport_prover.Prelude.{
  Bool, true, ◌||◌, some, List, [], ◌∷◌, ◌≡◌, ◌⊎◌, ◌↔◌, inl, inr, refl, Bool-cases, Option-cases,
}
use vocdoni_passport_prover.Prelude.Text.{Text, codes, text_eq, text_eq_iff}
use vocdoni_passport_prover.Json.{
  Value, null, object, bool, number, string, array, Fields, end, field, as_object, as_bool, get,
  contains_key,
}
use vocdoni_passport_prover.Planning.{
  PlannedCircuit, disclose_flag, discloses, any_discloses, has_disclose_bytes_requirement,
  section_of, contains_any, has_age_requirement, has_nested_key, age_keys, disclose_circuit,
  age_circuit, nationality_in_circuit, nationality_out_circuit, country_in_circuit,
  country_out_circuit,
}

abbrev pub HasKey : Text → Fields → Type 0
HasKey k end = ⊥
HasKey k (field j v m) = (j ≡ k) ⊎ HasKey k m

abbrev pub HasSome : List Text → Fields → Type 0
HasSome [] m = ⊥
HasSome (k ∷ ks) m = HasKey k m ⊎ HasSome ks m

-- A value of the object, under whatever key.
abbrev pub HasValue : Value → Fields → Type 0
HasValue v end = ⊥
HasValue v (field j w m) = (w ≡ v) ⊎ HasValue v m

-- The query asks for the circuit.
pub data Asks (q : Value) : PlannedCircuit → Type 0 where
  disclosure :
      (m cfg : Fields)
      → q ≡ object m
      → HasValue (object cfg) m
      → (get (codes "disclose") cfg ≡ some (bool true)) ⊎ HasKey (codes "eq") cfg
      → Asks q disclose_circuit
  age :
      (m cfg : Fields)
      → q ≡ object m
      → get (codes "age") m ≡ some (object cfg)
      → HasSome age_keys cfg
      → Asks q age_circuit
  nationality_in :
      (m cfg : Fields)
      → q ≡ object m
      → get (codes "nationality") m ≡ some (object cfg)
      → HasKey (codes "in") cfg
      → Asks q nationality_in_circuit
  nationality_out :
      (m cfg : Fields)
      → q ≡ object m
      → get (codes "nationality") m ≡ some (object cfg)
      → HasKey (codes "out") cfg
      → Asks q nationality_out_circuit
  country_in :
      (m cfg : Fields)
      → q ≡ object m
      → get (codes "issuing_country") m ≡ some (object cfg)
      → HasKey (codes "in") cfg
      → Asks q country_in_circuit
  country_out :
      (m cfg : Fields)
      → q ≡ object m
      → get (codes "issuing_country") m ≡ some (object cfg)
      → HasKey (codes "out") cfg
      → Asks q country_out_circuit

contains_key_iff : (k : Text) (m : Fields) → (contains_key k m ≡ true) ↔ HasKey k m
unfolding contains_key
contains_key_iff k end = (λ e. cc e, λ h. elim h [ ])
contains_key_iff k (field j v m) =
    let ih = contains_key_iff k m in
    let at = text_eq_iff j k in
    elim (Bool-cases (text_eq j k)) [
      | inl h ↦ (λ _. inl (at.0 h), λ _. rw h)
      | inr h ↦ (
        λ e. inr (ih.0 (rw h at e)),
        λ k'. rw h (elim k' [ inl e ↦ cc (at.1 e, h) | inr r ↦ ih.1 r ]),
      )
    ]

contains_any_iff : (ks : List Text) (m : Fields) → (contains_any ks m ≡ true) ↔ HasSome ks m
unfolding contains_any
contains_any_iff [] m = (λ e. cc e, λ h. elim h [ ])
contains_any_iff (k ∷ ks) m =
    let ih = contains_any_iff ks m in
    let here = contains_key_iff k m in
    elim (Bool-cases (contains_key k m)) [
      | inl h ↦ (λ _. inl (here.0 h), λ _. rw h)
      | inr h ↦ (
        λ e. inr (ih.0 (rw h at e)),
        λ k'. rw h (elim k' [ inl e ↦ cc (here.1 e, h) | inr r ↦ ih.1 r ]),
      )
    ]

-- The section of a field, and what it holds.
abbrev SectionIs : Value → Text → Fields → Type 0
SectionIs q f cfg = (m : Fields) × (q ≡ object m) × (get f m ≡ some (object cfg))

as_object-eq-some : (v : Value) (m : Fields) → as_object v ≡ some m → v ≡ object m
unfolding as_object
as_object-eq-some null m e = cc
as_object-eq-some (bool b) m e = cc
as_object-eq-some (number n) m e = cc
as_object-eq-some (string s) m e = cc
as_object-eq-some (array a) m e = cc
as_object-eq-some (object o) m e = cc

section_of-eq-some :
    (q : Value) (f : Text) (cfg : Fields) → section_of q f ≡ some cfg → SectionIs q f cfg
unfolding section_of as_object
section_of-eq-some null f cfg e = cc
section_of-eq-some (bool b) f cfg e = cc
section_of-eq-some (number n) f cfg e = cc
section_of-eq-some (string s) f cfg e = cc
section_of-eq-some (array a) f cfg e = cc
section_of-eq-some (object m) f cfg e = elim (Option-cases (get f m)) [
  | inl h ↦ cc (rw (h, section_of) at e)
  | inr (v, h) ↦ (m, refl, cc (h, as_object-eq-some v cfg (rw (h, section_of) at e)))
]

section_of-SectionIs :
    (q : Value) (f : Text) (cfg : Fields) → SectionIs q f cfg → section_of q f ≡ some cfg
unfolding section_of as_object
section_of-SectionIs q f cfg (m, at, h) = rw (at, h, section_of)

pub has_nested_key_iff :
    (q : Value) (f k : Text)
    → (has_nested_key q f k ≡ true) ↔ ((cfg : Fields) × SectionIs q f cfg × HasKey k cfg)
unfolding has_nested_key
has_nested_key_iff q f k = (
  λ e. elim (Option-cases (section_of q f)) [
    | inl h ↦ cc (rw (h, has_nested_key) at e)
    | inr (cfg, h) ↦ (
      cfg,
      section_of-eq-some q f cfg h,
      (contains_key_iff k cfg).0 (rw (h, has_nested_key) at e),
    )
  ],
  λ (cfg, s, h). rw (section_of-SectionIs q f cfg s, has_nested_key) ((contains_key_iff k cfg).1 h),
)

pub has_age_requirement_iff :
    (q : Value)
    → (has_age_requirement q ≡ true)
      ↔ ((cfg : Fields) × SectionIs q (codes "age") cfg × HasSome age_keys cfg)
unfolding has_age_requirement
has_age_requirement_iff q = (
  λ e. elim (Option-cases (section_of q (codes "age"))) [
    | inl h ↦ cc (rw (h, has_age_requirement) at e)
    | inr (cfg, h) ↦ (
      cfg,
      section_of-eq-some q (codes "age") cfg h,
      (contains_any_iff age_keys cfg).0 (rw (h, has_age_requirement) at e),
    )
  ],
  λ (cfg, s, h).
      rw (section_of-SectionIs q (codes "age") cfg s, has_age_requirement)
        ((contains_any_iff age_keys cfg).1 h),
)

-- The configuration discloses its field, or compares it.
abbrev Discloses : Fields → Type 0
Discloses cfg = (get (codes "disclose") cfg ≡ some (bool true)) ⊎ HasKey (codes "eq") cfg

as_bool-eq-some : (v : Value) (b : Bool) → as_bool v ≡ some b → v ≡ bool b
unfolding as_bool
as_bool-eq-some null b e = cc
as_bool-eq-some (bool c) b e = cc
as_bool-eq-some (number n) b e = cc
as_bool-eq-some (string s) b e = cc
as_bool-eq-some (array a) b e = cc
as_bool-eq-some (object o) b e = cc

disclose_flag_iff :
    (cfg : Fields) → (disclose_flag cfg ≡ true) ↔ (get (codes "disclose") cfg ≡ some (bool true))
unfolding disclose_flag as_bool
disclose_flag_iff cfg = (
  λ e. elim (Option-cases (get (codes "disclose") cfg)) [
    | inl h ↦ cc (rw (h, disclose_flag) at e)
    | inr (v, h) ↦ elim (Option-cases (as_bool v)) [
      | inl n ↦ cc (rw (h, disclose_flag, n) at e)
      | inr (b, s) ↦ cc (h, as_bool-eq-some v b s, rw (h, disclose_flag, s) at e)
    ]
  ],
  λ h. rw (h, disclose_flag),
)

as_object_object : (m : Fields) → as_object (object m) ≡ some m
unfolding as_object
as_object_object m = refl

Discloses-here :
    (cfg : Fields) → (disclose_flag cfg || contains_key (codes "eq") cfg) ≡ true → Discloses cfg
Discloses-here cfg e = elim (Bool-cases (disclose_flag cfg)) [
  | inl h ↦ inl ((disclose_flag_iff cfg).0 h)
  | inr h ↦ inr ((contains_key_iff (codes "eq") cfg).0 (rw h at e))
]

here-Discloses :
    (cfg : Fields) → Discloses cfg → (disclose_flag cfg || contains_key (codes "eq") cfg) ≡ true
here-Discloses cfg d = elim (Bool-cases (disclose_flag cfg)) [
  | inl h ↦ rw h
  | inr h ↦ rw h (elim d [
    | inl e ↦ cc ((disclose_flag_iff cfg).1 e, h)
    | inr k ↦ (contains_key_iff (codes "eq") cfg).1 k
  ])
]

discloses_iff :
    (v : Value) → (discloses v ≡ true) ↔ ((cfg : Fields) × (v ≡ object cfg) × Discloses cfg)
unfolding discloses
discloses_iff v = (
  λ e. elim (Option-cases (as_object v)) [
    | inl h ↦ cc (rw (h, discloses) at e)
    | inr (cfg, h) ↦ (cfg, as_object-eq-some v cfg h, Discloses-here cfg (rw (h, discloses) at e))
  ],
  λ (cfg, at, h). rw (at, discloses, as_object_object cfg) (here-Discloses cfg h),
)

any_discloses_iff :
    (m : Fields)
    → (any_discloses m ≡ true) ↔ ((cfg : Fields) × HasValue (object cfg) m × Discloses cfg)
unfolding any_discloses
any_discloses_iff end = (λ e. cc e, λ h. elim (h.1) [ ])
any_discloses_iff (field k v m) =
    let ih = any_discloses_iff m in
    let head = discloses_iff v in
    elim (Bool-cases (discloses v)) [
      | inl h ↦ (λ _. (let (cfg, at, d) = head.0 h in (cfg, inl at, d)), λ _. rw h)
      | inr h ↦ (
        λ e. (let (cfg, at, d) = ih.0 (rw h at e) in (cfg, inr at, d)),
        λ (cfg, at, d). rw h (elim at [
          | inl here ↦ cc (head.1 (cfg, here, d), h)
          | inr there ↦ ih.1 (cfg, there, d)
        ]),
      )
    ]

pub has_disclose_bytes_requirement_iff :
    (q : Value)
    → (has_disclose_bytes_requirement q ≡ true)
      ↔ ((m cfg : Fields) × (q ≡ object m) × HasValue (object cfg) m × Discloses cfg)
unfolding has_disclose_bytes_requirement
has_disclose_bytes_requirement_iff q = (
  λ e. elim (Option-cases (as_object q)) [
    | inl h ↦ cc (rw (h, has_disclose_bytes_requirement) at e)
    | inr (m, h) ↦
        let (cfg, at, d) = (any_discloses_iff m).0 (rw (h, has_disclose_bytes_requirement) at e) in
        (m, cfg, as_object-eq-some q m h, at, d)
  ],
  λ (m, cfg, at, v, d).
      rw (at, has_disclose_bytes_requirement, as_object_object m)
        ((any_discloses_iff m).1 (cfg, v, d)),
)
