-- ===== src/Sod/Progress.antt =====
-- The steps of the walk that always return, and that a checked step moves forward.
use vocdoni_passport_prover.Prelude.{
  ℕ, ◌≤◌, Bool, true, Option, none, some, ◌≡◌, ◌≢◌, refl, arith, String, context, Outcome, ok, err,
  panic, unfinished, ◌>>=◌, add_usize,
}
use vocdoni_passport_prover.Prelude.Text.{bytes_slice}
use vocdoni_passport_prover.Der.{Bytes, TlvHeader, parse_tlv, parse_oid_raw, content}
use vocdoni_passport_prover.Sod.{Certificate, next_pos, parse_lds_hash_algorithm_oid}

-- The call returns or stops; no loop of it is left running.
abbrev pub Finishes {ℓ} : {A : Type ℓ} → Outcome A → Type ℓ
Finishes o = o ≢ unfinished

pub >>=-Finishes {ℓ} :
    {A B : Type ℓ} (m : Outcome A) (f : A → Outcome B)
    → Finishes m
    → ((a : A) → m ≡ ok a → Finishes (f a))
    → Finishes (m >>= f)
>>=-Finishes (ok a) f h k = k a refl
>>=-Finishes (err e) f h k = λ e. cc
>>=-Finishes panic f h k = λ e. cc
>>=-Finishes unfinished f h k = absurd (h refl)

pub ok-Finishes {ℓ} : {A : Type ℓ} (a : A) → Finishes (ok a)
ok-Finishes a = λ e. cc

pub context-Finishes {ℓ} : {A : Type ℓ} (o : Option A) (m : String) → Finishes (context o m)
context-Finishes (some a) m = λ e. cc
context-Finishes none m = λ e. cc

pub context-eq-ok {ℓ} :
    {A : Type ℓ} (o : Option A) (m : String) {a : A} → context o m ≡ ok a → o ≡ some a
context-eq-ok (some b) m e = cc
context-eq-ok none m e = cc

pub add_usize-Finishes : (checks : Bool) (a b : ℕ) → Finishes (add_usize checks a b)
unfolding add_usize
add_usize-Finishes checks a b = ground arith

pub bytes_slice-Finishes : (s : Bytes) (a b : ℕ) → Finishes (bytes_slice s a b)
unfolding bytes_slice
bytes_slice-Finishes s a b = ground arith

pub content-Finishes :
    (checks : Bool) (buf : Bytes) (t : TlvHeader) → Finishes (content checks buf t)
unfolding content
content-Finishes checks buf t =
    >>=-Finishes (add_usize checks t.content_start t.content_length) _
      (add_usize-Finishes checks t.content_start t.content_length)
      (λ end e. bytes_slice-Finishes buf t.content_start end)

module _ (checks : Bool) (x : Bytes → Option Certificate) where
  pub next_pos-Finishes : (t : TlvHeader) → Finishes (next_pos checks x t)
  unfolding next_pos
  next_pos-Finishes t = add_usize-Finishes checks t.content_start t.content_length

  pub parse_lds_hash_algorithm_oid-Finishes :
      (c : Bytes) → Finishes (parse_lds_hash_algorithm_oid checks x c)
  unfolding parse_lds_hash_algorithm_oid
  parse_lds_hash_algorithm_oid-Finishes c =
      >>=-Finishes _ _ (context-Finishes (parse_tlv c 0) _) (λ root _.
        >>=-Finishes _ _ (context-Finishes (parse_tlv c root.content_start) _) (λ version _.
          >>=-Finishes _ _ (next_pos-Finishes version) (λ behind _.
            >>=-Finishes _ _ (context-Finishes (parse_tlv c behind) _) (λ algo _.
              >>=-Finishes _ _ (context-Finishes (parse_tlv c algo.content_start) _) (λ oid _.
                >>=-Finishes _ _ (content-Finishes checks c oid)
                  (λ raw _. ok-Finishes (parse_oid_raw raw)))))))

-- With overflow checks the next header lies behind the one that was read.
pub next_pos-le :
    (x : Bytes → Option Certificate) (t : TlvHeader) (n : ℕ)
    → next_pos true x t ≡ ok n
    → t.content_start ≤ n
unfolding next_pos add_usize
next_pos-le x t n e = ground arith
