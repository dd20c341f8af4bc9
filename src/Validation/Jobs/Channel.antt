-- ===== src/Validation/Jobs/Channel.antt =====
-- What the jobs that `check_run_jobs` accepts establish.
use inverter_gateway.Prelude.{
  starts_with, Bool, true, false, none, some, List, [], ◌∷◌, ◌++◌, ◌≡◌, refl, sym, ap, subst, ◌∙◌,
  Text, codes, keep, strip_prefix, strip_prefix-append, Bool-cases, keep-true, keep-false,
  some_injective, inl, inr, &&-true,
}
use inverter_gateway.Prelude.Result.{ok, guard_ok}
use inverter_gateway.Json.{Fields, str, get}
use inverter_gateway.Json.Texts.{text_is-eq}
use inverter_gateway.Validation.Jobs.{
  marker_prefix, marker_name, gate_name, is_marker_name, is_marker, has_name, succeeded,
  one_succeeded, is_one, check_run_jobs,
}

module _ {ℓ} {A : Type ℓ} where
  keep-holds : (p : A → Bool) (a : A) (xs rest : List A) → keep p xs ≡ a ∷ rest → p a ≡ true
  keep-holds p a [] rest h = absurd (cc)
  keep-holds p a (x ∷ xs) rest h = elim (Bool-cases (p x)) [
    | inl holds ↦
        let same : x ≡ a = cc (keep-true p x xs holds, h) in subst (λ e. p e ≡ true) same holds
    | inr other ↦ keep-holds p a xs rest (sym (keep-false p x xs other) ∙ h)
  ]

  module _ (p q : A → Bool) (weaker : (a : A) → p a ≡ true → q a ≡ true) where
    keep-none : (xs : List A) → keep q xs ≡ [] → keep p xs ≡ []
    keep-none [] h = refl
    keep-none (x ∷ xs) h = elim (Bool-cases (p x)) [
      | inl holds ↦ absurd (cc (keep-true q x xs (weaker x holds), h))
      | inr other ↦ elim (Bool-cases (q x)) [
        | inl weak ↦ absurd (cc (keep-true q x xs weak, h))
        | inr neither ↦ keep-false p x xs other ∙ keep-none xs (sym (keep-false q x xs neither) ∙ h)
      ]
    ]

    -- The one element of the stronger test is the one of the weaker.
    same_one : (xs : List A) (a b : A) → keep p xs ≡ a ∷ [] → keep q xs ≡ b ∷ [] → a ≡ b
    same_one [] a b hp hq = absurd (cc)
    same_one (x ∷ xs) a b hp hq = elim (Bool-cases (q x)) [
      | inr neither ↦ elim (Bool-cases (p x)) [
        | inl holds ↦ absurd (cc (weaker x holds, neither))
        | inr other ↦
            same_one xs a b (sym (keep-false p x xs other) ∙ hp)
              (sym (keep-false q x xs neither) ∙ hq)
      ]
      | inl weak ↦ elim (Bool-cases (p x)) [
        | inl holds ↦ cc (keep-true p x xs holds, keep-true q x xs weak, hp, hq)
        | inr other ↦
            let empty : keep q xs ≡ [] = cc (keep-true q x xs weak, hq) in
            absurd (cc (keep-none xs empty, keep-false p x xs other, hp))
      ]
    ]

has_name-get :
    (name : Text) (job : Fields)
    → has_name name job ≡ true
    → get job (codes "name") ≡ some (str name)
unfolding has_name
has_name-get name job h = text_is-eq (get job (codes "name")) name h

succeeded-sha :
    (sha : Text) (job : Fields)
    → succeeded sha job ≡ true
    → get job (codes "head_sha") ≡ some (str sha)
unfolding succeeded
succeeded-sha sha job h =
    text_is-eq (get job (codes "head_sha")) sha ((&&-true _ _ ((&&-true _ _ h).0)).0)

starts_with-append : (p t : Text) → starts_with p (p ++ t) ≡ true
starts_with-append p t =
    ap (λ r. elim r [ none ↦ false | some rest ↦ true ]) (strip_prefix-append p t)

-- The profile of a channel is a marker.
named-marker :
    (channel : Text) (job : Fields)
    → has_name (marker_name channel) job ≡ true
    → is_marker job ≡ true
unfolding has_name is_marker
named-marker channel job h =
    subst (λ j. is_marker_name j ≡ true) (sym (has_name-get (marker_name channel) job h))
      (starts_with-append marker_prefix (channel ++ codes ")"))

-- What a release needs of the jobs: a gate and a profile of the channel, both done at the commit.
pub record IsValidated (jobs : List Fields) (channel sha : Text) : Type 0 where
  pub gate : Fields
  pub marker : Fields
  pub one_gate : keep (has_name gate_name) jobs ≡ gate ∷ []
  pub gate_passed : succeeded sha gate ≡ true
  pub one_marker : keep is_marker jobs ≡ marker ∷ []
  pub marker_named : get marker (codes "name") ≡ some (str (marker_name channel))
  pub marker_passed : succeeded sha marker ≡ true

one_element : (xs : List Fields) → is_one xs ≡ true → (x : Fields) × (xs ≡ x ∷ [])
one_element [] h = absurd (cc)
one_element (x ∷ []) h = (x, refl)
one_element (x ∷ y ∷ xs) h = absurd (cc)

one_passed :
    (sha : Text) (xs : List Fields)
    → one_succeeded sha xs ≡ true
    → (x : Fields) × (xs ≡ x ∷ []) × (succeeded sha x ≡ true)
one_passed sha [] h = absurd (cc)
one_passed sha (x ∷ []) h = (x, refl, h)
one_passed sha (x ∷ y ∷ xs) h = absurd (cc)

-- An accepted run has one gate job and one profile job, both completed with success at the commit, and the
-- profile is the channel's.
pub check_run_jobs-IsValidated :
    (jobs : List Fields) (channel sha : Text)
    → check_run_jobs jobs channel sha ≡ ok tt
    → IsValidated jobs channel sha
unfolding check_run_jobs
check_run_jobs-IsValidated jobs channel sha h =
    guard_ok (is_one (keep is_marker jobs)) _ _ h λ single h1.
      guard_ok (one_succeeded sha (keep (has_name gate_name) jobs)) _ _ h1 λ gated h2.
        guard_ok (one_succeeded sha (keep (has_name (marker_name channel)) jobs)) _ _ h2
          λ profiled h3.
            let (marker, one_marker) = one_element (keep is_marker jobs) single in
            let (gate, one_gate, gate_passed) =
              one_passed sha (keep (has_name gate_name) jobs) gated in
            let (job, one_job, job_passed) =
              one_passed sha (keep (has_name (marker_name channel)) jobs) profiled in
            let same =
              same_one (has_name (marker_name channel)) is_marker (named-marker channel) jobs job
                marker one_job one_marker in
            record {
              gate = gate;
              marker = marker;
              one_gate = one_gate;
              gate_passed = gate_passed;
              one_marker = one_marker;
              marker_named =
                  subst (λ j. get j (codes "name") ≡ some (str (marker_name channel))) same
                    (has_name-get (marker_name channel) job
                      (keep-holds (has_name (marker_name channel)) job jobs [] one_job));
              marker_passed = subst (λ j. succeeded sha j ≡ true) same job_passed;
            }

before_paren : (c d : Text) → c ++ codes ")" ≡ d ++ codes ")" → c ≡ d
before_paren [] [] h = refl
before_paren [] (y ∷ []) h = absurd (cc (h))
before_paren [] (y ∷ z ∷ d) h = absurd (cc (h))
before_paren (x ∷ []) [] h = absurd (cc (h))
before_paren (x ∷ z ∷ c) [] h = absurd (cc (h))
before_paren (x ∷ c) (y ∷ d) h =
    let rest : c ++ codes ")" ≡ d ++ codes ")" = cc (h) in
    let first : x ≡ y = cc (h) in cc (first, before_paren c d rest)

marker_name-injective : (c d : Text) → marker_name c ≡ marker_name d → c ≡ d
marker_name-injective c d h = before_paren c d (
    some_injective (
      sym (strip_prefix-append marker_prefix (c ++ codes ")"))
      ∙ ap (strip_prefix marker_prefix) h
      ∙ strip_prefix-append marker_prefix (d ++ codes ")")))

-- The jobs of one run validate one channel and one commit.
pub check_run_jobs_unique :
    (jobs : List Fields) (c d s t : Text)
    → check_run_jobs jobs c s ≡ ok tt
    → check_run_jobs jobs d t ≡ ok tt
    → (c ≡ d) × (s ≡ t)
check_run_jobs_unique jobs c d s t hc hd =
    let v = check_run_jobs-IsValidated jobs c s hc in
    let w = check_run_jobs-IsValidated jobs d t hd in
    let same : v.marker ≡ w.marker = cc (v.one_marker, w.one_marker) in
    (
      marker_name-injective c d (cc (v.marker_named, w.marker_named, same)),
      cc (succeeded-sha s v.marker v.marker_passed, succeeded-sha t w.marker w.marker_passed, same),
    )
