-- ===== src/Validation/Gate/Lookup.antt =====
-- Entries looked up in `expected_results` of scripts/release_validation.py.
use inverter_gateway.Prelude.{
  ℕ, zero, suc, ◌+◌, ◌<◌, true, false, none, some, List, [], ◌∷◌, ◌++◌, ◌≡◌, refl, sym, subst, ◌∙◌,
  Text, codes, ◌=t◌, =t-self, arith, show, Bool-cases, if_true, if_false, inl, inr,
}
use inverter_gateway.Validation.Policy.{numbered, contract_results, success}
use inverter_gateway.Validation.Gate.{lookup}

pub lookup-append :
    (xs ys : List (Text × Text)) (name value : Text)
    → lookup xs name ≡ some value
    → lookup (xs ++ ys) name ≡ some value
unfolding lookup
lookup-append [] ys name value h = absurd (cc)
lookup-append ((k, v) ∷ xs) ys name value h = elim (Bool-cases (k =t name)) [
  | inl same ↦ if_true (k =t name) _ _ same ∙ sym (if_true (k =t name) _ _ same) ∙ h
  | inr other ↦
      if_false (k =t name) _ _ other
      ∙ lookup-append xs ys name value (sym (if_false (k =t name) _ _ other) ∙ h)
]

pub lookup-append-none :
    (xs ys : List (Text × Text)) (name : Text)
    → lookup xs name ≡ none
    → lookup (xs ++ ys) name ≡ lookup ys name
unfolding lookup
lookup-append-none [] ys name h = refl
lookup-append-none ((k, v) ∷ xs) ys name h = elim (Bool-cases (k =t name)) [
  | inl same ↦ absurd (cc (if_true (k =t name) (some v) (lookup xs name) same, h))
  | inr other ↦
      if_false (k =t name) _ _ other
      ∙ lookup-append-none xs ys name (sym (if_false (k =t name) _ _ other) ∙ h)
]

-- Every index of a numbered family is looked up as the value of the family.
pub lookup-numbered :
    (prefix value : Text) (from n i : ℕ)
    → i < n
    → lookup (numbered prefix from n value) (prefix ++ show (from + i)) ≡ some value
unfolding lookup numbered
lookup-numbered prefix value from zero i h = ground arith
lookup-numbered prefix value from (suc n) zero h =
    if_true ((prefix ++ show from) =t (prefix ++ show (from + 0))) _ _ (
      subst (λ k. ((prefix ++ show from) =t (prefix ++ show k)) ≡ true) (omega arith)
        (=t-self (prefix ++ show from)))
lookup-numbered prefix value from (suc n) (suc i) h =
    elim (Bool-cases ((prefix ++ show from) =t (prefix ++ show (from + suc i)))) [
      | inl same ↦ if_true _ _ _ same
      | inr other ↦
          if_false _ _ _ other
          ∙ subst (λ k. lookup (numbered prefix (suc from) n value) (prefix ++ show k) ≡ some value)
              (omega arith) (lookup-numbered prefix value (suc from) n i (omega (arith, h)))
    ]

pub lookup-index :
    (prefix value : Text) (n i : ℕ)
    → i < n
    → lookup (numbered prefix 0 n value) (prefix ++ show i) ≡ some value
lookup-index prefix value n i h =
    subst (λ k. lookup (numbered prefix 0 n value) (prefix ++ show k) ≡ some value) (omega arith)
      (lookup-numbered prefix value 0 n i h)

pub lookup-numbered-none :
    (prefix value name : Text) (from n : ℕ)
    → ((s : Text) → ((prefix ++ s) =t name) ≡ false)
    → lookup (numbered prefix from n value) name ≡ none
unfolding lookup numbered
lookup-numbered-none prefix value name from zero differs = refl
lookup-numbered-none prefix value name from (suc n) differs =
    if_false _ _ _ (differs (show from))
    ∙ lookup-numbered-none prefix value name (suc from) n differs

pub contracts-check : (s : Text) → lookup contract_results (codes "check-" ++ s) ≡ none
unfolding lookup ◌=t◌
contracts-check s = refl

pub contracts-beta_check : (s : Text) → lookup contract_results (codes "beta-check-" ++ s) ≡ none
unfolding lookup ◌=t◌
contracts-beta_check s = refl

pub contracts-scope : lookup contract_results (codes "scope") ≡ some success
unfolding lookup ◌=t◌
contracts-scope = refl

pub check-beta_check : (t s : Text) → ((codes "check-" ++ s) =t (codes "beta-check-" ++ t)) ≡ false
unfolding ◌=t◌
check-beta_check t s = refl
