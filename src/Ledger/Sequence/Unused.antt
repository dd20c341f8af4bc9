-- ===== src/Ledger/Sequence/Unused.antt =====
-- The number that `next_sequence` finds is unused in the repository.
use inverter_gateway.Prelude.{
  ℕ, ◌≤◌, ◌<◌, List, [], ◌∷◌, ◌++◌, ◌≡◌, ◌≢◌, sym, subst, arith, Text, maximum, show, read-show,
  strip_prefix, strip_prefix-append, is_positive_numeral-show, All, ◌||◌,
}
use inverter_gateway.Prelude.Result.{ok, guard_ok, ok-injective}
use inverter_gateway.Plan.Identity.{Channel, beta, rc}
use inverter_gateway.Plan.Patterns.{is_base}
use inverter_gateway.Ledger.Types.{View, same_channel}
use inverter_gateway.Ledger.Sequence.{
  release_names, numeral_value, sequence_numbers, tag_prefix, next_sequence,
}

le-maximum : (a b : List ℕ) → (maximum a ≤ maximum (a ++ b)) × (maximum b ≤ maximum (a ++ b))
unfolding maximum
le-maximum [] b = omega arith
le-maximum (x ∷ a) b = omega (arith, le-maximum a b)

numeral_value-tag :
    (prefix : Text) (n : ℕ)
    → 0 < n
    → n ≤ maximum (numeral_value (strip_prefix prefix (prefix ++ show n)))
unfolding maximum
numeral_value-tag prefix n h =
    rw (strip_prefix-append prefix (show n), is_positive_numeral-show n h, read-show n)
      (omega arith)

numbers-unused :
    (prefix : Text) (n : ℕ) (tags : List Text)
    → maximum (sequence_numbers prefix tags) < n
    → All (λ tag. tag ≢ prefix ++ show n) tags
unfolding sequence_numbers
numbers-unused prefix n [] h = tt
numbers-unused prefix n (tag ∷ tags) h =
    let own = numeral_value (strip_prefix prefix tag) in
    let both = le-maximum own (sequence_numbers prefix tags) in
    (
      λ same. omega (
        arith,
        both,
        h,
        subst (λ t. n ≤ maximum (numeral_value (strip_prefix prefix t))) (sym same)
            (numeral_value-tag prefix n (omega arith)),
      ),
      numbers-unused prefix n tags (omega (arith, both, h)),
    )

-- No tag and no release of the repository has the name that the next sequence makes.
pub next_sequence-unused :
    (v : View) (base : Text) (c : Channel) (n : ℕ)
    → next_sequence v base c ≡ ok n
    → All (λ tag. tag ≢ tag_prefix base c ++ show n) (v.tags ++ release_names v.releases)
unfolding next_sequence
next_sequence-unused v base c n h =
    guard_ok (same_channel c beta || same_channel c rc) _ _ h λ h0 h1.
      guard_ok (is_base base) _ _ h1 λ h2 h3.
        numbers-unused (tag_prefix base c) n (v.tags ++ release_names v.releases)
          (omega (arith, ok-injective _ _ h3))
