-- ===== src/Notes/Spans.antt =====
-- Code spans of `_release_code_span_ends` in scripts/release_control.py run forward.
use inverter_gateway.Prelude.{
  ℕ, suc, ◌+◌, ◌≤◌, ◌<◌, Option, none, some, List, [], ◌∷◌, ◌≡◌, refl, sym, subst, ◌∙◌, inl, inr,
  Text, ◌==◌, arith, Bool-cases, if_true, if_false, some_injective, ==→eq,
}
use inverter_gateway.Notes.Fence.{tick}
use inverter_gateway.Notes.Comment.{
  Span, extend_run, tick_runs, value_at, span_length, add_end, pair_runs, release_code_span_ends,
}

-- Runs in order from a position on, none empty.
abbrev InOrder : ℕ → List Span → Type 0
InOrder from [] = Unit
InOrder from ((start, stop) ∷ runs) = (from ≤ start) × (start < stop) × InOrder stop runs

InOrder-extend_run :
    (at : ℕ) (runs : List Span) → InOrder (suc at) runs → InOrder at (extend_run at runs)
InOrder-extend_run at [] h = (omega arith, omega arith, tt)
InOrder-extend_run at ((start, stop) ∷ runs) (low, size, rest) =
    elim (Bool-cases (start == at + 1)) [
      | inl next ↦
          subst (InOrder at) (sym (if_true (start == at + 1) _ _ next))
            (omega arith, omega (arith, low, size), rest)
      | inr apart ↦
          subst (InOrder at) (sym (if_false (start == at + 1) _ _ apart))
            (omega arith, omega arith, (omega (arith, low), size, rest))
    ]

InOrder-weaken : (m n : ℕ) (runs : List Span) → m ≤ n → InOrder n runs → InOrder m runs
InOrder-weaken m n [] h k = tt
InOrder-weaken m n ((start, stop) ∷ runs) h (low, size, rest) = (omega (arith, h, low), size, rest)

tick_runs-InOrder : (at : ℕ) (s : Text) → InOrder at (tick_runs at s)
unfolding tick_runs
tick_runs-InOrder at [] = tt
tick_runs-InOrder at (c ∷ s) = elim (Bool-cases (c == tick)) [
  | inl ticked ↦
      subst (InOrder at) (sym (if_true (c == tick) _ _ ticked))
        (InOrder-extend_run at _ (tick_runs-InOrder (suc at) s))
  | inr other ↦
      subst (InOrder at) (sym (if_false (c == tick) _ _ other))
        (InOrder-weaken at (suc at) _ (omega arith) (tick_runs-InOrder (suc at) s))
]

-- The values of the entries lie above a position.
abbrev Above : ℕ → List Span → Type 0
Above low [] = Unit
Above low ((k, v) ∷ entries) = (low < v) × Above low entries

-- The value of an entry lies above its key.
abbrev Forward : List Span → Type 0
Forward [] = Unit
Forward ((k, v) ∷ entries) = (k < v) × Forward entries

Above-weaken : (m n : ℕ) (es : List Span) → m ≤ n → Above n es → Above m es
Above-weaken m n [] h k = tt
Above-weaken m n ((a, b) ∷ es) h (first, rest) =
    (omega (arith, h, first), Above-weaken m n es h rest)

value_at-Above :
    (low : ℕ) (es : List Span) (key v : ℕ) → Above low es → value_at es key ≡ some v → low < v
unfolding value_at
value_at-Above low [] key v h found = absurd (cc)
value_at-Above low ((k, w) ∷ es) key v (first, rest) found = elim (Bool-cases (k == key)) [
  | inl same ↦
      let equal : w ≡ v = some_injective (sym (if_true (k == key) _ _ same) ∙ found) in
      omega (arith, first, equal)
  | inr other ↦ value_at-Above low es key v rest (sym (if_false (k == key) _ _ other) ∙ found)
]

value_at-Forward : (es : List Span) (key v : ℕ) → Forward es → value_at es key ≡ some v → key < v
unfolding value_at
value_at-Forward [] key v h found = absurd (cc)
value_at-Forward ((k, w) ∷ es) key v (first, rest) found = elim (Bool-cases (k == key)) [
  | inl same ↦
      let equal : w ≡ v = some_injective (sym (if_true (k == key) _ _ same) ∙ found) in
      let at_key : k ≡ key = ==→eq k key same in omega (arith, first, equal, at_key)
  | inr other ↦ value_at-Forward es key v rest (sym (if_false (k == key) _ _ other) ∙ found)
]

add_end-Forward :
    (run : Span) (o : Option ℕ) (es : List Span)
    → ((v : ℕ) → o ≡ some v → run.0 < v)
    → Forward es
    → Forward (add_end run o es)
add_end-Forward (start, stop) none es h k = k
add_end-Forward (start, stop) (some v) es h k = (h v refl, k)

pair_runs-InOrder :
    (from : ℕ) (runs : List Span)
    → InOrder from runs
    → Above from ((pair_runs runs).0) × Forward ((pair_runs runs).1)
unfolding pair_runs
pair_runs-InOrder from [] h = (tt, tt)
pair_runs-InOrder from ((start, stop) ∷ runs) (low, size, rest) =
    let (above, forward) = pair_runs-InOrder stop runs rest in
    (
      (omega (arith, low, size), Above-weaken from stop _ (omega (arith, low, size)) above),
      add_end-Forward (start, stop) (value_at ((pair_runs runs).0) (span_length (start, stop)))
          ((pair_runs runs).1)
          (λ v found.
            let beyond : stop < v =
              value_at-Above stop ((pair_runs runs).0) (span_length (start, stop)) v above found in
            omega (arith, size, beyond))
          forward,
    )

-- A code span ends after the position where it starts.
pub code_span_forward :
    (line : Text) (at end : ℕ) → value_at (release_code_span_ends line) at ≡ some end → at < end
unfolding release_code_span_ends
code_span_forward line at end found =
    let (_, forward) = pair_runs-InOrder 0 (tick_runs 0 line) (tick_runs-InOrder 0 line) in
    value_at-Forward ((pair_runs (tick_runs 0 line)).1) at end forward found
