-- ===== src/Prepare/Search.antt =====
-- The loop of `choose_version` of scripts/prepare_version.py ends, at the first patch that is free.
use inverter_gateway.Prelude.{
  ℕ, zero, suc, ◌+◌, ◌<◌, ◌≤◌, true, false, some, List, [], ◌∷◌, ◌++◌, ◌≡◌, ◌≢◌, refl, sym, ap,
  subst, ◌∙◌, if◌then◌else◌, Text, codes, ◌=t◌, keep, length, show, read-show, read, strip_prefix,
  strip_prefix-append, Bool-cases, if_true, if_false, some_injective, keep-true, keep-false, not,
  ◌||◌, =t→eq, inl, inr, arith,
}
use inverter_gateway.Plan.Declaration.{one_of}
use inverter_gateway.Prepare.Versions.{Version, tag_of}
use inverter_gateway.Prepare.Choose.{free_patch}

cancel : (p s t : Text) → p ++ s ≡ p ++ t → s ≡ t
cancel p s t h =
    some_injective (sym (strip_prefix-append p s) ∙ ap (strip_prefix p) h ∙ strip_prefix-append p t)

show-injective : (m n : ℕ) → show m ≡ show n → m ≡ n
show-injective m n h = sym (read-show m) ∙ ap read h ∙ read-show n

abbrev pub at_patch : Version → ℕ → Version
at_patch v n = record v { patch = n }

tag_of-injective : (v : Version) (m n : ℕ) → tag_of (at_patch v m) ≡ tag_of (at_patch v n) → m ≡ n
unfolding tag_of
tag_of-injective v m n h =
    let h1 = cancel (codes "v") _ _ h in
    let h2 = cancel (show v.major) _ _ h1 in
    let h3 = cancel (codes ".") _ _ h2 in
    let h4 = cancel (show v.minor) _ _ h3 in show-injective m n (cancel (codes ".") _ _ h4)

-- The names other than one.
abbrev others : Text → List Text → List Text
others t names = keep (λ n. not (n =t t)) names

not_equal : (s t : Text) → s ≢ t → (s =t t) ≡ false
not_equal s t differs = elim (Bool-cases (s =t t)) [
  | inl same ↦ absurd (differs (=t→eq s t same))
  | inr other ↦ other
]

one_of-others :
    (t s : Text) (names : List Text) → s ≢ t → one_of (others t names) s ≡ one_of names s
one_of-others t s [] differs = refl
one_of-others t s (n ∷ names) differs = elim (Bool-cases (n =t t)) [
  | inl same ↦
      let apart : (n =t s) ≡ false = not_equal n s (λ e. differs (sym e ∙ =t→eq n t same)) in
      ap (λ k. one_of k s) (keep-false (λ k. not (k =t t)) n names (ap not same))
      ∙ one_of-others t s names differs
      ∙ ap (λ b. b || one_of names s) (sym apart)
  | inr other ↦
      ap (λ k. one_of k s) (keep-true (λ k. not (k =t t)) n names (ap not other))
      ∙ ap (λ b. (n =t s) || b) (one_of-others t s names differs)
]

length-others_le : (t : Text) (names : List Text) → length (others t names) ≤ length names
length-others_le t [] = omega arith
length-others_le t (n ∷ names) = elim (Bool-cases (n =t t)) [
  | inl same ↦
      subst (λ k. length k ≤ suc (length names))
        (sym (keep-false (λ k. not (k =t t)) n names (ap not same)))
        (omega (arith, length-others_le t names))
  | inr other ↦
      subst (λ k. length k ≤ suc (length names))
        (sym (keep-true (λ k. not (k =t t)) n names (ap not other)))
        (omega (arith, length-others_le t names))
]

length-others :
    (t : Text) (names : List Text) → one_of names t ≡ true → length (others t names) < length names
length-others t [] h = absurd (cc)
length-others t (n ∷ names) h = elim (Bool-cases (n =t t)) [
  | inl same ↦
      subst (λ k. length k < suc (length names))
        (sym (keep-false (λ k. not (k =t t)) n names (ap not same)))
        (omega (arith, length-others_le t names))
  | inr other ↦
      subst (λ k. length k < suc (length names))
        (sym (keep-true (λ k. not (k =t t)) n names (ap not other)))
        (omega (arith, length-others t names (sym (ap (λ b. b || one_of names t) other) ∙ h)))
]

apart : (v : Version) (m n : ℕ) → m < n → tag_of (at_patch v m) ≢ tag_of (at_patch v n)
apart v m n h e = let same : m ≡ n = tag_of-injective v m n e in omega (arith, h, same)

-- A loop that starts above a patch does not look at that patch's name.
free_patch-others :
    (fuel : ℕ) (names : List Text) (v : Version) (m n : ℕ)
    → m < n
    → free_patch fuel (others (tag_of (at_patch v m)) names) (at_patch v n)
      ≡ free_patch fuel names (at_patch v n)
unfolding free_patch
free_patch-others zero names v m n h = refl
free_patch-others (suc fuel) names v m n h =
    let differs : tag_of (at_patch v n) ≢ tag_of (at_patch v m) = λ e. apart v m n h (sym e) in
    ap
      (λ b.
        if b
        then free_patch fuel (others (tag_of (at_patch v m)) names) (at_patch v (n + 1))
        else some (at_patch v n))
      (one_of-others _ _ names differs)
    ∙ ap (λ r. if one_of names (tag_of (at_patch v n)) then r else some (at_patch v n))
        (free_patch-others fuel names v m (n + 1) (omega (arith, h)))

-- With more fuel than names the loop ends, at a patch from the first on whose name is free.
pub free_patch-found :
    (fuel : ℕ) (names : List Text) (v : Version)
    → length names < fuel
    → (n : ℕ) × (free_patch fuel names v ≡ some (at_patch v (v.patch + n)))
      × (one_of names (tag_of (at_patch v (v.patch + n))) ≡ false)
unfolding free_patch
free_patch-found zero names v h = absurd (omega (arith, h))
free_patch-found (suc fuel) names v h = elim (Bool-cases (one_of names (tag_of v))) [
  | inr free ↦ (
    0,
    if_false (one_of names (tag_of v)) _ _ free ∙ ap (λ n. some (at_patch v n)) (omega arith),
    subst (λ n. one_of names (tag_of (at_patch v n)) ≡ false) (omega arith) free,
  )
  | inl taken ↦
      let kept = others (tag_of v) names in
      let (n, found, free) =
        free_patch-found fuel kept (at_patch v (v.patch + 1))
          (omega (arith, h, length-others (tag_of v) names taken)) in
      let here : v.patch + 1 + n ≡ v.patch + (1 + n) = omega arith in
      let differs : tag_of (at_patch v (v.patch + 1 + n)) ≢ tag_of v =
        λ e. apart v v.patch (v.patch + 1 + n) (omega arith) (sym e) in
      (
        1 + n,
        if_true (one_of names (tag_of v)) _ _ taken
            ∙ sym (free_patch-others fuel names v v.patch (v.patch + 1) (omega arith))
            ∙ found
            ∙ ap (λ k. some (at_patch v k)) here,
        subst (λ k. one_of names (tag_of (at_patch v k)) ≡ false) here
            (sym (one_of-others (tag_of v) _ names differs) ∙ free),
      )
]
