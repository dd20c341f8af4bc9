-- ===== src/Plan/Identity/Injective.antt =====
-- A version text determines the release that it names.
use mathlib.Core.Logic.{◌⊎◌}
use inverter_gateway.Prelude.{
  ℕ, Bool, true, not, List, [], ◌∷◌, ◌++◌, ◌≡◌, refl, sym, ap, subst, ◌∙◌, arith, Text, all, ◌==◌,
  is_digit, is_numeral, is_positive_numeral, Bool-cases, inl, inr, show, read, read-show,
}
use inverter_gateway.Prelude.Result.{ok}
use inverter_gateway.Json.{Json}
use inverter_gateway.Plan.Patterns.{split_on, is_base, onto_first, three_numerals}
use inverter_gateway.Plan.Identity.{
  Channel, nightly, beta, rc, stable, channel_name, Sequence, count, stamp, sequence_text,
  version_text, Identity, identity,
}
use inverter_gateway.Plan.Identity.Inversion.{Fits, identity-Accepted}

-- The separator does not stand in the text.
abbrev Lacks : ℕ → Text → Type 0
Lacks d s = all (λ c. not (c == d)) s ≡ true

-- Texts are cut at the first separator in one way.
cut : (d : ℕ) (a b x y : Text) → Lacks d a → Lacks d b → a ++ d ∷ x ≡ b ++ d ∷ y → (a ≡ b) × (x ≡ y)
cut d [] [] x y ha hb e = (refl, cc)
cut d [] (c ∷ b) x y ha hb e = absurd (ground arith)
cut d (c ∷ a) [] x y ha hb e = absurd (ground arith)
cut d (c ∷ a) (c' ∷ b) x y ha hb e = ground (arith, cut d a b x y)

uncut : (d : ℕ) (a b y : Text) → Lacks d a → a ≡ b ++ d ∷ y → ⊥
uncut d [] [] y h e = cc
uncut d [] (c ∷ b) y h e = cc
uncut d (c ∷ a) [] y h e = ground arith
uncut d (c ∷ a) (c' ∷ b) y h e = ground (arith, uncut d a b y)

numeral-digits : (s : Text) → is_numeral s ≡ true → all is_digit s ≡ true
unfolding is_numeral is_positive_numeral
numeral-digits [] h = cc
numeral-digits (c ∷ []) h = ground arith
numeral-digits (c ∷ d ∷ s) h = ground arith

three-digits : (parts : List Text) → three_numerals parts ≡ true → all (all is_digit) parts ≡ true
three-digits [] h = absurd (cc)
three-digits (a ∷ []) h = absurd (cc)
three-digits (a ∷ b ∷ []) h = absurd (cc)
three-digits (a ∷ b ∷ c ∷ []) h =
    ground (arith, numeral-digits a, numeral-digits b, numeral-digits c)
three-digits (a ∷ b ∷ c ∷ d ∷ r) h = absurd (cc)

onto-digits :
    (c : ℕ) (parts : List Text)
    → all (all is_digit) (onto_first c parts) ≡ true
    → (is_digit c ≡ true) × (all (all is_digit) parts ≡ true)
onto-digits c [] h = ground arith
onto-digits c (p ∷ ps) h = ground arith

digits-lack : (s : Text) → all (all is_digit) (split_on b'.' s) ≡ true → Lacks b'-' s
unfolding split_on
digits-lack [] h = refl
digits-lack (c ∷ s) h = elim (Bool-cases (c == b'.')) [
  | inl dot ↦ ground (arith, digits-lack s, dot, h)
  | inr other ↦ ground (arith, digits-lack s, other, onto-digits c (split_on b'.' s))
]

-- A base version has no dash.
base-Lacks : (s : Text) → is_base s ≡ true → Lacks b'-' s
unfolding is_base
base-Lacks s h = digits-lack s (three-digits (split_on b'.' s) h)

name-Lacks : (c : Channel) → Lacks b'.' (channel_name c)
name-Lacks nightly = refl
name-Lacks beta = refl
name-Lacks rc = refl
name-Lacks stable = refl

channel_name-injective : (c d : Channel) → channel_name c ≡ channel_name d → c ≡ d
channel_name-injective nightly nightly e = refl
channel_name-injective beta beta e = refl
channel_name-injective rc rc e = refl
channel_name-injective stable stable e = refl
channel_name-injective _ _ e = absurd (cc)

show-injective : (n m : ℕ) → show n ≡ show m → n ≡ m
show-injective n m e = sym (read-show n) ∙ ap read e ∙ read-show m

sequence-injective :
    (c : Channel) (s t : Sequence) → Fits c s → Fits c t → sequence_text s ≡ sequence_text t → s ≡ t
sequence-injective stable s t fs ft e = fs ∙ sym ft
sequence-injective nightly s t (a, ea, _) (b, eb, _) e =
    ea ∙ ap stamp (subst (λ x. sequence_text x ≡ b) ea (e ∙ ap sequence_text eb)) ∙ sym eb
sequence-injective beta s t (n, en, _) (m, em, _) e =
    en
    ∙ ap count (show-injective n m (sym (ap sequence_text en) ∙ e ∙ ap sequence_text em))
    ∙ sym em
sequence-injective rc s t (n, en, _) (m, em, _) e =
    en
    ∙ ap count (show-injective n m (sym (ap sequence_text en) ∙ e ∙ ap sequence_text em))
    ∙ sym em

abbrev suffix : Channel → Sequence → Text
suffix c s = channel_name c ++ b'.' ∷ sequence_text s

version-shape :
    (b : Text) (c : Channel) (s : Sequence)
    → ((c ≡ stable) × (version_text b c s ≡ b)) ⊎ (version_text b c s ≡ b ++ b'-' ∷ suffix c s)
version-shape b nightly s = inr refl
version-shape b beta s = inr refl
version-shape b rc s = inr refl
version-shape b stable s = inl (refl, refl)

suffix-injective :
    (c d : Channel) (s t : Sequence)
    → Fits c s
    → Fits d t
    → suffix c s ≡ suffix d t
    → (c ≡ d) × (s ≡ t)
suffix-injective c d s t fs ft e =
    let (names, rests) =
      cut b'.' (channel_name c) (channel_name d) _ _ (name-Lacks c) (name-Lacks d) e in
    let same = channel_name-injective c d names in
    (same, sequence-injective c s t fs (subst (λ x. Fits x t) (sym same) ft) rests)

parts-injective :
    (b b' : Text) (c c' : Channel) (s s' : Sequence)
    → Lacks b'-' b
    → Lacks b'-' b'
    → Fits c s
    → Fits c' s'
    → version_text b c s ≡ version_text b' c' s'
    → (b ≡ b') × (c ≡ c') × (s ≡ s')
parts-injective b b' c c' s s' hb hb' fs fs' e = elim (version-shape b c s) [
  | inl (st, v) ↦ elim (version-shape b' c' s') [
    | inl (st', v') ↦ (
      sym v ∙ e ∙ v',
      st ∙ sym st',
      subst (λ x. Fits x s) st fs ∙ sym (subst (λ x. Fits x s') st' fs'),
    )
    | inr v' ↦ absurd (uncut b'-' b b' (suffix c' s') hb (sym v ∙ e ∙ v'))
  ]
  | inr v ↦ elim (version-shape b' c' s') [
    | inl (st', v') ↦ absurd (uncut b'-' b' b (suffix c s) hb' (sym v' ∙ sym e ∙ v))
    | inr v' ↦
        let (bases, rests) = cut b'-' b b' _ _ hb hb' (sym v ∙ e ∙ v') in
        let (channels, sequences) = suffix-injective c c' s s' fs fs' rests in
        (bases, channels, sequences)
  ]
]

-- Two accepted releases with one version text are one release: base, channel and sequence agree.
pub version-injective :
    (valid_time : Text → Bool) (b c s b' c' s' : Json) (who who' : Identity)
    → identity valid_time b c s ≡ ok who
    → identity valid_time b' c' s' ≡ ok who'
    → who.version ≡ who'.version
    → who ≡ who'
version-injective valid_time b c s b' c' s' who who' h h' e =
    let a = identity-Accepted valid_time b c s who h in
    let a' = identity-Accepted valid_time b' c' s' who' h' in
    let (bases, channels, sequences) =
      parts-injective who.base who'.base who.channel who'.channel who.sequence who'.sequence
        (base-Lacks who.base a.base_strict) (base-Lacks who'.base a'.base_strict) a.fits a'.fits
        (sym a.version_made ∙ e ∙ a'.version_made) in
    λ i. record { base = bases i; channel = channels i; sequence = sequences i; version = e i }
