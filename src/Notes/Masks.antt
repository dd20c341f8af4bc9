-- ===== src/Notes/Masks.antt =====
-- Masking comments keeps every offset of a line.
use inverter_gateway.Prelude.{
  take, drop, starts_with, ℕ, zero, suc, ◌+◌, ◌-◌, ◌*◌, ◌≤◌, ◌<◌, Bool, true, false, Option, none,
  some, [], ◌∷◌, ◌++◌, ◌≡◌, refl, sym, ap, subst, ◌∙◌, ◌⊎◌, inl, inr, ◌||◌, Text, codes, ◌==◌,
  length, map, arith, Bool-cases, if_true, if_false, some_injective,
}
use inverter_gateway.Notes.Comment.{
  value_at, release_code_span_ends, close_mark, comment_size, hide, Move, within_comment, at_code,
  move, shown, visible_rest, release_comment_line,
}
use inverter_gateway.Notes.Spans.{code_span_forward}

-- Character for character, what is visible is the line, or a space in place of what is no line break.
pub data Masks : Text → Text → Type 0 where
  nothing : Masks [] []
  keeps : {c : ℕ} {s t : Text} → Masks s t → Masks (c ∷ s) (c ∷ t)
  hides : {c : ℕ} {s t : Text} → (c == 13 || c == 10) ≡ false → Masks s t → Masks (c ∷ s) (32 ∷ t)

pub Masks-self : (s : Text) → Masks s s
Masks-self [] = nothing
Masks-self (c ∷ s) = keeps (Masks-self s)

pub Masks-append : (s t u v : Text) → Masks s t → Masks u v → Masks (s ++ u) (t ++ v)
Masks-append _ _ u v nothing k = k
Masks-append _ _ u v (keeps h) k = keeps (Masks-append _ _ u v h k)
Masks-append _ _ u v (hides blank h) k = hides blank (Masks-append _ _ u v h k)

pub Masks-length : (s t : Text) → Masks s t → length t ≡ length s
Masks-length _ _ nothing = refl
Masks-length _ _ (keeps h) = ap suc (Masks-length _ _ h)
Masks-length _ _ (hides blank h) = ap suc (Masks-length _ _ h)

Masks-shown : (b : Bool) (s : Text) → Masks s (shown b s)
Masks-shown false s = Masks-self s
Masks-shown true [] = nothing
Masks-shown true (c ∷ s) = elim (Bool-cases (c == 13 || c == 10)) [
  | inl break ↦
      subst (λ d. Masks (c ∷ s) (d ∷ map hide s)) (sym (if_true (c == 13 || c == 10) c 32 break))
        (keeps (Masks-shown true s))
  | inr other ↦
      subst (λ d. Masks (c ∷ s) (d ∷ map hide s)) (sym (if_false (c == 13 || c == 10) c 32 other))
        (hides other (Masks-shown true s))
]

take-drop : (n : ℕ) (s : Text) → take n s ++ drop n s ≡ s
take-drop zero s = refl
take-drop (suc n) [] = refl
take-drop (suc n) (c ∷ s) = ap (λ t. c ∷ t) (take-drop n s)

length-drop : (n : ℕ) (s : Text) → length (drop n s) ≡ length s - n
length-drop zero s = omega arith
length-drop (suc n) [] = omega arith
length-drop (suc n) (c ∷ s) = length-drop n s ∙ omega arith

comment_size-bound : (s : Text) (n : ℕ) → comment_size s ≡ some n → 0 < n
unfolding comment_size
comment_size-bound [] n h = absurd (cc)
comment_size-bound (c ∷ s) n h = elim (Bool-cases (starts_with close_mark (c ∷ s))) [
  | inl closes ↦
      let three : 3 ≡ n = some_injective (sym (if_true _ _ _ closes) ∙ h) in omega (arith, three)
  | inr other ↦ longer (comment_size s) (sym (if_false _ _ _ other) ∙ h)
]
  where
    longer : (o : Option ℕ) → elim o [ none ↦ none | some m ↦ some (suc m) ] ≡ some n → 0 < n
    longer none k = absurd (cc)
    longer (some m) k = let next : suc m ≡ n = some_injective k in omega (arith, next)

-- A round passes a character, or opens a comment where none was open.
abbrev Advances : Bool → Move → Type 0
Advances comment m = (0 < m.size) ⊎ ((comment ≡ false) × (m.comment ≡ true))

within_comment-Advances :
    (c : ℕ) (s : Text) (o : Option ℕ)
    → comment_size (c ∷ s) ≡ o
    → Advances true (within_comment (c ∷ s) o)
within_comment-Advances c s none h = inl (omega arith)
within_comment-Advances c s (some n) h = inl (comment_size-bound (c ∷ s) n h)

at_code-Advances :
    (line rest : Text) (at : ℕ) (o : Option ℕ)
    → value_at (release_code_span_ends line) at ≡ o
    → Advances false (at_code rest at o)
at_code-Advances line rest at (some end) h =
    let forward : at < end = code_span_forward line at end h in inl (omega (arith, forward))
at_code-Advances line rest at none h = elim (Bool-cases (starts_with (codes "<!--") rest)) [
  | inl opens ↦
      subst (Advances false) (sym (if_true (starts_with (codes "<!--") rest) _ _ opens))
        (inr (refl, refl))
  | inr other ↦
      subst (Advances false) (sym (if_false (starts_with (codes "<!--") rest) _ _ other))
        (inl (omega arith))
]

move-Advances :
    (line : Text) (at : ℕ) (comment : Bool) (c : ℕ) (s : Text)
    → Advances comment (move (release_code_span_ends line) at comment c s)
unfolding move
move-Advances line at true c s = within_comment-Advances c s (comment_size (c ∷ s)) refl
move-Advances line at false c s = elim (Bool-cases (c == 92)) [
  | inl escape ↦ subst (Advances false) (sym (if_true (c == 92) _ _ escape)) (inl (omega arith))
  | inr other ↦
      subst (Advances false) (sym (if_false (c == 92) _ _ other))
        (at_code-Advances line (c ∷ s) at (value_at (release_code_span_ends line) at) refl)
]

-- rounds that a rest of the line needs
abbrev rounds : Bool → ℕ → ℕ
rounds true n = 2 * n - 1
rounds false n = 2 * n

rounds-bound : (b : Bool) (n : ℕ) → rounds b n ≤ 2 * n
rounds-bound true n = omega arith
rounds-bound false n = omega arith

rounds-passed :
    (comment next : Bool) (size n : ℕ)
    → 0 < size
    → rounds next (suc n - size) < rounds comment (suc n)
rounds-passed true next size n h = omega (arith, h, rounds-bound next (suc n - size))
rounds-passed false next size n h = omega (arith, h, rounds-bound next (suc n - size))

rounds-opened : (size n : ℕ) → rounds true (suc n - size) < rounds false (suc n)
rounds-opened size n = omega arith

enough-rounds : (b : Bool) (n : ℕ) → rounds b (suc n) ≤ 0 → ⊥
enough-rounds true n h = omega (arith, h)
enough-rounds false n h = omega (arith, h)

fewer-rounds :
    (comment : Bool) (m : Move) (n : ℕ)
    → Advances comment m
    → rounds m.comment (suc n - m.size) < rounds comment (suc n)
fewer-rounds comment m n (inl passes) = rounds-passed comment m.comment m.size n passes
fewer-rounds comment m n (inr (closed, opens)) =
    subst (λ b. rounds m.comment (suc n - m.size) < rounds b (suc n)) (sym closed)
      (subst (λ b. rounds b (suc n - m.size) < rounds false (suc n)) (sym opens)
        (rounds-opened m.size n))

visible_rest-Masks :
    (line : Text) (fuel at : ℕ) (comment : Bool) (s : Text)
    → rounds comment (length s) ≤ fuel
    → Masks s ((visible_rest fuel (release_code_span_ends line) at comment s).0)
unfolding visible_rest
visible_rest-Masks line fuel at comment [] h = nothing
visible_rest-Masks line zero at comment (c ∷ s) h = absurd (enough-rounds comment (length s) h)
visible_rest-Masks line (suc fuel) at comment (c ∷ s) h =
    let m = move (release_code_span_ends line) at comment c s in
    let fewer = fewer-rounds comment m (length s) (move-Advances line at comment c s) in
    let left : rounds m.comment (length (drop m.size (c ∷ s))) ≤ fuel =
      subst (λ n. rounds m.comment n ≤ fuel) (sym (length-drop m.size (c ∷ s)))
        (omega (arith, fewer, h)) in
    let rest =
      (visible_rest fuel (release_code_span_ends line) (at + m.size) m.comment
        (drop m.size (c ∷ s))).0 in
    subst (λ t. Masks t (shown m.hides (take m.size (c ∷ s)) ++ rest)) (take-drop m.size (c ∷ s))
      (Masks-append _ _ _ _ (Masks-shown m.hides (take m.size (c ∷ s)))
        (visible_rest-Masks line fuel (at + m.size) m.comment (drop m.size (c ∷ s)) left))

-- Masking the comments of a line keeps each character at its place, or puts a space for one that is no line
-- break.
pub release_comment_line-Masks :
    (line : Text) (comment : Bool) → Masks line ((release_comment_line line comment).0)
unfolding release_comment_line
release_comment_line-Masks line comment =
    visible_rest-Masks line (2 * length line) 0 comment line (rounds-bound comment (length line))
