-- ===== src/Prepare/PullRequests.antt =====
-- `own_pull_requests` of scripts/prepare_version.py.
use inverter_gateway.Prelude.{
  ◌≤◌, Bool, true, false, Option, none, some, List, [], ◌∷◌, ◌++◌, ◌≡◌, ap, subst, ◌&&◌, &&-true,
  Text, codes, leb, leb→le, length, All,
}
use inverter_gateway.Prelude.Result.{
  Result, ok, err, require, ◌>>=◌, ◌>>◌, bind_ok, guard_ok, ok-injective,
}
use inverter_gateway.Json.Texts.{text_is, text_is-eq}
use inverter_gateway.Json.{Json, Fields, boolean, str, arr, obj, get, to_list}

unfoldable pub own_row : Text → Text → Fields → Bool
own_row topic base row =
    text_is (get row (codes "headRefName")) topic && text_is (get row (codes "baseRefName")) base

-- whether the row is of a fork, which has to be a Boolean
abbrev pub is_fork : Option Json → Result Bool
is_fork (some (boolean b)) = ok b
is_fork _ = err "Preparation PR lacks repository identity"

abbrev pub row_fields : Json → Result Fields
row_fields (obj row) = ok row
row_fields _ = err "Preparation PR lacks repository identity"

abbrev pub taken_row : Bool → Text → Text → Fields → Result (List Fields)
taken_row true topic base row = ok []
taken_row false topic base row = do
  require (own_row topic base row) "Preparation PR branch identity differs from request"
  ok (row ∷ [])

-- the loop over the rows
unfoldable pub own_rows : Text → Text → List Json → Result (List Fields)
own_rows topic base [] = ok []
own_rows topic base (j ∷ js) = do
  row ← row_fields j
  fork ← is_fork (get row (codes "isCrossRepository"))
  taken ← taken_row fork topic base row
  rest ← own_rows topic base js
  ok (taken ++ rest)

unfoldable pub row_list : Json → Result (List Json)
row_list (arr rows) = ok (to_list rows)
row_list _ = err "Invalid preparation PR inventory"

-- `own_pull_requests`
unfoldable pub own_pull_requests : Json → Text → Text → Result (List Fields)
own_pull_requests rows topic base = do
  listed ← row_list rows
  own ← own_rows topic base listed
  require (leb (length own) 1) "Multiple preparation PRs exist for one version"
  ok own

-- A pull request of the repository itself, from the topic branch to the base branch.
pub record IsOwn (topic base : Text) (row : Fields) : Type 0 where
  pub local : get row (codes "isCrossRepository") ≡ some (boolean false)
  pub head : get row (codes "headRefName") ≡ some (str topic)
  pub target : get row (codes "baseRefName") ≡ some (str base)

is_fork-eq : (o : Option Json) (b : Bool) → is_fork o ≡ ok b → o ≡ some (boolean b)
is_fork-eq (some (boolean c)) b h = ap (λ x. some (boolean x)) (ok-injective _ _ h)
is_fork-eq none b h = absurd (cc)
is_fork-eq (some _) b h = absurd (cc)

own_row-IsOwn :
    (topic base : Text) (row : Fields)
    → get row (codes "isCrossRepository") ≡ some (boolean false)
    → own_row topic base row ≡ true
    → IsOwn topic base row
unfolding own_row
own_row-IsOwn topic base row same h =
    let (head, target) =
      &&-true (text_is (get row (codes "headRefName")) topic)
        (text_is (get row (codes "baseRefName")) base) h in
    record { local = same; head = text_is-eq _ topic head; target = text_is-eq _ base target }

taken_row-IsOwn :
    (topic base : Text) (fork : Bool) (row : Fields) (own : List Fields)
    → get row (codes "isCrossRepository") ≡ some (boolean fork)
    → taken_row fork topic base row ≡ ok own
    → All (IsOwn topic base) own
taken_row-IsOwn topic base true row own same made =
    subst (All (IsOwn topic base)) (ok-injective _ _ made) tt
taken_row-IsOwn topic base false row own same made =
    guard_ok (own_row topic base row) _ _ made λ matches kept.
      subst (All (IsOwn topic base)) (ok-injective _ _ kept)
        (own_row-IsOwn topic base row same matches, tt)

All-append {ℓ κ} :
    {A : Type ℓ} (P : A → Type κ) (xs ys : List A) → All P xs → All P ys → All P (xs ++ ys)
All-append P [] ys h k = k
All-append P (x ∷ xs) ys (first, rest) k = (first, All-append P xs ys rest k)

own_rows-IsOwn :
    (topic base : Text) (js : List Json) (own : List Fields)
    → own_rows topic base js ≡ ok own
    → All (IsOwn topic base) own
unfolding own_rows
own_rows-IsOwn topic base [] own h = subst (All (IsOwn topic base)) (ok-injective _ _ h) tt
own_rows-IsOwn topic base (j ∷ js) own h = bind_ok (row_fields j) _ h λ row hr h1.
    bind_ok (is_fork (get row (codes "isCrossRepository"))) _ h1 λ fork hf h2.
      bind_ok (taken_row fork topic base row) _ h2 λ taken ht h3.
        bind_ok (own_rows topic base js) _ h3 λ rest hs made.
          subst (All (IsOwn topic base)) (ok-injective _ _ made) (
            All-append (IsOwn topic base) taken rest
              (taken_row-IsOwn topic base fork row taken (is_fork-eq _ fork hf) ht)
              (own_rows-IsOwn topic base js rest hs))

-- At most one pull request is taken for the preparation, and it is the repository's own, from the topic branch
-- to the base branch.
pub own_pull_requests-IsOwn :
    (rows : Json) (topic base : Text) (own : List Fields)
    → own_pull_requests rows topic base ≡ ok own
    → All (IsOwn topic base) own × (length own ≤ 1)
unfolding own_pull_requests
own_pull_requests-IsOwn rows topic base own h = bind_ok (row_list rows) _ h λ listed hl h1.
    bind_ok (own_rows topic base listed) _ h1 λ kept hk h2.
      guard_ok (leb (length kept) 1) _ _ h2 λ single made.
        let same = ok-injective _ _ made in
        (
          subst (All (IsOwn topic base)) same (own_rows-IsOwn topic base listed kept hk),
          subst (λ k. length k ≤ 1) same (leb→le (length kept) 1 single),
        )
