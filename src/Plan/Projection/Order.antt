-- ===== src/Plan/Projection/Order.antt =====
-- The numeric projections keep the order of builds, of runs and of attempts.
use inverter_gateway.Prelude.{
  ℕ, ◌+◌, ◌-◌, ◌*◌, ◌/◌, ◌%◌, ◌^◌, ◌≤◌, ◌<◌, ◌≡◌, ◌⊎◌, inl, inr, arith, ltb, leb, ltb→lt, leb→le,
  ◌&&◌, &&-true,
}
use native.Mathlib.Decide.{dec_lt}
use inverter_gateway.Prelude.Result.{ok, guard_ok, ok-injective}
use inverter_gateway.Plan.Projection.{dev_number, AppleVersion, apple_version}

-- The order of Apple's three numbers, compared from the left.
abbrev pub AppleLt : AppleVersion → AppleVersion → Type 0
AppleLt a b =
    (a.major < b.major)
    ⊎ ((a.major ≡ b.major) × ((a.minor < b.minor) ⊎ ((a.minor ≡ b.minor) × (a.patch < b.patch))))

apple-lt :
    (a b : ℕ)
    → a < b
    → (a / 10000 + 1 < b / 10000 + 1)
      ⊎ ((a / 10000 + 1 ≡ b / 10000 + 1)
          × ((a / 100 % 100 < b / 100 % 100)
              ⊎ ((a / 100 % 100 ≡ b / 100 % 100) × (a % 100 < b % 100))))
apple-lt a b h = elim (dec_lt (a / 10000) (b / 10000)) [
  | yes major ↦ inl (omega arith)
  | no same ↦ elim (dec_lt (a / 100 % 100) (b / 100 % 100)) [
    | yes minor ↦ inr (omega arith, inl minor)
    | no again ↦ inr (omega arith, inr (omega arith, omega arith))
  ]
]

-- A later build has a greater Apple version, and the two parts behind the first stay below 100.
pub apple_version_mono :
    (m n : ℕ)
    → 0 < m
    → m < n
    → AppleLt (apple_version m) (apple_version n)
      × ((apple_version n).minor < 100)
      × ((apple_version n).patch < 100)
unfolding apple_version
apple_version_mono m n p h = (apple-lt (m - 1) (n - 1) (omega arith), omega arith, omega arith)

-- The PEP 440 number orders nightlies by their run and then by their attempt, and fits a u64.
pub dev_number_mono :
    (run attempt run' attempt' n n' : ℕ)
    → dev_number run attempt ≡ ok n
    → dev_number run' attempt' ≡ ok n'
    → (run < run') ⊎ ((run ≡ run') × (attempt < attempt'))
    → (n < n') × (n' < 2 ^ 64)
unfolding dev_number
dev_number_mono run attempt run' attempt' n n' h h' lt =
    guard_ok (ltb attempt 1_000_000 && leb (run * 1_000_000 + attempt) (2 ^ 64 - 2)) _ _ h λ g e.
      guard_ok (ltb attempt' 1_000_000 && leb (run' * 1_000_000 + attempt') (2 ^ 64 - 2)) _ _ h'
        λ g' e'.
          let small : attempt < 1_000_000 = ltb→lt attempt 1_000_000 (&&-true _ _ g).0 in
          let fits : run' * 1_000_000 + attempt' ≤ 2 ^ 64 - 2 =
            leb→le (run' * 1_000_000 + attempt') (2 ^ 64 - 2) (&&-true _ _ g').1 in
          omega (arith, ok-injective _ _ e, ok-injective _ _ e')
