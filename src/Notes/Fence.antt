-- ===== src/Notes/Fence.antt =====
-- `_release_fence` and `_release_fence_closes` of scripts/release_control.py.
use inverter_gateway.Prelude.{
  ℕ, suc, Bool, false, not, Option, none, some, [], ◌∷◌, ◌&&◌, ◌||◌, if◌then◌else◌, Text, ◌==◌, ltb,
  leb, all,
}

-- `len(s) - len(s.lstrip(c))` and `s.lstrip(c)`, of one character
unfoldable pub count_front : ℕ → Text → ℕ
count_front c [] = 0
count_front c (d ∷ s) = let rest = count_front c s in if d == c then suc rest else 0

unfoldable pub skip_front : ℕ → Text → Text
skip_front c [] = []
skip_front c (d ∷ s) = let rest = skip_front c s in if d == c then rest else d ∷ s

pub record Fence : Type 0 where
  pub marker : ℕ
  pub size : ℕ
  pub info : Text

abbrev pub tick : ℕ
tick = 96

abbrev pub fence_of : Text → Option Fence
fence_of [] = none
fence_of (marker ∷ s) =
    if not (marker == tick || marker == b'~')
    then none
    else if ltb (count_front marker (marker ∷ s)) 3
    then none
    else some (record {
      marker = marker;
      size = count_front marker (marker ∷ s);
      info = skip_front marker (marker ∷ s);
    })

-- `_release_fence`: at most three leading spaces
unfoldable pub release_fence : Text → Option Fence
release_fence line = if ltb 3 (count_front 32 line) then none else fence_of (skip_front 32 line)

abbrev pub is_blank : ℕ → Bool
is_blank c = c == 32 || c == 9 || c == 13 || c == 10

-- `_release_fence_closes`
unfoldable pub release_fence_closes : Option Fence → Fence → Bool
release_fence_closes none fence = false
release_fence_closes (some candidate) fence =
    candidate.marker == fence.marker && leb fence.size candidate.size && all is_blank candidate.info
