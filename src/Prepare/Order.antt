-- ===== src/Prepare/Order.antt =====
-- The order of base versions in scripts/prepare_version.py.
use inverter_gateway.Prelude.{ℕ, ◌+◌, true, false, some, ◌≡◌, arith}
use inverter_gateway.Prepare.Versions.{Version, precedes, later}
use inverter_gateway.Prepare.Search.{at_patch}

pub later_left : (v w : Version) → precedes (later v (some w)) v ≡ false
unfolding precedes
later_left v w = ground arith

pub later_right : (u v w : Version) → precedes w u ≡ false → precedes (later v (some w)) u ≡ false
unfolding precedes
later_right u v w h = ground arith

pub precedes_self : (v : Version) → precedes v v ≡ false
unfolding precedes
precedes_self v = ground arith

-- Not before, then before, is before.
pub precedes_after :
    (u m e : Version) → precedes m u ≡ false → precedes m e ≡ true → precedes u e ≡ true
unfolding precedes
precedes_after u m e h k = ground arith

-- A patch above the latest is above all that the latest is.
pub precedes_patch :
    (u m : Version) → precedes m u ≡ false → precedes u (record m { patch = m.patch + 1 }) ≡ true
unfolding precedes
precedes_patch u m h = ground arith

pub patch_after :
    (e m : Version) → precedes m e ≡ false → precedes (record m { patch = m.patch + 1 }) e ≡ false
unfolding precedes
patch_after e m h = ground arith

-- Raising the patch keeps a version above the others.
pub raise_above :
    (u v : Version) (n : ℕ) → precedes u v ≡ true → precedes u (at_patch v (v.patch + n)) ≡ true
unfolding precedes
raise_above u v n h = ground arith

pub raise_after :
    (e v : Version) (n : ℕ) → precedes v e ≡ false → precedes (at_patch v (v.patch + n)) e ≡ false
unfolding precedes
raise_after e v n h = ground arith
