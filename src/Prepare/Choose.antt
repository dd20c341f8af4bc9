-- ===== src/Prepare/Choose.antt =====
-- `_bumped_version` and `choose_version` of scripts/prepare_version.py.
use inverter_gateway.Prelude.{
  ℕ, zero, suc, ◌+◌, not, Option, none, some, List, ◌||◌, if◌then◌else◌, Text, codes, ◌=t◌, length,
  is_empty,
}
use inverter_gateway.Prelude.Result.{Result, ok, err, require, ◌>>=◌, ◌>>◌}
use inverter_gateway.Plan.Declaration.{one_of}
use inverter_gateway.Prepare.Versions.{Version, base_of, tag_of, precedes, releases_of, latest}

abbrev pub next_patch : Text
next_patch = codes "next-patch"

-- the branch of "next-patch"
abbrev pub after_latest : Version → Option Version → Version
after_latest existing none = existing
after_latest existing (some v) =
    if precedes v existing then existing else record v { patch = v.patch + 1 }

-- `_bumped_version`
unfoldable pub bumped_version : Version → List Text → Text → Version
bumped_version existing tags bump =
    if bump =t next_patch
    then after_latest existing (latest (releases_of tags))
    else if bump =t codes "major"
    then record { major = existing.major + 1; minor = 0; patch = 0 }
    else if bump =t codes "minor"
    then record { major = existing.major; minor = existing.minor + 1; patch = 0 }
    else record existing { patch = existing.patch + 1 }

-- `while "v" + selected in occupied: patch += 1`, on fuel
unfoldable pub free_patch : ℕ → List Text → Version → Option Version
free_patch zero occupied v = none
free_patch (suc fuel) occupied v =
    let rest = free_patch fuel occupied (record v { patch = v.patch + 1 }) in
    if one_of occupied (tag_of v) then rest else some v

abbrev pub requested_version : Option Version → Result Version
requested_version none = err "Requested version must be X.Y.Z"
requested_version (some v) = ok v

abbrev pub found_version : Option Version → Result Version
found_version none = err "out of fuel"
found_version (some v) = ok v

-- `choose_version`; fuel for one round more than there are occupied names
unfoldable pub choose_version : Version → List Text → Text → Text → List Text → Result Version
choose_version current tags requested bump occupied = do
  selected ←
      if is_empty requested
      then ok (bumped_version current tags bump)
      else requested_version (base_of requested)
  require (not (precedes selected current)) "Preparation must not downgrade the active release base"
  (if not (is_empty requested) || not (bump =t next_patch)
      then (do
        require (not (one_of occupied (tag_of selected)))
            "This base version already has a stable tag"
        ok selected)
      else found_version (free_patch (suc (length occupied)) occupied selected))
