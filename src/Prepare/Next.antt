-- ===== src/Prepare/Next.antt =====
-- What `choose_version` of scripts/prepare_version.py answers.
use inverter_gateway.Prelude.{
  not-true, ℕ, String, suc, ◌+◌, Bool, true, false, not, some, List, [], ◌∷◌, ◌≡◌, sym, ap, subst,
  ◌∙◌, ◌||◌, if◌then◌else◌, Text, ◌=t◌, length, is_empty, Bool-cases, inl, inr, arith, All, if_true,
  if_false,
}
use inverter_gateway.Prelude.Result.{Result, ok, require, ◌>>◌, bind_ok, guard_ok, ok-injective}
use inverter_gateway.Plan.Declaration.{one_of}
use inverter_gateway.Prepare.Versions.{
  Version, base_of, tag_of, precedes, releases_of, later, latest,
}
use inverter_gateway.Prepare.Choose.{
  next_patch, after_latest, bumped_version, free_patch, requested_version, found_version,
  choose_version,
}
use inverter_gateway.Prepare.Search.{at_patch, free_patch-found}
use inverter_gateway.Prepare.Order.{
  later_left, later_right, precedes_self, precedes_after, precedes_patch, patch_after, raise_above,
  raise_after,
}

-- Every version of the list comes before.
abbrev pub AllBefore : Version → List Version → Type 0
AllBefore v = All (λ u. precedes u v ≡ true)

abbrev NoneAfter : Version → List Version → Type 0
NoneAfter v = All (λ u. precedes v u ≡ false)

later-NoneAfter :
    (v w : Version) (us : List Version) → NoneAfter w us → NoneAfter (later v (some w)) us
later-NoneAfter v w [] h = tt
later-NoneAfter v w (u ∷ us) (h, hs) = (later_right u v w h, later-NoneAfter v w us hs)

latest-NoneAfter : (v : Version) (vs : List Version) → NoneAfter (later v (latest vs)) (v ∷ vs)
unfolding latest
latest-NoneAfter v [] = (precedes_self v, tt)
latest-NoneAfter v (u ∷ us) =
    let w = later u (latest us) in
    (later_left v w, later-NoneAfter v w (u ∷ us) (latest-NoneAfter u us))

after-AllBefore :
    (v m : Version) (us : List Version) → precedes m v ≡ true → NoneAfter m us → AllBefore v us
after-AllBefore v m [] h hs = tt
after-AllBefore v m (u ∷ us) h (first, rest) =
    (precedes_after u m v first h, after-AllBefore v m us h rest)

patch-AllBefore :
    (m : Version) (us : List Version)
    → NoneAfter m us
    → AllBefore (record m { patch = m.patch + 1 }) us
patch-AllBefore m [] hs = tt
patch-AllBefore m (u ∷ us) (first, rest) = (precedes_patch u m first, patch-AllBefore m us rest)

raise-AllBefore :
    (v : Version) (n : ℕ) (us : List Version)
    → AllBefore v us
    → AllBefore (at_patch v (v.patch + n)) us
raise-AllBefore v n [] hs = tt
raise-AllBefore v n (u ∷ us) (first, rest) = (raise_above u v n first, raise-AllBefore v n us rest)

-- The next patch is not below the prepared base, and above every release.
after_latest-above :
    (current : Version) (vs : List Version)
    → (precedes (after_latest current (latest vs)) current ≡ false)
      × AllBefore (after_latest current (latest vs)) vs
unfolding latest
after_latest-above current [] = (precedes_self current, tt)
after_latest-above current (v ∷ vs) =
    let m = later v (latest vs) in
    let bound : NoneAfter m (v ∷ vs) = latest-NoneAfter v vs in
    elim (Bool-cases (precedes m current)) [
      | inl prepared ↦
          let same =
            if_true (precedes m current) current (record m { patch = m.patch + 1 }) prepared in
          (
            subst (λ r. precedes r current ≡ false) (sym same) (precedes_self current),
            subst (λ r. AllBefore r (v ∷ vs)) (sym same)
                (after-AllBefore current m (v ∷ vs) prepared bound),
          )
      | inr behind ↦
          let same =
            if_false (precedes m current) current (record m { patch = m.patch + 1 }) behind in
          (
            subst (λ r. precedes r current ≡ false) (sym same) (patch_after current m behind),
            subst (λ r. AllBefore r (v ∷ vs)) (sym same) (patch-AllBefore m (v ∷ vs) bound),
          )
    ]

-- A version for the next cycle: not below the current base, its tag free.
pub record IsFreeVersion (current : Version) (occupied : List Text) (v : Version) : Type 0 where
  pub upward : precedes v current ≡ false
  pub free : one_of occupied (tag_of v) ≡ false

accepted {ℓ} :
    {A : Type ℓ} (test : Bool) (message : String) (rest : Result A)
    → test ≡ false
    → (require (not test) message >> rest) ≡ rest
accepted test message rest h = ap (λ b. require (not b) message >> rest) h

-- Asked for the next patch, `choose_version` always answers, with a version that is not below the current
-- base, that is above every stable release among the tags, and whose tag is free.
pub choose_version-next_patch :
    (current : Version) (tags occupied : List Text)
    → (v : Version) × (choose_version current tags [] next_patch occupied ≡ ok v)
      × IsFreeVersion current occupied v
      × AllBefore v (releases_of tags)
unfolding choose_version bumped_version ◌=t◌
choose_version-next_patch current tags occupied =
    let base = after_latest current (latest (releases_of tags)) in
    let (upward, above) = after_latest-above current (releases_of tags) in
    let (n, found, free) = free_patch-found (suc (length occupied)) occupied base (omega arith) in
    (
      at_patch base (base.patch + n),
      accepted _ _ _ upward ∙ ap found_version found,
      record { upward = raise_after current base n upward; free = free },
      raise-AllBefore base n (releases_of tags) above,
    )

found-free :
    (current : Version) (occupied : List Text) (s v : Version)
    → precedes s current ≡ false
    → found_version (free_patch (suc (length occupied)) occupied s) ≡ ok v
    → IsFreeVersion current occupied v
found-free current occupied s v h found =
    let (n, same, free) = free_patch-found (suc (length occupied)) occupied s (omega arith) in
    let equal : at_patch s (s.patch + n) ≡ v =
      ok-injective _ _ (sym (ap found_version same) ∙ found) in
    subst (IsFreeVersion current occupied) equal
      (record { upward = raise_after current s n h; free = free })

-- Whatever is asked, a version that `choose_version` answers is not below the current base, and its tag is free.
pub choose_version-IsFreeVersion :
    (current : Version) (tags : List Text) (requested bump : Text) (occupied : List Text)
    (v : Version)
    → choose_version current tags requested bump occupied ≡ ok v
    → IsFreeVersion current occupied v
unfolding choose_version
choose_version-IsFreeVersion current tags requested bump occupied v h =
    bind_ok
      (if is_empty requested
        then ok (bumped_version current tags bump)
        else requested_version (base_of requested))
      _ h
      λ s hs h1. guard_ok (not (precedes s current)) _ _ h1 λ upward h2.
        elim (Bool-cases (not (is_empty requested) || not (bump =t next_patch))) [
          | inl explicit ↦
              guard_ok (not (one_of occupied (tag_of s))) _ _ (sym (if_true _ _ _ explicit) ∙ h2)
                λ free same.
                  subst (IsFreeVersion current occupied) (ok-injective _ _ same)
                    (record { upward = not-true _ upward; free = not-true _ free })
          | inr implicit ↦
              found-free current occupied s v (not-true _ upward)
                (sym (if_false _ _ _ implicit) ∙ h2)
        ]
