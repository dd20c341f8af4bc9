-- ===== src/Publish/Protocol/Verified.antt =====
-- What has been verified when `_publish_prepared` of scripts/release_control.py asks GitHub to make a release public.
use inverter_gateway.Prelude.{
  ℕ, Bool, true, false, some, List, [], ◌∷◌, ◌++◌, ◌≡◌, refl, sym, ap, subst, ◌∙◌, Text, codes, any,
  some_injective, append_assoc, append-nil,
}
use inverter_gateway.Prelude.Result.{Result, ok, err, ok-injective}
use inverter_gateway.Json.{Fields, get}
use inverter_gateway.Publish.Run.{
  Call, list_assets, download_asset, read_ref, make_public, AssetIdentity, Server,
}
use inverter_gateway.Publish.Asset.{find_file, asset_id}
use inverter_gateway.Publish.Transaction.{Release, publish_prepared}
use inverter_gateway.Publish.Protocol.{
  Phase, filling, verifying, confirmed, released, Allowed, tag_first, then_draft, then_upload,
  then_list, then_download, then_read, then_release, IsVerified, IsTagged, Step, to_tagged,
  to_filling, to_next, to_verifying, to_item, to_confirmed, to_released, Reaches, begin, advance,
  give_up,
}
use inverter_gateway.Publish.Protocol.Refines.{
  Lands, halts, lands, Released, publish_prepared-Lands,
}
use inverter_gateway.Publish.Protocol.Checks.{
  IsPart, IsDraft, IsListing, IsReadBack, AllReadBack, IsChecked, IsComplete, whole, more-IsDraft,
  more-IsListing, more-AllReadBack, AllReadBack-append, more-IsComplete,
}

-- The request that makes a draft public.
abbrev pub is_public : Call → Bool
is_public (make_public id prerelease) = true
is_public _ = false

module _ (server : Server) (r : Release) where
  -- What is known in each phase.
  abbrev Known : List Call → Phase → Type 0
  Known h (filling id files) = IsDraft server r h id
  Known h (verifying id listed items) =
      (start : List Call) × (done : List Fields) × IsDraft server r h id
      × IsListing server r start h id listed
      × (listed ≡ done ++ items)
      × AllReadBack server r start h done
  Known h (confirmed id listed) =
      (before : List Call) × (h ≡ read_ref r.tag ∷ before)
      × IsTagged server r before
      × IsChecked server r before id listed
  Known h _ = Unit

  -- The asset that the phase downloads is the one that was verified.
  downloaded-IsReadBack :
      {start h : List Call} (item : Fields) (asset : ℕ) (identity : AssetIdentity)
      → find_file r.files (get item (codes "name")) ≡ some identity
      → asset_id identity item ≡ ok asset
      → IsVerified server r h item
      → IsPart start h
      → IsReadBack server r start (download_asset asset ∷ h) item
  downloaded-IsReadBack {h = h} item asset identity named number v after =
      let (found, other, remote, known, numbered, read, same) = v in
      let same_identity : found ≡ identity = some_injective (sym known ∙ named) in
      let same_asset : other ≡ asset =
        ok-injective _ _ (sym numbered ∙ ap (λ i. asset_id i item) same_identity ∙ number) in
      record {
        before = h;
        after = after;
        verified = v;
        asked =
            subst (λ a. IsPart (download_asset other ∷ h) (download_asset a ∷ h)) same_asset
              (whole (download_asset other ∷ h));
      }

  next-Known :
      {h : List Call} {p q : Phase} {c : Call}
      → Allowed server r p c
      → Step server r h p q
      → Known h p
      → Known (c ∷ h) q
  next-Known tag_first (to_tagged h answer made) k = tt
  next-Known then_draft (to_filling h id answer made number) k = record {
    before = h;
    asked = whole _;
    answer = answer;
    answered = made;
    identified = number;
  }
  next-Known (then_upload id file files) (to_next h _ _ _ response made checked) k =
      more-IsDraft server r _ k
  next-Known (then_list id) (to_verifying h _ listed answered same) k = (
    list_assets id ∷ h,
    [],
    more-IsDraft server r _ k,
    record { before = h; is = refl; asked = whole _; answered = answered; same = same },
    refl,
    tt,
  )
  next-Known (then_download id asset listed items item identity named number) (to_item h _ _ _ _ v)
        (start, done, drafted, listing, split, all) =
      (
        start,
        done ++ item ∷ [],
        more-IsDraft server r _ drafted,
        more-IsListing server r _ listing,
        split ∙ sym (append_assoc done (item ∷ []) items),
        AllReadBack-append server r start (_ ∷ h) done item
            (more-AllReadBack server r start h _ done all)
            (downloaded-IsReadBack item asset identity named number v listing.asked),
      )
  next-Known (then_read id listed) (to_confirmed h _ _ tag)
        (start, done, drafted, listing, split, all) =
      (
        h,
        refl,
        tag,
        record {
          start = start;
          drafted = drafted;
          listing = listing;
          read_back = subst (AllReadBack server r start h) (sym (split ∙ append-nil done)) all;
        },
      )
  next-Known (then_release id listed) (to_released h _ _) k = tt

  Reaches-Known : {h : List Call} {p : Phase} → Reaches server r h p → Known h p
  Reaches-Known begin = tt
  Reaches-Known (advance c here may step) = next-Known may step (Reaches-Known here)
  Reaches-Known (give_up c here may) = tt

  -- The call that a phase allows is the release only where all is complete.
  Allowed-public :
      {p : Phase} {c : Call} (h : List Call)
      → Allowed server r p c
      → Known h p
      → any is_public (c ∷ h) ≡ true
      → (any is_public h ≡ true → IsComplete server r h)
      → IsComplete server r (c ∷ h)
  Allowed-public h tag_first k found before = more-IsComplete server r _ (before found)
  Allowed-public h then_draft k found before = more-IsComplete server r _ (before found)
  Allowed-public h (then_upload id file files) k found before =
      more-IsComplete server r _ (before found)
  Allowed-public h (then_list id) k found before = more-IsComplete server r _ (before found)
  Allowed-public h (then_download id asset listed items item identity named number) k found before =
      more-IsComplete server r _ (before found)
  Allowed-public h (then_read id listed) k found before = more-IsComplete server r _ (before found)
  Allowed-public h (then_release id listed) (before, is, tag, checked) found earlier = record {
    id = id;
    listed = listed;
    before = before;
    asked = ([], ap (λ x. make_public id r.prerelease ∷ x) is);
    tagged = tag;
    checked = checked;
  }

  public-IsComplete :
      {h : List Call} {p : Phase}
      → Reaches server r h p
      → any is_public h ≡ true
      → IsComplete server r h
  public-IsComplete begin found = absurd (cc)
  public-IsComplete (advance {h = h} c here may step) found =
      Allowed-public h may (Reaches-Known here) found (public-IsComplete here)
  public-IsComplete (give_up {h = h} c here may) found =
      Allowed-public h may (Reaches-Known here) found (public-IsComplete here)

  Lands-Reaches :
      (x : List Call × Result Fields)
      → Lands server r (Released server r) x
      → (p : Phase) × Reaches server r x.0 p
  Lands-Reaches (h, err message) (halts p here) = (p, here)
  Lands-Reaches (h, ok result) (lands (id, here)) = (released id, here)

  -- When _publish_prepared has asked GitHub to make a release public, whatever came of it,
  -- then among its calls it had made a draft and taken the draft's ID from that answer, listed
  -- the assets of that draft, which had the staged files' names and were as many, and after
  -- the listing downloaded every listed asset with the bytes of its file; the call just before
  -- the request read the tag, and it was the commit of the release.
  pub publish_prepared-IsComplete :
      (lower : Text → Text)
      → any is_public (publish_prepared server lower r []).0 ≡ true
      → IsComplete server r (publish_prepared server lower r []).0
  publish_prepared-IsComplete lower found =
      let (p, here) =
        Lands-Reaches (publish_prepared server lower r [])
          (publish_prepared-Lands server r lower) in
      public-IsComplete here found
