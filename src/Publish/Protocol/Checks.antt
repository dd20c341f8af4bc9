-- ===== src/Publish/Protocol/Checks.antt =====
-- What the calls of `_publish_prepared` of scripts/release_control.py have checked so far, and that more calls keep it.
use inverter_gateway.Prelude.{ℕ, true, List, [], ◌∷◌, ◌++◌, ◌≡◌, refl, ap, All}
use inverter_gateway.Prelude.Result.{ok}
use inverter_gateway.Json.{Json, Fields}
use inverter_gateway.Publish.Run.{
  Call, create_release, list_assets, download_asset, read_ref, make_public, Server,
}
use inverter_gateway.Publish.Asset.{draft_id, is_inventory, payload_of}
use inverter_gateway.Publish.Transaction.{Release}
use inverter_gateway.Publish.Protocol.{IsVerified, IsTagged}

-- These calls, the newest first, are the first ones of the others.
abbrev pub IsPart : List Call → List Call → Type 0
IsPart k h = (later : List Call) × (h ≡ later ++ k)

pub whole : (h : List Call) → IsPart h h
whole h = ([], refl)

pub one_more : {k h : List Call} (c : Call) → IsPart k h → IsPart k (c ∷ h)
one_more c (later, e) = (c ∷ later, ap (λ x. c ∷ x) e)

module _ (server : Server) (r : Release) where
  -- Among the calls a draft was made, and its answer has this ID.
  pub record IsDraft (h : List Call) (id : ℕ) : Type 0 where
    pub before : List Call
    pub asked : IsPart (create_release (payload_of r.tag r.sha r.prerelease r.body) ∷ before) h
    pub answer : Json
    pub answered :
        server.api (create_release (payload_of r.tag r.sha r.prerelease r.body) ∷ before)
        ≡ ok answer
    pub identified : draft_id r.tag answer ≡ ok id

  -- Among the calls, of which `start` is the listing and those before it, the draft's assets were
  -- listed, and they are those of the staged files.
  pub record IsListing (start h : List Call) (id : ℕ) (listed : List Fields) : Type 0 where
    pub before : List Call
    pub is : start ≡ list_assets id ∷ before
    pub asked : IsPart start h
    pub answered : server.pages start ≡ ok listed
    pub same : is_inventory r.files listed ≡ true

  -- Among the calls, after those of `start`, the item was downloaded with the bytes of its file.
  pub record IsReadBack (start h : List Call) (item : Fields) : Type 0 where
    pub before : List Call
    pub after : IsPart start before
    pub verified : IsVerified server r before item
    pub asked : IsPart (download_asset verified.1 ∷ before) h

  abbrev pub AllReadBack : List Call → List Call → List Fields → Type 0
  AllReadBack start h = All (IsReadBack start h)

  -- The calls before the tag is read for the last time.
  pub record IsChecked (h : List Call) (id : ℕ) (listed : List Fields) : Type 0 where
    pub start : List Call
    pub drafted : IsDraft h id
    pub listing : IsListing start h id listed
    pub read_back : AllReadBack start h listed

  -- Among the calls, the release was made public right after the tag was read as its commit.
  pub record IsComplete (h : List Call) : Type 0 where
    pub id : ℕ
    pub listed : List Fields
    pub before : List Call
    pub asked : IsPart (make_public id r.prerelease ∷ read_ref r.tag ∷ before) h
    pub tagged : IsTagged server r before
    pub checked : IsChecked before id listed

  pub more-IsDraft : {h : List Call} {id : ℕ} (c : Call) → IsDraft h id → IsDraft (c ∷ h) id
  more-IsDraft c d = record {
    before = d.before;
    asked = one_more c d.asked;
    answer = d.answer;
    answered = d.answered;
    identified = d.identified;
  }

  pub more-IsListing :
      {start h : List Call} {id : ℕ} {listed : List Fields} (c : Call)
      → IsListing start h id listed
      → IsListing start (c ∷ h) id listed
  more-IsListing c l = record {
    before = l.before;
    is = l.is;
    asked = one_more c l.asked;
    answered = l.answered;
    same = l.same;
  }

  pub more-AllReadBack :
      (start h : List Call) (c : Call) (items : List Fields)
      → AllReadBack start h items
      → AllReadBack start (c ∷ h) items
  more-AllReadBack start h c [] all = tt
  more-AllReadBack start h c (item ∷ items) (v, all) = (
    record {
      before = v.before;
      after = v.after;
      verified = v.verified;
      asked = one_more c v.asked;
    },
    more-AllReadBack start h c items all,
  )

  pub AllReadBack-append :
      (start h : List Call) (done : List Fields) (item : Fields)
      → AllReadBack start h done
      → IsReadBack start h item
      → AllReadBack start h (done ++ item ∷ [])
  AllReadBack-append start h [] item all v = (v, tt)
  AllReadBack-append start h (d ∷ done) item (w, all) v =
      (w, AllReadBack-append start h done item all v)

  pub more-IsComplete : {h : List Call} (c : Call) → IsComplete h → IsComplete (c ∷ h)
  more-IsComplete c k = record {
    id = k.id;
    listed = k.listed;
    before = k.before;
    asked = one_more c k.asked;
    tagged = k.tagged;
    checked = k.checked;
  }
