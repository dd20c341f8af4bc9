-- ===== src/Publish/Protocol/Refines.antt =====
-- `_publish_prepared` of scripts/release_control.py follows the protocol, whatever GitHub answers.
use inverter_gateway.Prelude.{
  ℕ, Option, some, none, List, [], ◌∷◌, ◌≡◌, refl, Text, codes, ap, String,
}
use inverter_gateway.Prelude.Result.{Result, ok, err, require, require_ok, ok-injective}
use inverter_gateway.Json.{Fields, get}
use inverter_gateway.Ledger.Sequence.{ensure_absent}
use inverter_gateway.Publish.Preflight.{check_workflow_publication}
use inverter_gateway.Publish.Run.{
  Call, create_ref, create_release, upload_asset, list_assets, download_asset, read_ref,
  make_public, AssetIdentity, Server, Run, after,
}
use inverter_gateway.Publish.Asset.{
  File, check_upload, draft_id, is_inventory, find_file, expected_file, asset_id, same_identity,
  check_ref, check_result, payload_of,
}
use inverter_gateway.Publish.Transaction.{
  Release, upload_all, verify_uploaded_asset, verify_all, fill_and_publish, publish_prepared,
}
use inverter_gateway.Publish.Protocol.{
  Phase, filling, verifying, released, stopped, Allowed, tag_first, then_draft, then_upload,
  then_list, then_download, then_read, then_release, to_tagged, to_filling, to_next, to_verifying,
  to_item, to_confirmed, to_released, Reaches, begin, advance, give_up,
}

module _ (server : Server) (r : Release) where
  -- A run that ended: its calls follow the protocol, and those of a value have the property.
  pub data Lands {A : Type 0} (Q : A → List Call → Type 0) : List Call × Result A → Type 0 where
    halts :
        {h : List Call} {message : String} (p : Phase)
        → Reaches server r h p
        → Lands Q (h, err message)
    lands : {h : List Call} {value : A} → Q value h → Lands Q (h, ok value)

  after_Lands :
      {A B : Type 0} {Q : A → List Call → Type 0} {R : B → List Call → Type 0}
      (x : List Call × Result A) (rest : A → Run B)
      → Lands Q x
      → ((a : A) (h : List Call) → Q a h → Lands R (rest a h))
      → Lands R (after x rest)
  after_Lands (h, err message) rest (halts p here) next = halts p here
  after_Lands (h, ok value) rest (lands q) next = next value h q

  local_Lands :
      {A : Type 0} {Q : A → List Call → Type 0} {h : List Call} {p : Phase} (x : Result A)
      → Reaches server r h p
      → ((a : A) → x ≡ ok a → Q a h)
      → Lands Q (h, x)
  local_Lands {p = p} (err message) here good = halts p here
  local_Lands (ok value) here good = lands (good value refl)

  -- A step without a call, and a call whose answer is checked, before the rest.
  local_then :
      {A B : Type 0} {R : B → List Call → Type 0} {h : List Call} {p : Phase} (x : Result A)
      (rest : A → Run B)
      → Reaches server r h p
      → ((a : A) → x ≡ ok a → Lands R (rest a h))
      → Lands R (after (h, x) rest)
  local_then {p = p} (err message) rest here next = halts p here
  local_then (ok value) rest here next = next value refl

  call_then :
      {A B : Type 0} {R : B → List Call → Type 0} {h : List Call} {p : Phase} (c : Call)
      (x : Result A) (rest : A → Run B)
      → Reaches server r h p
      → Allowed server r p c
      → ((a : A) → x ≡ ok a → Lands R (rest a (c ∷ h)))
      → Lands R (after (c ∷ h, x) rest)
  call_then c (err message) rest here may next = halts stopped (give_up c here may)
  call_then c (ok value) rest here may next = next value refl

  upload_all-Lands :
      (id : ℕ) (files : List File) (h : List Call)
      → Reaches server r h (filling id files)
      → Lands (λ _ k. Reaches server r k (filling id [])) (upload_all server id files h)
  unfolding upload_all
  upload_all-Lands id [] h here = lands here
  upload_all-Lands id (file ∷ files) h here =
      let may = then_upload id file files in
      call_then (upload_asset id file.0) (server.uploaded (upload_asset id file.0 ∷ h)) _ here may
        λ response answered.
          call_then (upload_asset id file.0) (check_upload file response) _ here may λ _ checked.
            upload_all-Lands id files (upload_asset id file.0 ∷ h)
              (advance _ here may (to_next h id file files response answered checked))

  expected_file-some :
      (files : List File) (item : Fields) (identity : AssetIdentity)
      → expected_file files item ≡ ok identity
      → find_file files (get item (codes "name")) ≡ some identity
  unfolding expected_file
  expected_file-some files item identity h = found (find_file files (get item (codes "name"))) h
    where
      found :
          (o : Option AssetIdentity)
          → elim o [ none ↦ err "KeyError" | some i ↦ ok i ] ≡ ok identity
          → o ≡ some identity
      found none h = absurd (cc)
      found (some i) h = ap some (ok-injective _ _ h)

  verify_all-Lands :
      (id : ℕ) (listed items : List Fields) (h : List Call)
      → Reaches server r h (verifying id listed items)
      → Lands
          (λ _ k. Reaches server r k (verifying id listed []))
          (verify_all server r.files items h)
  unfolding verify_all verify_uploaded_asset
  verify_all-Lands id listed [] h here = lands here
  verify_all-Lands id listed (item ∷ items) h here =
      local_then (expected_file r.files item) _ here λ identity expected.
        after_Lands {Q = λ _ k. Reaches server r k (verifying id listed items)}
          (verify_uploaded_asset server item identity h) _
          (local_then (asset_id identity item) _ here λ asset numbered.
            let found = expected_file-some r.files item identity expected in
            let may = then_download id asset listed items item identity found numbered in
            call_then (download_asset asset) (server.bytes (download_asset asset ∷ h)) _ here may
              λ remote answered.
                local_Lands (require (same_identity remote identity) _) (give_up _ here may)
                  λ _ same. advance _ here may (
                    to_item h id listed items item
                      (identity, asset, remote, found, numbered, answered, require_ok _ _ same)))
          (λ _ k later. verify_all-Lands id listed items k later)

  -- The calls of a value end in the release.
  abbrev pub Released : Fields → List Call → Type 0
  Released result h = (id : ℕ) × Reaches server r h (released id)

  fill_and_publish-Lands :
      (id : ℕ) (h : List Call)
      → Reaches server r h (filling id r.files)
      → Lands Released (fill_and_publish server r id h)
  unfolding fill_and_publish
  fill_and_publish-Lands id h here =
      after_Lands (upload_all server id r.files h) _ (upload_all-Lands id r.files h here)
        λ _ k full.
          call_then (list_assets id) (server.pages (list_assets id ∷ k)) _ full (then_list id)
            λ items answered.
              call_then (list_assets id) (require (is_inventory r.files items) _) _ full
                (then_list id)
                λ _ same.
                  after_Lands (verify_all server r.files items (list_assets id ∷ k)) _
                    (verify_all-Lands id items items (list_assets id ∷ k) (
                      advance _ full (then_list id)
                        (to_verifying k id items answered (require_ok _ _ same))))
                    λ _ m verified.
                      call_then (read_ref r.tag) (server.api (read_ref r.tag ∷ m)) _ verified
                        (then_read id items)
                        λ ref read.
                          call_then (read_ref r.tag) (check_ref r.tag r.sha ref) _ verified
                            (then_read id items)
                            λ _ tagged_now.
                              let ready =
                                advance _ verified (then_read id items)
                                  (to_confirmed m id items (ref, read, tagged_now)) in
                              call_then (make_public id r.prerelease)
                                (server.api (make_public id r.prerelease ∷ (read_ref r.tag ∷ m))) _
                                ready (then_release id items)
                                λ answer _.
                                  let out =
                                    advance _ ready (then_release id items)
                                      (to_released (read_ref r.tag ∷ m) id items) in
                                  local_Lands (check_result r.tag r.prerelease answer) out
                                    (λ _ _. (id, out))

  -- Whatever GitHub answers, the calls of _publish_prepared follow the protocol: after an exception they lead to one of its
  -- phases, and after a result to the release, so that each call was the one that the phase allows and each phase before it
  -- was passed with the answer that the protocol asks for.
  pub publish_prepared-Lands :
      (lower : Text → Text) → Lands Released (publish_prepared server lower r [])
  unfolding publish_prepared
  publish_prepared-Lands lower = local_then (ensure_absent r.view r.tag) _ begin λ _ _.
      local_then (check_workflow_publication lower r.repo r.reads r.sha) _ begin λ _ _.
        call_then (create_ref r.tag r.sha) (server.api (create_ref r.tag r.sha ∷ [])) _ begin
          tag_first
          λ made tag_made.
            let named = advance _ begin tag_first (to_tagged [] made tag_made) in
            call_then (create_release (payload_of r.tag r.sha r.prerelease r.body)) _ _ named
              then_draft
              λ answer drafted.
                call_then (create_release (payload_of r.tag r.sha r.prerelease r.body))
                  (draft_id r.tag answer) _ named then_draft
                  λ id number.
                    fill_and_publish-Lands id _
                      (advance _ named then_draft (to_filling _ id answer drafted number))
