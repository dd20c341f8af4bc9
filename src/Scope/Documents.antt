-- ===== src/Scope/Documents.antt =====
-- When `classify_diff` skips heavy CI.
use inverter_gateway.Prelude.{
  ℕ, ◌≤◌, Bool, true, false, not, Option, none, some, List, [], ◌∷◌, ◌≡◌, ◌≢◌, refl, arith,
  if◌then◌else◌, Text, length, is_empty, ltb,
}
use inverter_gateway.Prelude.Result.{Result, ok, err, ok-injective}
use inverter_gateway.Plan.Patterns.{split_on, is_sha}
use inverter_gateway.Plan.Declaration.{one_of}
use inverter_gateway.Scope.Paths.{documentation_path}
use inverter_gateway.Scope.Diff.{
  Decision, words_of, expected_modes, is_ascii, starts_colon, classify_path, decoded,
  classify_fields, classify_words, classify_record, classify_records, after_record, is_even,
  max_diff_bytes, before_nul, classify_body, classify_diff,
}

-- A test that does not stop the code with another result has held.
passed {ℓ κ} :
    {A : Type ℓ} {P : Type κ} (test : Bool) (stop rest : Result A) {a : A}
    → (if not test then stop else rest) ≡ ok a
    → stop ≢ ok a
    → (test ≡ true → rest ≡ ok a → P)
    → P
passed true stop rest h differs k = k refl h
passed false stop rest h differs k = absurd (differs h)

avoided {ℓ κ} :
    {A : Type ℓ} {P : Type κ} (test : Bool) (stop rest : Result A) {a : A}
    → (if test then stop else rest) ≡ ok a
    → stop ≢ ok a
    → (test ≡ false → rest ≡ ok a → P)
    → P
avoided true stop rest h differs k = absurd (differs h)
avoided false stop rest h differs k = k refl h

held {ℓ κ} :
    {A : Type ℓ} {P : Type κ} (test : Bool) (rest stop : Result A) {a : A}
    → (if test then rest else stop) ≡ ok a
    → stop ≢ ok a
    → (test ≡ true → rest ≡ ok a → P)
    → P
held true rest stop h differs k = k refl h
held false rest stop h differs k = absurd (differs h)

not_ltb→le : (a b : ℕ) → ltb a b ≡ false → b ≤ a
not_ltb→le a b h = ground arith

-- A record that stops the loop asks for the full pipeline.
abbrev runs : Result (Option Decision) → Bool
runs (err e) = true
runs (ok none) = true
runs (ok (some d)) = d.run

after_record-skip {ℓ} :
    {P : Type ℓ} (r : Result (Option Decision)) (rest : Result Decision) (d : Decision)
    → runs r ≡ true
    → after_record r rest ≡ ok d
    → d.run ≡ false
    → (r ≡ ok none → rest ≡ ok d → P)
    → P
after_record-skip (err e) rest d full_run h skips k = absurd (cc)
after_record-skip (ok none) rest d full_run h skips k = k refl h
after_record-skip (ok (some d')) rest d full_run h skips k = absurd (cc)

runs_if :
    (test : Bool) (r s : Result (Option Decision))
    → runs r ≡ true
    → runs s ≡ true
    → runs (if test then r else s) ≡ true
runs_if true r s hr hs = hr
runs_if false r s hr hs = hs

module _ (lower : Text → Text) (utf8 : Text → Option Text) (explicit required : List Text) where
  -- A record of an ordinary documentation file: a regular file added, deleted or modified between
  -- two object names, at a documentation path that is not required.
  pub record IsDocumentation (header raw_path : Text) : Type 0 where
    pub before : Text
    pub after : Text
    pub old_hash : Text
    pub new_hash : Text
    pub status : Text
    pub path : Text
    pub fields : words_of header ≡ before ∷ after ∷ old_hash ∷ new_hash ∷ status ∷ []
    pub objects : (is_sha old_hash ≡ true) × (is_sha new_hash ≡ true)
    pub modes : expected_modes status before after ≡ true
    pub decodes : utf8 raw_path ≡ some path
    pub optional : one_of required path ≡ false
    pub documents : documentation_path lower path explicit ≡ true

  classify_path-none :
      (path : Text)
      → classify_path lower utf8 path explicit required ≡ none
      → (one_of required path ≡ false) × (documentation_path lower path explicit ≡ true)
  unfolding classify_path
  classify_path-none path h = ground arith

  decoded-none :
      (path : Option Text)
      → decoded lower utf8 path explicit required ≡ ok none
      → (p : Text) × (path ≡ some p)
        × (one_of required p ≡ false)
        × (documentation_path lower p explicit ≡ true)
  decoded-none none h = absurd (cc)
  decoded-none (some p) h =
      let facts = classify_path-none p (ok-injective _ _ h) in (p, refl, facts.0, facts.1)

  classify_fields-none :
      (header before after old_hash new_hash status raw_path : Text)
      → words_of header ≡ before ∷ after ∷ old_hash ∷ new_hash ∷ status ∷ []
      → classify_fields lower utf8 before after old_hash new_hash status raw_path explicit required
        ≡ ok none
      → IsDocumentation header raw_path
  unfolding classify_fields
  classify_fields-none header before after old_hash new_hash status raw_path fields h =
      passed (is_ascii old_hash) _ _ h (λ e. cc)
        λ a1 h1.
          passed (is_sha old_hash) _ _ h1 (λ e. cc)
            λ old h2.
              passed (is_ascii new_hash) _ _ h2 (λ e. cc)
                λ a2 h3.
                  passed (is_sha new_hash) _ _ h3 (λ e. cc)
                    λ new h4.
                      passed (expected_modes status before after) _ _ h4 (λ e. cc)
                        λ modes h5.
                          let (path, decodes, optional, documents) =
                            decoded-none (utf8 raw_path) h5 in
                          record {
                            before = before;
                            after = after;
                            old_hash = old_hash;
                            new_hash = new_hash;
                            status = status;
                            path = path;
                            fields = fields;
                            objects = (old, new);
                            modes = modes;
                            decodes = decodes;
                            optional = optional;
                            documents = documents;
                          }

  classify_words-none :
      (header raw_path : Text) (words : List Text)
      → words_of header ≡ words
      → classify_words lower utf8 words raw_path explicit required ≡ ok none
      → IsDocumentation header raw_path
  classify_words-none header raw_path [] fields h = absurd (cc)
  classify_words-none header raw_path (_ ∷ []) fields h = absurd (cc)
  classify_words-none header raw_path (_ ∷ _ ∷ []) fields h = absurd (cc)
  classify_words-none header raw_path (_ ∷ _ ∷ _ ∷ []) fields h = absurd (cc)
  classify_words-none header raw_path (_ ∷ _ ∷ _ ∷ _ ∷ []) fields h = absurd (cc)
  classify_words-none header raw_path (_ ∷ _ ∷ _ ∷ _ ∷ _ ∷ _ ∷ _) fields h = absurd (cc)
  classify_words-none header raw_path (b ∷ a ∷ o ∷ n ∷ s ∷ []) fields h =
      held (starts_colon b) _ _ h (λ e. cc)
        λ colon rest. classify_fields-none header b a o n s raw_path fields rest

  classify_record-none :
      (header raw_path : Text)
      → classify_record lower utf8 header raw_path explicit required ≡ ok none
      → IsDocumentation header raw_path
  unfolding classify_record
  classify_record-none header raw_path h =
      classify_words-none header raw_path (words_of header) refl h

  -- Records two at a time, each of an ordinary documentation file.
  pub data AreDocumentation : List Text → Type 0 where
    all_read : AreDocumentation []
    one_more_read :
        {header raw_path : Text} {records : List Text}
        → IsDocumentation header raw_path
        → AreDocumentation records
        → AreDocumentation (header ∷ raw_path ∷ records)

  decoded-runs : (path : Option Text) → runs (decoded lower utf8 path explicit required) ≡ true
  unfolding classify_path
  decoded-runs none = refl
  decoded-runs (some p) = ground arith

  classify_fields-runs :
      (before after old_hash new_hash status raw_path : Text)
      → runs (
          classify_fields lower utf8 before after old_hash new_hash status raw_path explicit
            required)
        ≡ true
  unfolding classify_fields
  classify_fields-runs before after old_hash new_hash status raw_path =
      runs_if (not (is_ascii old_hash)) _ _ refl (
        runs_if (not (is_sha old_hash)) _ _ refl (
          runs_if (not (is_ascii new_hash)) _ _ refl (
            runs_if (not (is_sha new_hash)) _ _ refl (
              runs_if (not (expected_modes status before after)) _ _ refl
                (decoded-runs (utf8 raw_path))))))

  classify_words-runs :
      (words : List Text) (raw_path : Text)
      → runs (classify_words lower utf8 words raw_path explicit required) ≡ true
  classify_words-runs [] raw_path = refl
  classify_words-runs (_ ∷ []) raw_path = refl
  classify_words-runs (_ ∷ _ ∷ []) raw_path = refl
  classify_words-runs (_ ∷ _ ∷ _ ∷ []) raw_path = refl
  classify_words-runs (_ ∷ _ ∷ _ ∷ _ ∷ []) raw_path = refl
  classify_words-runs (_ ∷ _ ∷ _ ∷ _ ∷ _ ∷ _ ∷ _) raw_path = refl
  classify_words-runs (b ∷ a ∷ o ∷ n ∷ s ∷ []) raw_path =
      runs_if (starts_colon b) _ _ (classify_fields-runs b a o n s raw_path) refl

  classify_record-runs :
      (header raw_path : Text)
      → runs (classify_record lower utf8 header raw_path explicit required) ≡ true
  unfolding classify_record
  classify_record-runs header raw_path = classify_words-runs (words_of header) raw_path

  -- Skipping is for records that are all of ordinary documentation files.
  classify_records-skip :
      (records : List Text) (d : Decision)
      → classify_records lower utf8 records explicit required ≡ ok d
      → d.run ≡ false
      → AreDocumentation records
  unfolding classify_records
  classify_records-skip [] d h skips = all_read
  classify_records-skip (header ∷ []) d h skips = absurd (cc)
  classify_records-skip (header ∷ raw_path ∷ records) d h skips =
      after_record-skip _ _ d (classify_record-runs header raw_path) h skips λ same rest.
        one_more_read (classify_record-none header raw_path same)
          (classify_records-skip records d rest skips)

  -- A diff within the bound whose records, NUL at the end of each part, are of documentation files
  pub record IsDocumentationDiff (raw : Text) : Type 0 where
    pub body : Text
    pub bounded : length raw ≤ max_diff_bytes
    pub ends : before_nul raw ≡ some body
    pub documents : AreDocumentation (split_on 0 body)

  classify_body-skip :
      (body : Option Text) (d : Decision)
      → classify_body lower utf8 body explicit required ≡ ok d
      → d.run ≡ false
      → (b : Text) × (body ≡ some b) × AreDocumentation (split_on 0 b)
  classify_body-skip none d h skips = absurd (cc)
  classify_body-skip (some b) d h skips =
      held (is_even (split_on 0 b)) _ _ h (λ e. cc)
        λ even rest. (b, refl, classify_records-skip (split_on 0 b) d rest skips)

  pub classify_diff-skip :
      (raw : Text) (d : Decision)
      → classify_diff lower utf8 raw explicit required ≡ ok d
      → d.run ≡ false
      → IsDocumentationDiff raw
  unfolding classify_diff
  classify_diff-skip raw d h skips =
      avoided (is_empty raw) _ _ h (λ e. cc)
        λ some_bytes h1.
          avoided (ltb max_diff_bytes (length raw)) _ _ h1 (λ e. cc)
            λ small h2.
              let (body, ends, documents) = classify_body-skip (before_nul raw) d h2 skips in
              record {
                body = body;
                bounded = not_ltb→le max_diff_bytes (length raw) small;
                ends = ends;
                documents = documents;
              }
