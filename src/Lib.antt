-- ===== src/Lib.antt =====
-- inverter-gateway: the release programs under scripts/ (Python), as far as they decide something.
--
-- The gateway is a Rust service; its releases are planned, reserved, validated and published by the
-- Python programs under scripts/, which the workflows and the operator run. A release identity is
-- frozen into a plan (scripts/version_plan.py). Each Actions run reserves one plan in a ledger that
-- a branch of the repository keeps (scripts/release_state.py), by compare-and-swap writes through
-- the GitHub API, and consumes the plan's build number before it publishes. Sequences and absence
-- are looked up in the tags and releases of the repository (scripts/release_control.py), which also
-- decides which run may publish, validates the candidate manifest and its evidence, and publishes a
-- draft once its assets were read back. What GitHub answers to a read is an argument of the function
-- that reads; the publication, whose writes matter in their order, runs against a server that may
-- answer by all calls before (Publish.Run).
--
-- Parts:
--   Prelude          shared names; Prelude.Chars: texts as code points; Prelude.Decimal: str and
--                    int on numbers; Prelude.Result: require(condition, message) as a result.
--   Json             the values of json.loads, dict.get and key sets; Json.Equality: Python's ==.
--   Plan             scripts/version_plan.py. Patterns: the regular expressions. Identity:
--                    _identity. Declaration, Declared, Receipts, Policy: validate_policy and what
--                    it calls. Projection: projections, projected_value. Create: create_plan,
--                    validate_plan.
--   Ledger           scripts/release_state.py. Types: the ledger, the repository's interface. Read:
--                    read_state and the JSON of write_state. Sequence: ensure_absent and
--                    next_sequence of scripts/release_control.py; Candidate: its
--                    candidate_tag. Reserve: reserve_plan. Publish:
--                    the verifications and begin_publication. Concurrent: runs that interleave.
--   Scope            scripts/change_scope.py. Paths: the path tests. Diff: classify_record and
--                    classify_diff on the bytes of git diff --raw -z. Classify: event_revisions and
--                    classify; the answers of git are the record Git, str.lower and the decoding of
--                    UTF-8 are parameters. Documents, Safety: when heavy CI is skipped. The two policy
--                    lists are lists of texts, so the code's tests of their types are not modelled.
--   Validation       scripts/release_validation.py. Policy: channel_workflows, profile,
--                    expected_results. Gate: check_results. Jobs: check_run_jobs, check_event. The
--                    entries of a dictionary that the code builds are an association list.
--   Prepare          choose_version of scripts/prepare_version.py. Versions, Order: base versions and
--                    their order. Choose: _bumped_version and choose_version, whose loop runs on fuel
--                    for one round more than there are tags; Search proves that enough.
--                    PullRequests: own_pull_requests.
--   Transport        the reads of scripts/release_control.py through gh. Head, Pages: the HTTP heads
--                    and pages of gh --include. Diagnose: the patterns that tell a denial from a lost
--                    connection, as searches. Retry: response, _completed_read, _read_get. Create:
--                    create_release_once. The JSON
--                    decoder is the record JsonText. Bounded, Ends: what a read answers.
--   Runs             the run checks of scripts/release_control.py. Timing: _execution_timestamp,
--                    _require_fresh_job_timing. Gate: require_current_attempt_jobs and
--                    release_gate_ready; Ready: what they have seen. Provenance, Execution:
--                    validate_run_provenance, validate_run, check_execution. Wait:
--                    wait_for_executing_run, whose rounds are polls of GitHub and of the clock;
--                    Executing, Deadline: the run that it returns, and that it ends.
--   Manifest         the candidate manifest of scripts/release_control.py. Python: what is used of
--                    Python. Assets: _validate_manifest_assets. Fuzz: configuration, profile and
--                    check_run_jobs of scripts/release_fuzz.py, validate_fuzz_manifest. Policy:
--                    require_release_policy, validate_policy_snapshot,
--                    validate_validation_manifest. Accept: validate_manifest; Bound: what an
--                    accepted manifest is bound to, Kinds: candidate or final. Snapshot:
--                    release_snapshot. Source: source_policy_snapshot, validate_validation_run.
--   Publish          _publish_prepared of scripts/release_control.py. Preflight: the checks before the
--                    first write. Run: the calls and the server, which may answer by all that came
--                    before. Asset: the checks on the answers. Transaction: the program. Protocol:
--                    the state machine that it is compared with; Refines, Verified: the comparison.
--   Authority        check_ancestry, superseded_candidate, closed_push_cycle (Superseded),
--                    verify_evidence and require_reviewers (Evidence) of scripts/release_control.py;
--                    Proven, Matches: what they have seen.
--   Staging          stage_assets of scripts/release_control.py; Accepted: its assets against the
--                    manifest's checks. Promoted: the staging loop of promote.
--   Notes            the Markdown reader of scripts/release_control.py. Fence: _release_fence.
--                    Comment: _release_comment_line, whose loop over positions runs on fuel for two
--                    rounds per character; Spans and Masks prove that enough. Lines: _release_lines
--                    and _release_headings. Offsets: what they keep of the text's offsets.
--   Examples         concrete values; each theorem that has hypotheses, applied.
--
-- State and errors: a function that raises is a function into Result, with the message of the
-- exception (the fixed part of an f-string). Where Python would raise a TypeError on a value of an
-- unexpected type, the model gives an error too. A dictionary is decoded while it is validated:
-- validate_policy, validate_plan and read_state return records with the validated fields, and
-- to_json and encode_ledger give the dictionaries back. Keys of the ledger's top level other than
-- its four are dropped. The order of keys in JSON text is not modelled.
--
-- Not under scripts/, so parameters: datetime.strptime (valid_time), SHA-256 of canonical JSON
-- (policy_sha256, with the hypothesis that a digest is 64 lowercase hexadecimal digits), str.lower
-- and UTF-8 decoding (Scope), the answers of git (the record Git of Scope), and the GitHub API
-- (Repository, with the laws IsContentsApi of its contents endpoint: a write is refused unless it
-- names the current blob, what was written is read, and a blob's SHA identifies its content).
-- Base64 and the JSON text format belong to the standard library: a file's content is its JSON
-- value.
--
-- Fuel: `show n` runs on fuel n + 1, and a number has fewer digits than that; the search of
-- choose_version, the positions of _release_comment_line and the pages of github_http_response run on
-- fuel that Prepare.Search, Notes.Masks and Transport.Ends prove enough; wait_for_executing_run has 151
-- rounds, which Runs.Wait.Deadline proves enough. Every other loop is a recursion on the list or the
-- text that it reads.
--
-- Not modelled: the Rust service under src/ and fuzz/, the vendored MQTT client under vendor/, the
-- subprocess transport of `gh` and `git`, file editing and archives, workflow files.
pub mod Authority
pub mod Examples
pub mod Json
pub mod Ledger
pub mod Manifest
pub mod Notes
pub mod Plan
pub mod Prelude
pub mod Prepare
pub mod Publish
pub mod Runs
pub mod Scope
pub mod Staging
pub mod Transport
pub mod Validation
