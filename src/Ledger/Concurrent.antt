-- ===== src/Ledger/Concurrent.antt =====
-- Runs of `reserve_plan` and `begin_publication` in any interleaving: each reads the ledger at one
-- state of the repository and writes it at another, with anything in between.
pub mod Safety
pub mod RoundTrip
use inverter_gateway.Prelude.{ℕ, ◌<◌, Bool, Option, none, some, ◌≡◌, Text}
use inverter_gateway.Prelude.Result.{Result, ok, err, ◌>>=◌}
use inverter_gateway.Json.{Json}
use inverter_gateway.Plan.Projection.{Plan}
use inverter_gateway.Ledger.Types.{Ledger, empty, Content, Repository}
use inverter_gateway.Ledger.Read.{decode_ledger, parsed, read_state, encode_ledger}
use inverter_gateway.Ledger.Reserve.{Request, fresh, decide}
use inverter_gateway.Ledger.Publish.{publish_floor}

-- the blob identity that a write has to name
abbrev pub blob : Option Content → Option Text
blob none = none
blob (some c) = some c.sha

-- What the program relies on of GitHub's contents endpoint: a write is refused unless it names the
-- current blob, what was written is what is read, and a blob's SHA identifies its bytes.
pub record IsContentsApi (github : Repository) : Type 0 where
  pub compares :
      (s s' : github.State) (j : Json) (previous : Option Text)
      → github.put s j previous ≡ some s'
      → previous ≡ blob (github.content s)
  pub stores :
      (s s' : github.State) (j : Json) (previous : Option Text)
      → github.put s j previous ≡ some s'
      → (c : Content) × (github.content s' ≡ some c) × (c.value ≡ some j)
  pub identifies :
      (s t : github.State) (c d : Content)
      → github.content s ≡ some c
      → github.content t ≡ some d
      → c.sha ≡ d.sha
      → c.value ≡ d.value

module _ (valid_time : Text → Bool) (policy_sha256 : Json → Text) where
  abbrev pub ledger_of : Option Content → Result Ledger
  ledger_of none = ok empty
  ledger_of (some c) =
      parsed valid_time policy_sha256 c.value >>= decode_ledger valid_time policy_sha256

module _ (valid_time : Text → Bool) (policy_sha256 : Json → Text) (github : Repository) where
  open github use {State, view, content, put}

  -- The ledger that the repository holds now.
  abbrev pub Holds : State → Ledger → Type 0
  Holds s l = ledger_of valid_time policy_sha256 (content s) ≡ ok l

  pub data Step : State → State → Type 0 where
    reserves :
        (seen s s' : State) (q : Request) (l l' : Ledger) (previous : Option Text) (p : Plan)
        → 0 < q.run_id
        → read_state valid_time policy_sha256 (content seen) (view seen).has_branch
          ≡ ok (l, previous)
        → decide valid_time policy_sha256 (view seen) l q ≡ ok (fresh p l')
        → put s (encode_ledger l') previous ≡ some s'
        → Step s s'
    publishes :
        (seen s s' : State) (l l' : Ledger) (previous : Option Text) (p : Plan) (run_id : ℕ)
        (parent : Json) (promotion : Bool)
        → read_state valid_time policy_sha256 (content seen) (view seen).has_branch
          ≡ ok (l, previous)
        → publish_floor valid_time policy_sha256 (view seen) l p run_id parent promotion ≡ ok l'
        → put s (encode_ledger l') previous ≡ some s'
        → Step s s'
    -- tags, releases, branches: whatever leaves the state file alone
    elsewhere : (s s' : State) → content s' ≡ content s → Step s s'

  pub data Reach (s : State) : State → Type 0 where
    here : Reach s s
    next : {t u : State} → Reach s t → Step t u → Reach s u
