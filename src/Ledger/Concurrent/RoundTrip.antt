-- ===== src/Ledger/Concurrent/RoundTrip.antt =====
-- A ledger that `write_state` wrote, read again by `read_state`, in scripts/release_state.py.
use inverter_gateway.Prelude.{
  Bool, true, Option, none, some, ◌≡◌, sym, ap, ◌∙◌, Text, leb, if◌then◌else◌, Bool-cases, inl, inr,
  some_injective,
}
use inverter_gateway.Prelude.Result.{Result, ok, err}
use inverter_gateway.Json.{Json}
use inverter_gateway.Plan.Patterns.{is_sha}
use inverter_gateway.Ledger.Types.{Ledger, Content, Repository}
use inverter_gateway.Ledger.Read.{read_content, read_state, encode_ledger}
use inverter_gateway.Ledger.Read.Readable.{IsReadable}
use inverter_gateway.Ledger.Read.RoundTrip.{decode_ledger-encode_ledger}
use inverter_gateway.Ledger.Reserve.{write_state}
use inverter_gateway.Ledger.Concurrent.{IsContentsApi}

module _ (github : Repository) where
  open github use {State, content, put}

  -- A write that succeeds is one that GitHub took.
  write_state-put :
      (s s' : State) (l : Ledger) (previous : Option Text)
      → write_state github s l previous ≡ (ok tt, s')
      → put s (encode_ledger l) previous ≡ some s'
  unfolding write_state
  write_state-put s s' l previous h = go (put s (encode_ledger l) previous) h
    where
      go :
          (o : Option State)
          → ◌≡◌ {A = Result (Unit {0}) × State}
              (elim o [ none ↦ (err "GitHub refused the ledger write", s) | some t ↦ (ok tt, t) ])
              (ok tt, s')
          → o ≡ some s'
      go none e = absurd (cc (ap (λ x. x.0) e))
      go (some t) e = ap (λ x. some x.1) e

  -- A write that GitHub takes succeeds.
  pub put-write_state :
      (s s' : State) (l : Ledger) (previous : Option Text)
      → put s (encode_ledger l) previous ≡ some s'
      → write_state github s l previous ≡ (ok tt, s')
  unfolding write_state
  put-write_state s s' l previous h = rw (write_state, h)

module _ (valid_time : Text → Bool) (policy_sha256 : Json → Text) (github : Repository)
    (api : IsContentsApi github) where
  open github use {State, content}

  -- The file holds the JSON of the ledger that was written.
  written-value :
      (s s' : State) (l : Ledger) (previous : Option Text) (c : Content)
      → write_state github s l previous ≡ (ok tt, s')
      → content s' ≡ some c
      → c.value ≡ some (encode_ledger l)
  written-value s s' l previous c h held =
      let (d, is, value) =
        api.stores s s' (encode_ledger l) previous (write_state-put github s s' l previous h) in
      let same : c ≡ d = some_injective (sym held ∙ is) in
      ap (λ (x : Content). x.value) same ∙ value

  -- What write_state puts in the file when GitHub takes it is what the next read_state returns,
  -- with the SHA of the file's blob to name at the next write: for a readable ledger (its floor
  -- and its build numbers are within its counter, and its plans are frozen ones under positive
  -- run IDs), if the file is then listed as a regular one with a SHA of 40 hexadecimal digits
  -- and is of at most 4,000,000 bytes; a file over that size is refused as in need of
  -- compaction.
  pub read_state-write_state :
      (s s' : State) (l : Ledger) (previous : Option Text) (c : Content) (has_branch : Bool)
      → IsReadable valid_time l
      → write_state github s l previous ≡ (ok tt, s')
      → content s' ≡ some c
      → c.regular ≡ true
      → is_sha c.sha ≡ true
      → read_state valid_time policy_sha256 (content s') has_branch ≡ (
          if leb c.size 4_000_000
          then ok (l, some c.sha)
          else err "Ledger requires compaction before another allocation")
  unfolding read_state read_content
  read_state-write_state s s' l previous c has_branch readable h held regular named =
      let value = written-value s s' l previous c h held in
      let again = decode_ledger-encode_ledger valid_time policy_sha256 l readable in
      elim (Bool-cases (leb c.size 4_000_000)) [
        | inl fits ↦ rw (held, regular, fits, value, again, named)
        | inr over ↦ rw (held, regular, over)
      ]
