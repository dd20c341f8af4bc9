-- ===== src/Ledger/Concurrent/Safety.antt =====
-- No update of the ledger is lost, and its invariant holds under every interleaving.
use inverter_gateway.Prelude.{
  ◌≤◌, ◌<◌, Bool, true, Option, none, some, List, [], ◌++◌, ◌≡◌, refl, sym, ap, subst, ◌∙◌, arith,
  Text, leb, append_assoc, append-nil,
}
use inverter_gateway.Prelude.Result.{ok, ◌>>=◌, bind_ok, guard_ok, ok-injective}
use inverter_gateway.Json.{Json}
use inverter_gateway.Plan.Patterns.{is_sha, is_sha256}
use inverter_gateway.Plan.Projection.{Plan}
use inverter_gateway.Ledger.Types.{Reservation, Ledger, View, Content, Repository}
use inverter_gateway.Ledger.Read.{decode_ledger, parsed, read_content, read_state, encode_ledger}
use inverter_gateway.Ledger.Read.Readable.{IsReadable}
use inverter_gateway.Ledger.Read.RoundTrip.{decode_ledger-encode_ledger}
use inverter_gateway.Ledger.Reserve.{Request, fresh, add_plan, decide}
use inverter_gateway.Ledger.Reserve.Fresh.{decide-IsFresh}
use inverter_gateway.Ledger.Reserve.Invariant.{IsWell, IsFresh-IsWell}
use inverter_gateway.Ledger.Publish.{publish_floor}
use inverter_gateway.Ledger.Publish.Order.{publish_floor-order}
use inverter_gateway.Ledger.Publish.Bounds.{publish_floor-le-counter}
use inverter_gateway.Ledger.Concurrent.{
  blob, IsContentsApi, ledger_of, Holds, Step, reserves, publishes, elsewhere, Reach, here, next,
}

-- The later ledger has every reservation of the earlier one, in place, and no smaller number.
pub record Extends (l l' : Ledger) : Type 0 where
  pub counter_le : l.counter ≤ l'.counter
  pub floor_le : l.publication_floor ≤ l'.publication_floor
  pub more : List (Text × Reservation)
  pub kept : l'.plans ≡ l.plans ++ more

Extends-refl : (l : Ledger) → Extends l l
Extends-refl l = record {
  counter_le = omega arith;
  floor_le = omega arith;
  more = [];
  kept = sym (append-nil l.plans);
}

Extends-trans : (a b c : Ledger) → Extends a b → Extends b c → Extends a c
Extends-trans a b c f g = record {
  counter_le = omega (arith, f.counter_le, g.counter_le);
  floor_le = omega (arith, f.floor_le, g.floor_le);
  more = f.more ++ g.more;
  kept = rw (g.kept, f.kept) (append_assoc a.plans f.more g.more);
}

module _ (valid_time : Text → Bool) (policy_sha256 : Json → Text) where
  -- What `read_state` returned: the ledger in the file, and the blob that a write must name.
  read_state-parts :
      (o : Option Content) (has_branch : Bool) (l : Ledger) (previous : Option Text)
      → read_state valid_time policy_sha256 o has_branch ≡ ok (l, previous)
      → (ledger_of valid_time policy_sha256 o ≡ ok l) × (previous ≡ blob o)
  unfolding read_state read_content
  read_state-parts none has_branch l previous h = ground arith
  read_state-parts (some c) has_branch l previous h = guard_ok c.regular _ _ h λ h0 h1.
      guard_ok (leb c.size 4_000_000) _ _ h1 λ h2 h3.
        bind_ok (parsed valid_time policy_sha256 c.value) _ h3 λ j hj h4.
          bind_ok (decode_ledger valid_time policy_sha256 j) _ h4 λ state hs h5.
            guard_ok (is_sha c.sha) _ _ h5 λ h6 h7. (rw hj (rw hs (cc (h7))), cc (h7))

  ledger_of-value :
      (c d : Content)
      → c.value ≡ d.value
      → ledger_of valid_time policy_sha256 (some c) ≡ ledger_of valid_time policy_sha256 (some d)
  ledger_of-value c d e =
      ap (λ o. parsed valid_time policy_sha256 o >>= decode_ledger valid_time policy_sha256) e

module _ (valid_time : Text → Bool) (policy_sha256 : Json → Text)
    (hex : (j : Json) → is_sha256 (policy_sha256 j) ≡ true) (github : Repository)
    (api : IsContentsApi github) where
  open github use {State, view, content, put}

  same_ledger :
      (seen s : State) (o o' : Option Content)
      → content seen ≡ o
      → content s ≡ o'
      → blob o ≡ blob o'
      → ledger_of valid_time policy_sha256 o ≡ ledger_of valid_time policy_sha256 o'
  same_ledger seen s none none e e' b = refl
  same_ledger seen s none (some d) e e' b = absurd (cc)
  same_ledger seen s (some c) none e e' b = absurd (cc)
  same_ledger seen s (some c) (some d) e e' b =
      ledger_of-value valid_time policy_sha256 c d (api.identifies seen s c d e e' (cc))

  -- A write that is accepted was decided from the ledger that the file holds at that moment.
  pub write-current :
      (seen s s' : State) (l now : Ledger) (j : Json) (previous : Option Text)
      → read_state valid_time policy_sha256 (content seen) (view seen).has_branch ≡ ok (l, previous)
      → put s j previous ≡ some s'
      → Holds valid_time policy_sha256 github s now
      → l ≡ now
  write-current seen s s' l now j previous hr hw holds =
      let (read, named) =
        read_state-parts valid_time policy_sha256 (content seen) _ l previous hr in
      let same : blob (content seen) ≡ blob (content s) =
        sym named ∙ api.compares s s' j previous hw in
      ok-injective l now
        (sym read ∙ same_ledger seen s (content seen) (content s) refl refl same ∙ holds)

  put-Holds :
      (s s' : State) (l' : Ledger) (previous : Option Text)
      → put s (encode_ledger l') previous ≡ some s'
      → IsReadable valid_time l'
      → Holds valid_time policy_sha256 github s' l'
  put-Holds s s' l' previous hw readable =
      let (c, there, value) = api.stores s s' (encode_ledger l') previous hw in
      rw there (rw value (decode_ledger-encode_ledger valid_time policy_sha256 l' readable))

  -- One step of any run.
  pub record Next (l : Ledger) (s' : State) : Type 0 where
    pub ledger : Ledger
    pub holds : Holds valid_time policy_sha256 github s' ledger
    pub well : IsWell valid_time ledger
    pub extends : Extends l ledger

  publish-Next :
      (l l' : Ledger)
      → IsWell valid_time l
      → l'.publication_floor ≤ l'.counter
      → l.publication_floor ≤ l'.publication_floor
      → l'.counter ≡ l.counter
      → l'.plans ≡ l.plans
      → IsWell valid_time l' × Extends l l'
  publish-Next l l' w h f c p =
      let same : l' ≡ record l { publication_floor = l'.publication_floor } =
        (λ i. record { counter = c i; publication_floor = l'.publication_floor; plans = p i }) in
      (
        subst (IsWell valid_time) (sym same) (record {
          readable = record { floor_le = rw (← c) h; entries = w.readable.entries };
          distinct = w.distinct;
        }),
        record {
          counter_le = omega arith;
          floor_le = f;
          more = [];
          kept = p ∙ sym (append-nil l.plans);
        },
      )

  reserve-Next :
      (v : View) (l l' : Ledger) (q : Request) (p : Plan)
      → 0 < q.run_id
      → IsWell valid_time l
      → decide valid_time policy_sha256 v l q ≡ ok (fresh p l')
      → IsWell valid_time l' × Extends l l'
  unfolding add_plan
  reserve-Next v l l' q p run w h =
      let f = decide-IsFresh valid_time policy_sha256 v l q p l' h in
      (
        IsFresh-IsWell valid_time policy_sha256 hex v l q p l' run w f,
        subst (Extends l) (sym f.written)
            (record { counter_le = omega arith; floor_le = omega arith; more = _; kept = refl }),
      )

  wrote :
      (s s' : State) (l l' : Ledger) (previous : Option Text)
      → put s (encode_ledger l') previous ≡ some s'
      → IsWell valid_time l' × Extends l l'
      → Next l s'
  wrote s s' l l' previous hw (w, e) = record {
    ledger = l';
    holds = put-Holds s s' l' previous hw w.readable;
    well = w;
    extends = e;
  }

  Step-Next :
      (s s' : State) (l : Ledger)
      → Holds valid_time policy_sha256 github s l
      → IsWell valid_time l
      → Step valid_time policy_sha256 github s s'
      → Next l s'
  Step-Next s s' l holds w (reserves seen _ _ q old l' previous p run hr hd hw) =
      let e = write-current seen s s' old l (encode_ledger l') previous hr hw holds in
      wrote s s' l l' previous hw (
        reserve-Next (view seen) l l' q p run w
          (subst (λ x. decide valid_time policy_sha256 (view seen) x q ≡ ok (fresh p l')) e hd))
  Step-Next s s' l holds w (publishes seen _ _ old l' previous p run_id parent promotion hr hp hw) =
      let e = write-current seen s s' old l (encode_ledger l') previous hr hw holds in
      let h =
        subst
          (λ x.
            publish_floor valid_time policy_sha256 (view seen) x p run_id parent promotion ≡ ok l')
          e hp in
      let o =
        publish_floor-order valid_time policy_sha256 (view seen) l l' p run_id parent promotion h in
      wrote s s' l l' previous hw (
        publish-Next l l' w
          (publish_floor-le-counter valid_time policy_sha256 (view seen) l l' p run_id parent
            promotion w.readable h)
          o.1 o.3 o.4)
  Step-Next s s' l holds w (elsewhere _ _ e) = record {
    ledger = l;
    holds = rw e holds;
    well = w;
    extends = Extends-refl l;
  }

  -- From a repository whose ledger is readable with distinct build numbers, under every
  -- interleaving of reserve_plan and begin_publication runs and of changes elsewhere, the
  -- ledger stays readable with distinct build numbers, loses no reservation, and neither its
  -- counter nor its publication floor falls.
  pub Reach-Next :
      (s t : State) (l : Ledger)
      → Holds valid_time policy_sha256 github s l
      → IsWell valid_time l
      → Reach valid_time policy_sha256 github s t
      → Next l t
  Reach-Next s _ l holds w here = record {
    ledger = l;
    holds = holds;
    well = w;
    extends = Extends-refl l;
  }
  Reach-Next s t l holds w (next {t = m} r step) =
      let a = Reach-Next s m l holds w r in
      let b = Step-Next m t a.ledger a.holds a.well step in
      record {
        ledger = b.ledger;
        holds = b.holds;
        well = b.well;
        extends = Extends-trans l a.ledger b.ledger a.extends b.extends;
      }
