-- ===== src/Ledger/Reserve/Tags.antt =====
-- The tag of a new beta or RC is new in the ledger and among the tags of the repository.
use inverter_gateway.Prelude.{
  ℕ, ◌≤◌, ◌<◌, Bool, true, false, some, List, [], ◌∷◌, ◌++◌, ◌≡◌, ◌≢◌, refl, sym, ap, subst, ◌∙◌,
  ◌⊎◌, inl, inr, arith, Text, ◌=t◌, =t-self, maximum, ◌&&◌, if◌then◌else◌,
}
use inverter_gateway.Prelude.Result.{ok, bind_ok}
use inverter_gateway.Json.{Json, int}
use inverter_gateway.Plan.Identity.{
  Channel, nightly, beta, rc, stable, channel_name, channel_of, Sequence, absent, count, stamp,
  Identity,
}
use inverter_gateway.Plan.Identity.Inversion.{Fits, identity-Accepted, sequence_json}
use inverter_gateway.Plan.Identity.Injective.{version-injective}
use inverter_gateway.Plan.Projection.{Plan}
use inverter_gateway.Plan.Patterns.{is_sha256}
use inverter_gateway.Plan.Create.Accepts.{create_plan-IsFrozen}
use inverter_gateway.Plan.Create.RoundTrip.{IsFrozen, who_of}
use inverter_gateway.Plan.Create.BuildNumber.{create_plan-arguments}
use inverter_gateway.Ledger.Types.{Reservation, Ledger, same_channel, View}
use inverter_gateway.Ledger.Sequence.{next_sequence}
use inverter_gateway.Ledger.Read.Readable.{ReadablePlans, IsReadable}
use inverter_gateway.Ledger.Reserve.{
  Request, fresh, new_sequence, counted, reserved, sequence_number, decide,
}
use inverter_gateway.Ledger.Reserve.Fresh.{IsFresh, decide-IsFresh}

-- The identity with this base, channel and number is not among the plans.
abbrev Unused : Text → Channel → ℕ → List (Text × Reservation) → Type 0
Unused b c n [] = Unit
Unused b c n ((k, r) ∷ rs) =
    ¬ ((r.plan.base_version ≡ b) × (r.plan.channel ≡ c) × (r.plan.sequence ≡ count n))
    × Unused b c n rs

same_channel_self : (c : Channel) → same_channel c c ≡ true
same_channel_self nightly = refl
same_channel_self beta = refl
same_channel_self rc = refl
same_channel_self stable = refl

hit-number :
    (b : Text) (c : Channel) (n : ℕ) (r : Reservation) (rest : List ℕ)
    → (r.plan.base_version ≡ b) × (r.plan.channel ≡ c) × (r.plan.sequence ≡ count n)
    → n
      ≤ maximum (
          if r.plan.base_version =t b && same_channel r.plan.channel c
          then sequence_number r.plan.sequence ++ rest
          else rest)
unfolding maximum
hit-number b c n r rest (eb, ec, en) = rw (eb, ec, en, =t-self b, same_channel_self c) (omega arith)

rest-number :
    (t : Bool) (s : Sequence) (rest : List ℕ)
    → maximum rest ≤ maximum (if t then sequence_number s ++ rest else rest)
unfolding maximum
rest-number true (count n) rest = omega arith
rest-number true absent rest = omega arith
rest-number true (stamp x) rest = omega arith
rest-number false s rest = omega arith

reserved-Unused :
    (b : Text) (c : Channel) (n : ℕ) (rs : List (Text × Reservation))
    → maximum (reserved b c rs) < n
    → Unused b c n rs
unfolding reserved
reserved-Unused b c n [] h = tt
reserved-Unused b c n ((k, r) ∷ rs) h =
    let le =
      rest-number (r.plan.base_version =t b && same_channel r.plan.channel c) r.plan.sequence
        (reserved b c rs) in
    (
      λ same. omega (arith, h, hit-number b c n r (reserved b c rs) same),
      reserved-Unused b c n rs (omega (arith, h, le)),
    )

-- A channel whose releases are numbered.
abbrev pub IsCounted : Channel → Type 0
IsCounted c = (c ≡ beta) ⊎ (c ≡ rc)

channel_of-channel_name : (c : Channel) → channel_of (channel_name c) ≡ some c
unfolding channel_of ◌=t◌
channel_of-channel_name nightly = refl
channel_of-channel_name beta = refl
channel_of-channel_name rc = refl
channel_of-channel_name stable = refl

counted-above :
    (v : View) (l : Ledger) (b : Text) (c : Channel) (n : ℕ)
    → counted v l b c ≡ ok (int n)
    → maximum (reserved b c l.plans) < n
unfolding counted
counted-above v l b c n h = bind_ok (next_sequence v b c) _ h λ s hs h1. ground (arith, h1)

counted-Fits : (c : Channel) (s : Sequence) → IsCounted c → Fits c s → (n : ℕ) × (s ≡ count n)
counted-Fits c s (inl e) f = let (n, en, _) = subst (λ x. Fits x s) e f in (n, en)
counted-Fits c s (inr e) f = let (n, en, _) = subst (λ x. Fits x s) e f in (n, en)

new_sequence-counted :
    (v : View) (l : Ledger) (q : Request) (c : Channel) (j : Json)
    → IsCounted c
    → new_sequence v l q (some c) ≡ ok j
    → counted v l q.base c ≡ ok j
unfolding new_sequence
new_sequence-counted v l q c j (inl e) h =
    subst (λ x. new_sequence v l q (some x) ≡ ok j → counted v l q.base x ≡ ok j) (sym e) (λ k. k) h
new_sequence-counted v l q c j (inr e) h =
    subst (λ x. new_sequence v l q (some x) ≡ ok j → counted v l q.base x ≡ ok j) (sym e) (λ k. k) h

-- No plan of the list has the tag.
abbrev pub TagUnused : Text → List (Text × Reservation) → Type 0
TagUnused tag [] = Unit
TagUnused tag ((k, r) ∷ rs) = (r.plan.tag ≢ tag) × TagUnused tag rs

module _ (valid_time : Text → Bool) (policy_sha256 : Json → Text) where
  fresh-number :
      (v : View) (l : Ledger) (q : Request) (p : Plan) (l' : Ledger)
      → IsFresh valid_time policy_sha256 v l q p l'
      → IsCounted p.channel
      → (n : ℕ) × (p.sequence ≡ count n) × (maximum (reserved p.base_version p.channel l.plans) < n)
  fresh-number v l q p l' f counts =
      let (made, _) = create_plan-arguments valid_time policy_sha256 _ _ _ _ _ _ p f.created in
      let a = identity-Accepted valid_time _ _ _ (who_of p) made in
      let (n, en) = counted-Fits p.channel p.sequence counts a.fits in
      let channel : q.channel ≡ channel_name p.channel = cc (a.channel_given) in
      let base : q.base ≡ p.base_version = cc (a.base_given) in
      let sequence : f.sequence ≡ int n = a.sequence_given ∙ ap sequence_json en in
      let known : channel_of q.channel ≡ some p.channel =
        ap channel_of channel ∙ channel_of-channel_name p.channel in
      let chosen : new_sequence v l q (some p.channel) ≡ ok (int n) =
        subst (λ o. new_sequence v l q o ≡ ok (int n)) known (f.sequenced ∙ ap ok sequence) in
      let above : maximum (reserved q.base p.channel l.plans) < n =
        counted-above v l q.base p.channel n
          (new_sequence-counted v l q p.channel (int n) counts chosen) in
      (n, en, subst (λ b. maximum (reserved b p.channel l.plans) < n) base above)

  Unused-TagUnused :
      (c n : ℕ) (p : Plan) (rs : List (Text × Reservation))
      → IsFrozen valid_time p
      → p.sequence ≡ count n
      → ReadablePlans valid_time c rs
      → Unused p.base_version p.channel n rs
      → TagUnused p.tag rs
  Unused-TagUnused c n p [] f e hs u = tt
  Unused-TagUnused c n p ((k, r) ∷ rs) f e (h, hs) (u, us) = (
    λ same.
        let versions : r.plan.version ≡ p.version = cc (sym h.frozen.tagged ∙ same ∙ f.tagged) in
        let who : who_of r.plan ≡ who_of p =
          version-injective valid_time _ _ _ _ _ _ (who_of r.plan) (who_of p) h.frozen.identified
            f.identified versions in
        u (
          ap (λ (w : Identity). w.base) who,
          ap (λ (w : Identity). w.channel) who,
          ap (λ (w : Identity). w.sequence) who ∙ e,
        ),
    Unused-TagUnused c n p rs f e hs us,
  )

module _ (valid_time : Text → Bool) (policy_sha256 : Json → Text)
    (hex : (j : Json) → is_sha256 (policy_sha256 j) ≡ true) where
  -- When the ledger is readable (its plans are frozen ones), a new beta or RC reservation has a
  -- tag that no plan of the ledger has, where a policy digest is 64 lowercase hexadecimal
  -- digits.
  pub decide-TagUnused :
      (v : View) (l : Ledger) (q : Request) (p : Plan) (l' : Ledger)
      → IsReadable valid_time l
      → decide valid_time policy_sha256 v l q ≡ ok (fresh p l')
      → IsCounted p.channel
      → TagUnused p.tag l.plans
  decide-TagUnused v l q p l' w h counts =
      let f = decide-IsFresh valid_time policy_sha256 v l q p l' h in
      let (n, en, above) = fresh-number valid_time policy_sha256 v l q p l' f counts in
      Unused-TagUnused valid_time policy_sha256 l.counter n p l.plans
        (create_plan-IsFrozen valid_time policy_sha256 hex _ _ _ _ _ q.source_sha p f.created) en
        w.entries (reserved-Unused p.base_version p.channel n l.plans above)
