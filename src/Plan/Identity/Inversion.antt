-- ===== src/Plan/Identity/Inversion.antt =====
-- What an accepted identity says of the values that it was made from.
use inverter_gateway.Prelude.{
  ℕ, ◌<◌, Bool, true, some, ◌≡◌, refl, sym, ap, subst, arith, Text, codes, =t→eq, ltb, ltb→lt,
}
use inverter_gateway.Prelude.Result.{ok, bind_ok, guard_ok, ok-injective}
use inverter_gateway.Json.{Json, null, int, str}
use inverter_gateway.Plan.Patterns.{is_base, is_nightly}
use inverter_gateway.Plan.Identity.{
  Channel, nightly, beta, rc, stable, channel_name, channel_of, Sequence, absent, count, stamp,
  version_text, Identity, base_text, channel_value, stamp_value, sequence_value, identity,
}

abbrev pub sequence_json : Sequence → Json
sequence_json absent = null
sequence_json (count n) = int n
sequence_json (stamp s) = str s

channel_of-name : (s : Text) (c : Channel) → channel_of s ≡ some c → s ≡ channel_name c
unfolding channel_of
channel_of-name s c h = ground (
  arith,
  =t→eq s (codes "nightly"),
  =t→eq s (codes "beta"),
  =t→eq s (codes "rc"),
  =t→eq s (codes "stable"),
)

base_text-ok : (j : Json) (b : Text) → base_text j ≡ ok b → (j ≡ str b) × (is_base b ≡ true)
unfolding base_text
base_text-ok j b h = ground arith

channel_value-ok : (j : Json) (c : Channel) → channel_value j ≡ ok c → j ≡ str (channel_name c)
unfolding channel_value
channel_value-ok (str s) c h = ap str (channel_of-name s c (ground arith))
channel_value-ok null c h = ground arith
channel_value-ok _ c h = ground arith

-- The sequence fits its channel.
abbrev pub Fits : Channel → Sequence → Type 0
Fits stable s = s ≡ absent
Fits nightly s = (t : Text) × (s ≡ stamp t) × (is_nightly t ≡ true)
Fits _ s = (n : ℕ) × (s ≡ count n) × (0 < n)

-- What `identity` accepts, and what it returns.
pub record Accepted (base channel sequence : Json) (who : Identity) : Type 0 where
  pub base_given : base ≡ str who.base
  pub channel_given : channel ≡ str (channel_name who.channel)
  pub sequence_given : sequence ≡ sequence_json who.sequence
  pub version_made : who.version ≡ version_text who.base who.channel who.sequence
  pub base_strict : is_base who.base ≡ true
  pub fits : Fits who.channel who.sequence

module _ (valid_time : Text → Bool) where
  stamp_value-ok :
      (t : Text) (s : Sequence)
      → stamp_value valid_time t ≡ ok s
      → (s ≡ stamp t) × (is_nightly t ≡ true)
  unfolding stamp_value
  stamp_value-ok t s h = ground arith

  sequence_value-ok :
      (c : Channel) (j : Json) (s : Sequence)
      → sequence_value valid_time c j ≡ ok s
      → (j ≡ sequence_json s) × Fits c s
  unfolding sequence_value
  sequence_value-ok stable null s h = ground arith
  sequence_value-ok stable _ s h = ground arith
  sequence_value-ok nightly (str t) s h =
      let (e, n) = stamp_value-ok t s h in (ap sequence_json (sym e), (t, e, n))
  sequence_value-ok nightly _ s h = absurd (cc)
  sequence_value-ok beta (int n) s h =
      guard_ok (ltb 0 n) _ _ h
        λ p e. (ap sequence_json (ok-injective _ _ e), (n, sym (ok-injective _ _ e), ltb→lt 0 n p))
  sequence_value-ok beta _ s h = absurd (cc)
  sequence_value-ok rc (int n) s h =
      guard_ok (ltb 0 n) _ _ h
        λ p e. (ap sequence_json (ok-injective _ _ e), (n, sym (ok-injective _ _ e), ltb→lt 0 n p))
  sequence_value-ok rc _ s h = absurd (cc)

  pub identity-Accepted :
      (base channel sequence : Json) (who : Identity)
      → identity valid_time base channel sequence ≡ ok who
      → Accepted base channel sequence who
  unfolding identity
  identity-Accepted base channel sequence who h = bind_ok (base_text base) _ h λ b hb h1.
      bind_ok (channel_value channel) _ h1 λ c hc h2.
        bind_ok (sequence_value valid_time c sequence) _ h2 λ s hs h3.
          subst (Accepted base channel sequence) (ok-injective _ _ h3) (record {
            base_given = (base_text-ok base b hb).0;
            channel_given = channel_value-ok channel c hc;
            sequence_given = (sequence_value-ok c sequence s hs).0;
            version_made = refl;
            base_strict = (base_text-ok base b hb).1;
            fits = (sequence_value-ok c sequence s hs).1;
          })
