-- ===== src/Filter/Prefix.antt =====
-- postgres_filter.cc: `doDecode` past the startup, and what stands in the replacement data before.
use postgres_tde.Base.{
  Bool, Bool-cases, Option, ap, false, if◌then◌else◌, inl, inr, refl, some, subst, suc, true, zero,
  ℕ, ◌==◌, ◌∙◌, ◌≡◌, ◌≢◌,
}
use mathlib.Core.Option
use mathlib.Core.Option.{some-injective}
use postgres_tde.Buffer.{Buffer}
use postgres_tde.Decoder.State.{
  Decoder, Result, ready_for_next, need_more_data, stopped, Callbacks, Outcome,
}
use postgres_tde.Decoder.InSync.{PastStartup, on_data-PastStartup, on_data-never_stops}
use postgres_tde.Decoder.Appends.{prefixed, Commutes}
use postgres_tde.Decoder.Prefix.{outcome_after, on_data-prefixed}
use postgres_tde.Decoder.Step.{on_data}
use postgres_tde.Filter.Run.{do_decode, turn}

module _ (io : Buffer) (same : (c c' : io.Buf) → io.bytes c ≡ io.bytes c' → c ≡ c') {M : Type 0}
    (cb : Callbacks io.Buf M) where
  open io use {Buf, bytes, size, append}

  pub do_decode-prefixed :
      (g : M → M) (pf pb : Buf) (fuel : ℕ) (frontend : Bool) (b : Buf) (d : Decoder Buf) (m : M)
      → PastStartup d.state
      → Commutes cb g
      → do_decode io cb fuel frontend b (prefixed io same cb g pf pb d) (g m)
        ≡ Option.map (outcome_after io same cb g pf pb) (do_decode io cb fuel frontend b d m)
  unfolding do_decode
  do_decode-prefixed g pf pb zero frontend b d m s h = refl
  do_decode-prefixed g pf pb (suc fuel) frontend b d m s h = elim (Bool-cases (size b == 0)) [
    | inl e ↦ rw (e, do_decode) refl
    | inr e ↦
        rw (e, do_decode)
          (ap
              (λ (q : Outcome Buf M).
                turn io cb q.result (do_decode io cb fuel frontend q.input q.decoder q.callee) q)
              (on_data-prefixed io same cb g pf pb frontend b d m s h)
            ∙ ap (λ r. turn io cb l.result r (outcome_after io same cb g pf pb l))
                (do_decode-prefixed g pf pb fuel frontend l.input l.decoder l.callee
                  (on_data-PastStartup io cb frontend b d m s) h)
            ∙ go l.result (do_decode io cb fuel frontend l.input l.decoder l.callee))
  ]
    where
      l : Outcome Buf M
      l = on_data io cb frontend b d m

      go :
          (r : Result) (rest : Option (Outcome Buf M))
          → turn io cb r
              (Option.map (outcome_after io same cb g pf pb) rest)
              (outcome_after io same cb g pf pb l)
            ≡ Option.map (outcome_after io same cb g pf pb) (turn io cb r rest l)
      go ready_for_next rest = refl
      go need_more_data rest = refl
      go stopped rest = refl

  pub do_decode-never_stops :
      (fuel : ℕ) (frontend : Bool) (b : Buf) (d : Decoder Buf) (m : M) (o : Outcome Buf M)
      → PastStartup d.state
      → do_decode io cb fuel frontend b d m ≡ some o
      → (o.result ≢ stopped) × PastStartup o.decoder.state
  unfolding do_decode
  do_decode-never_stops zero frontend b d m o s e = absurd (cc e)
  do_decode-never_stops (suc fuel) frontend b d m o s e =
      go (size b == 0) (on_data io cb frontend b d m).result refl
        (λ b d m. do_decode-never_stops fuel frontend b d m o) e
    where
      l : Outcome Buf M
      l = on_data io cb frontend b d m

      Fine : Outcome Buf M → Type 0
      Fine q = (q.result ≢ stopped) × PastStartup q.decoder.state

      go :
          (empty : Bool) (r : Result)
          → (on_data io cb frontend b d m).result ≡ r
          → ((b : Buf) (d : Decoder Buf) (m : M)
              → PastStartup d.state
              → do_decode io cb fuel frontend b d m ≡ some o
              → Fine o)
          → (if empty
              then some (record { result = ready_for_next; input = b; decoder = d; callee = m })
              else turn io cb r (do_decode io cb fuel frontend l.input l.decoder l.callee) l)
            ≡ some o
          → Fine o
      go true r q ih e = subst Fine (some-injective _ _ e) (λ x. cc, s)
      go false ready_for_next q ih e =
          ih l.input l.decoder l.callee (on_data-PastStartup io cb frontend b d m s) e
      go false need_more_data q ih e =
          subst Fine (some-injective _ _ e)
            (on_data-never_stops io cb frontend b d m s, on_data-PastStartup io cb frontend b d m s)
      go false stopped q ih e = absurd (on_data-never_stops io cb frontend b d m s q)
