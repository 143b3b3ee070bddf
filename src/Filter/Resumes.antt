-- ===== src/Filter/Resumes.antt =====
-- postgres_filter.cc: what a run of `doDecode` leaves for the next one.
use postgres_tde.Base.{
  Bool, List, [], ap, arith, length, length-append, some, subst, suc, sym, zero, ℕ, ◌++◌, ◌<◌, ◌∙◌,
  ◌≡◌, ◌≤◌,
}
use mathlib.Core.Option.{some-injective}
use postgres_tde.Buffer.{Buffer}
use postgres_tde.Message.Extends.{Extends, Extends-length}
use postgres_tde.Decoder.State.{Decoder, Callbacks, Outcome}
use postgres_tde.Decoder.Step.{on_data}
use postgres_tde.Decoder.Progress.{on_data-shrinks}
use postgres_tde.Decoder.Outcomes.{Took, GaveUp}
use postgres_tde.Decoder.Stable.{Resumed}
use postgres_tde.Filter.Run.{do_decode, turn}
use postgres_tde.Filter.Turns.{
  finished_with, do_decode_empty, do_decode_some, do_decode_ready, do_decode_fuel, do_decode_lost,
}

module _ (io : Buffer) {M : Type 0} (cb : Callbacks (Buffer.Buf io) M) where
  open io use {Buf, size, bytes, size-bytes}

  -- What the second run leaves, from where the first one ended and on the whole data.
  abbrev pub Resumes : ℕ → Bool → Buf → Buf → Decoder Buf → M → List ℕ → Outcome Buf M → Type 0
  Resumes fuel frontend b b' d m more o =
      (length (bytes o.input) ≤ length (bytes b))
      × ((c : Buf)
          → bytes c ≡ bytes o.input ++ more
          → do_decode io cb fuel frontend c o.decoder o.callee
            ≡ do_decode io cb fuel frontend b' d m)

  module _ (same : (c c' : Buf) → bytes c ≡ bytes c' → c ≡ c') where
    pub empty-Resumes :
        (fuel fuel' : ℕ) (frontend : Bool) (b b' : Buf) (d : Decoder Buf) (m : M)
        (o : Outcome Buf M)
        → (x : Extends io b b') → bytes b ≡ []
        → do_decode io cb (suc fuel) frontend b d m ≡ some o
        → Resumes fuel' frontend b b' d m x.more o
    empty-Resumes fuel fuel' frontend b b' d m o x h e =
        subst (Resumes fuel' frontend b b' d m x.more)
          (some-injective _ _
            (sym (do_decode_empty io cb (suc fuel) frontend b d m h (omega arith)) ∙ e))
          (
            omega arith,
            λ c f. ap (λ i. do_decode io cb fuel' frontend i d m) (same c b' (f ∙ sym x.holds)),
          )

    pub GaveUp-Resumes :
        (fuel fuel' : ℕ) (frontend : Bool) (b b' : Buf) (d : Decoder Buf) (m : M)
        (o : Outcome Buf M)
        → (x : Extends io b b') → 0 < length (bytes b)
        → GaveUp io cb (on_data io cb frontend b d m) (on_data io cb frontend b' d m)
        → do_decode io cb fuel frontend
            (on_data io cb frontend b d m).input
            (on_data io cb frontend b d m).decoder
            (on_data io cb frontend b d m).callee
          ≡ some o
        → length (bytes b') < suc fuel'
        → Resumes (suc fuel') frontend b b' d m x.more o
    unfolding do_decode
    GaveUp-Resumes zero fuel' frontend b b' d m o x h g e k = absurd (cc e)
    GaveUp-Resumes (suc fuel) fuel' frontend b b' d m o x h g e k =
        subst (Resumes (suc fuel') frontend b b' d m x.more)
          (some-injective _ _
            (sym (do_decode_empty io cb (suc fuel) frontend _ _ _ g.input (omega arith)) ∙ e))
          (
            omega (arith, ap length g.input),
            λ c f.
                do_decode_lost io cb same (suc fuel') frontend c l'.input l.decoder l.callee g.lost
                  g.input'
                  (omega (
                    arith,
                    ap length f,
                    ap length g.input,
                    length-append (bytes l.input) x.more,
                    Extends-length io x,
                    k,
                  ))
                  (omega (arith, h, k, Extends-length io x))
                ∙ sym (
                    do_decode_ready io cb fuel' frontend b' d m
                      (omega (arith, h, Extends-length io x)) g.ready'
                    ∙ do_decode_empty io cb fuel' frontend _ _ _ g.input'
                        (omega (arith, h, k, Extends-length io x))
                    ∙ ap (λ i. some (finished_with io cb l'.input i l'.callee)) g.decoder
                    ∙ ap (λ i. some (finished_with io cb l'.input l.decoder i)) g.callee),
          )
      where
        l : Outcome Buf M
        l = on_data io cb frontend b d m

        l' : Outcome Buf M
        l' = on_data io cb frontend b' d m

    pub Resumed-Resumes :
        (fuel' : ℕ) (frontend : Bool) (b b' : Buf) (d : Decoder Buf) (m : M)
        → (x : Extends io b b') → 0 < length (bytes b)
        → Resumed io cb frontend b b' d m (on_data io cb frontend b d m)
        → Resumes (suc fuel') frontend b b' d m x.more (on_data io cb frontend b d m)
    Resumed-Resumes fuel' frontend b b' d m x h w = (
      omega (arith, ap (λ i. length (bytes i)) w.input),
      λ c f.
          let whole : c ≡ b' = same c b' (f ∙ ap (λ i. bytes i ++ x.more) w.input ∙ sym x.holds) in
          ap (λ i. do_decode io cb (suc fuel') frontend i l.decoder l.callee) whole
          ∙ ap (λ i. do_decode io cb (suc fuel') frontend b' l.decoder i) w.callee
          ∙ do_decode_some io cb fuel' frontend b' l.decoder m some_data
          ∙ ap
              (λ (q : Outcome Buf M).
                turn io cb q.result (do_decode io cb fuel' frontend q.input q.decoder q.callee) q)
              w.again
          ∙ sym (do_decode_some io cb fuel' frontend b' d m some_data),
    )
      where
        l : Outcome Buf M
        l = on_data io cb frontend b d m

        some_data : 0 < length (bytes b')
        some_data = omega (arith, h, Extends-length io x)

    pub Took-Resumes :
        (fuel' : ℕ) (frontend : Bool) (b b' : Buf) (d : Decoder Buf) (m : M) (o : Outcome Buf M)
        → (x : Extends io b b') → 0 < length (bytes b)
        → (t : Took io cb x.more (on_data io cb frontend b d m) (on_data io cb frontend b' d m))
        → length (bytes b') < suc fuel'
        → Resumes fuel' frontend
            (on_data io cb frontend b d m).input
            (on_data io cb frontend b' d m).input
            (on_data io cb frontend b d m).decoder
            (on_data io cb frontend b d m).callee
            x.more
            o
        → Resumes (suc fuel') frontend b b' d m x.more o
    Took-Resumes fuel' frontend b b' d m o x h t k (le, rest) = (
      omega (arith, le, shrinks),
      λ c f.
          let short : length (bytes c) < fuel' = omega (
            arith,
            ap length f,
            length-append (bytes o.input) x.more,
            le,
            ap length t.input,
            length-append (bytes l.input) x.more,
            shrinks',
            k,
          ) in
          do_decode_fuel io cb (suc fuel') fuel' frontend c o.decoder o.callee
            (omega (arith, short)) short
          ∙ rest c f
          ∙ sym (
              do_decode_ready io cb fuel' frontend b' d m some_data t.ready'
              ∙ ap (λ i. do_decode io cb fuel' frontend l'.input i l'.callee) t.decoder
              ∙ ap (λ i. do_decode io cb fuel' frontend l'.input l.decoder i) t.callee),
    )
      where
        l : Outcome Buf M
        l = on_data io cb frontend b d m

        l' : Outcome Buf M
        l' = on_data io cb frontend b' d m

        some_data : 0 < length (bytes b')
        some_data = omega (arith, h, Extends-length io x)

        shrinks : length (bytes l.input) < length (bytes b)
        shrinks = on_data-shrinks io cb frontend b d m h t.ready

        shrinks' : length (bytes l'.input) < length (bytes b')
        shrinks' = on_data-shrinks io cb frontend b' d m some_data t.ready'
