-- ===== src/Filter/Pieces.antt =====
-- postgres_filter.cc: `doDecode` on data that arrives in pieces.
use postgres_tde.Base.{
  Bool, Bool-cases, List, ap, arith, inl, inr, length, some, subst, suc, sym, true, zero, ℕ, ◌++◌,
  ◌<◌, ◌==◌, ◌^◌, ◌∙◌, ◌≡◌, ◌⊎◌,
}
use mathlib.Core.Option.{some-injective}
use postgres_tde.Buffer.{Buffer}
use postgres_tde.Message.Extends.{Extends, Extends-length}
use postgres_tde.Decoder.State.{in_sync_state, Decoder, Callbacks, Outcome}
use postgres_tde.Decoder.Step.{on_data}
use postgres_tde.Decoder.Progress.{on_data-shrinks}
use postgres_tde.Decoder.Outcomes.{Took, GaveUp}
use postgres_tde.Decoder.Stable.{Resumed, on_data_more}
use postgres_tde.Filter.Run.{do_decode, turn}
use postgres_tde.Filter.Turns.{empty_of_length, do_decode_some, do_decode_ready}
use postgres_tde.Filter.Whole.{takes_whole_messages, takes_whole_messages-turn}
use postgres_tde.Filter.Resumes.{
  Resumes, empty-Resumes, GaveUp-Resumes, Resumed-Resumes, Took-Resumes,
}

module _ (io : Buffer) {M : Type 0} (cb : Callbacks (Buffer.Buf io) M) where
  open io use {Buf, size, bytes, size-bytes}

  module _ (same : (c c' : Buf) → bytes c ≡ bytes c' → c ≡ c') where
    do_decode-Resumes :
        (fuel fuel' : ℕ) (frontend : Bool) (b b' : Buf) (d : Decoder Buf) (m : M)
        (o : Outcome Buf M)
        → (x : Extends io b b') → d.state ≡ in_sync_state
        → takes_whole_messages io cb fuel frontend b d m ≡ true
        → do_decode io cb fuel frontend b d m ≡ some o
        → length (bytes b') < fuel'
        → Resumes io cb fuel' frontend b b' d m x.more o
    unfolding do_decode
    do_decode-Resumes zero fuel' frontend b b' d m o x sync whole e k = absurd (cc e)
    do_decode-Resumes (suc fuel) zero frontend b b' d m o x sync whole e k =
        absurd (omega (arith, k))
    do_decode-Resumes (suc fuel) (suc fuel') frontend b b' d m o x sync whole e k =
        elim (Bool-cases (size b == 0)) [
          | inl q ↦
              empty-Resumes io cb same fuel (suc fuel') frontend b b' d m o x
                (empty_of_length (bytes b) (ground (arith, size-bytes b, q))) e
          | inr q ↦
              let h : 0 < length (bytes b) = ground (arith, size-bytes b, q) in
              go h
                (λ b b' d m x sync whole e k.
                  do_decode-Resumes fuel fuel' frontend b b' d m o x sync whole e k)
                (on_data_more io cb same frontend b b' d m x sync
                  (λ r s. (takes_whole_messages-turn io cb fuel frontend b d m h whole r s).0))
        ]
      where
        l : Outcome Buf M
        l = on_data io cb frontend b d m

        l' : Outcome Buf M
        l' = on_data io cb frontend b' d m

        go :
            0 < length (bytes b)
            → ((b b' : Buf) (d : Decoder Buf) (m : M)
                → (x : Extends io b b') → d.state ≡ in_sync_state
                → takes_whole_messages io cb fuel frontend b d m ≡ true
                → do_decode io cb fuel frontend b d m ≡ some o
                → length (bytes b') < fuel'
                → Resumes io cb fuel' frontend b b' d m x.more o)
            → Took io cb x.more l l' ⊎ (GaveUp io cb l l' ⊎ Resumed io cb frontend b b' d m l)
            → Resumes io cb (suc fuel') frontend b b' d m x.more o
        go h ih (inl t) =
            let some_data : 0 < length (bytes b') = omega (arith, h, Extends-length io x) in
            let shrinks = on_data-shrinks io cb frontend b' d m some_data t.ready' in
            let x' : Extends io l.input l'.input = record {
              more = x.more;
              holds = t.input;
              small = omega (arith, shrinks, x.small);
            } in
            Took-Resumes io cb same fuel' frontend b b' d m o x h t k (
              ih l.input l'.input l.decoder l.callee x' t.sync
                (takes_whole_messages-turn io cb fuel frontend b d m h whole t.ready t.sync).1
                (sym (do_decode_ready io cb fuel frontend b d m h t.ready) ∙ e)
                (omega (arith, shrinks, k)))
        go h ih (inr (inl g)) =
            GaveUp-Resumes io cb same fuel fuel' frontend b b' d m o x h g
              (sym (do_decode_ready io cb fuel frontend b d m h g.ready) ∙ e) k
        go h ih (inr (inr w)) =
            subst (Resumes io cb (suc fuel') frontend b b' d m x.more)
              (some-injective _ _ (
                sym (
                  do_decode_some io cb fuel frontend b d m h
                  ∙ ap
                      (λ r.
                        turn io cb r (do_decode io cb fuel frontend l.input l.decoder l.callee) l)
                      w.need)
                ∙ e))
              (Resumed-Resumes io cb same fuel' frontend b b' d m x h w)

    -- Where buffers with the same bytes are the same: `doDecode` in sync on a buffer, in a run that
    -- takes whole messages, and then on what it left with more bytes behind it, ends as `doDecode`
    -- on all of the bytes at once does: with the same result, the same decoder, the same callee and
    -- the same bytes left.
    pub do_decode-pieces :
        (fuel fuel' : ℕ) (frontend : Bool) (b b' c : Buf) (d : Decoder Buf) (m : M)
        (o : Outcome Buf M) (more : List ℕ)
        → d.state ≡ in_sync_state
        → do_decode io cb fuel frontend b d m ≡ some o
        → takes_whole_messages io cb fuel frontend b d m ≡ true
        → bytes b' ≡ bytes b ++ more
        → bytes c ≡ bytes o.input ++ more
        → length (bytes b') < 2 ^ 63
        → length (bytes b') < fuel'
        → do_decode io cb fuel' frontend c o.decoder o.callee
          ≡ do_decode io cb fuel' frontend b' d m
    do_decode-pieces fuel fuel' frontend b b' c d m o more sync e whole holds left small k =
        (do_decode-Resumes fuel fuel' frontend b b' d m o
            (record { more = more; holds = holds; small = small }) sync whole e k).1
          c left
