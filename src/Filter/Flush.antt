-- ===== src/Filter/Flush.antt =====
-- postgres_filter.cc: two runs of `doDecode`, where the filter sends on what the first one left.
use postgres_tde.Base.{
  Bool, List, [], ap, append-nil, arith, length, length-append, map-some, refl, some, subst, sym,
  true, ℕ, ◌++◌, ◌<◌, ◌^◌, ◌∙◌, ◌≡◌, ◌≢◌,
}
use mathlib.Core.Option
use mathlib.Core.Option.{some-injective}
use postgres_tde.Buffer.{Buffer}
use postgres_tde.Decoder.State.{in_sync_state, Decoder, stopped, Outcome}
use postgres_tde.Decoder.InSync.{PastStartup, decoding}
use postgres_tde.Decoder.Appends.{prefixed, Commutes}
use postgres_tde.Decoder.Prefix.{outcome_after}
use postgres_tde.Manager.State.{Tools}
use postgres_tde.Filter.State.{Config, Effect, Link, did, callbacks}
use postgres_tde.Filter.Run.{do_decode}
use postgres_tde.Filter.Decode.{do_decode-ends}
use postgres_tde.Filter.Whole.{takes_whole_messages}
use postgres_tde.Filter.Pieces.{do_decode-pieces}
use postgres_tde.Filter.Prefix.{do_decode-prefixed, do_decode-never_stops}

module _ (io : Buffer) (same : (c c' : io.Buf) → io.bytes c ≡ io.bytes c' → c ≡ c')
    {Query S : Type 0} (tools : Tools Query S) (config : Config io.Buf) where
  open io use {Buf, bytes, bytes-empty, size, size-bytes, append, append-bytes, empty}

  abbrev pub with_effects : List (Effect Buf) → Link Buf S → Link Buf S
  with_effects es l = record l { effects = es }

  -- The decoder's calls of the manager do not look at what was sent so far.
  callbacks-Commutes :
      (es : List (Effect Buf)) → Commutes (callbacks io tools config) (with_effects es)
  unfolding callbacks
  callbacks-Commutes es = record {
    query = λ v m. refl;
    parse = λ v m. refl;
    row_description = λ v m. refl;
    data_row = λ v m. refl;
    command_complete = λ v m. refl;
    empty_query_response = λ v m. refl;
    error_response = λ v m. refl;
  }

  pub append_empty_left : (b : Buf) → append empty b ≡ b
  append_empty_left b = same _ _ (append-bytes empty b ∙ ap (λ l. l ++ bytes b) bytes-empty)

  pub append_empty_right : (b : Buf) → append b empty ≡ b
  append_empty_right b =
      same _ _ (append-bytes b empty ∙ ap (λ l. bytes b ++ l) bytes-empty ∙ append-nil (bytes b))

  -- Past the startup, `doDecode` itself sends nothing.
  do_decode-effects :
      (fuel : ℕ) (frontend : Bool) (b : Buf) (d : Decoder Buf) (l : Link Buf S)
      (o : Outcome Buf (Link Buf S))
      → PastStartup d.state
      → do_decode io (callbacks io tools config) fuel frontend b d l ≡ some o
      → o.callee.effects ≡ l.effects
  do_decode-effects fuel frontend b d l o s e =
      ap (λ (q : Outcome Buf (Link Buf S)). q.callee.effects)
        (some-injective _ _ (
          sym e
          ∙ ap (λ (q : Decoder Buf). do_decode io (callbacks io tools config) fuel frontend b q l)
              (sym (
                ap
                  (λ i. record d {
                    frontend_replacement_data = i;
                    backend_replacement_data = append empty d.backend_replacement_data;
                  })
                  (append_empty_left d.frontend_replacement_data)
                ∙ ap (λ i. record d { backend_replacement_data = i })
                    (append_empty_left d.backend_replacement_data)))
          ∙ do_decode-prefixed io same (callbacks io tools config) (with_effects l.effects) empty
              empty fuel frontend b d l s (callbacks-Commutes l.effects)
          ∙ ap
              (Option.map (
                outcome_after io same (callbacks io tools config) (with_effects l.effects) empty
                  empty))
              e))

  -- What a callback of the filter does with the replacement data after a run: the decoder that it
  -- leaves, what it takes out of either side, and what it does with that.
  pub record Flush : Type 0 where
    pub flushed : Decoder Buf → Decoder Buf
    pub front : Decoder Buf → Buf
    pub back : Decoder Buf → Buf
    pub moves : Decoder Buf → List (Effect Buf)
    pub keeps_state : (d : Decoder Buf) → (flushed d).state ≡ d.state
    pub restored :
        (d : Decoder Buf)
        → prefixed io same
            (callbacks io tools config)
            (with_effects [])
            (front d)
            (back d)
            (flushed d)
          ≡ d

  module _ (fl : Flush) where
    -- What a run from the decoder and the link that an earlier one left does, by what it does from
    -- those that the filter made of them.
    abbrev pub regained :
        Decoder Buf → Link Buf S → Outcome Buf (Link Buf S) → Outcome Buf (Link Buf S)
    regained d l =
        outcome_after io same (callbacks io tools config) (with_effects l.effects) (fl.front d)
          (fl.back d)

    do_decode_flushed :
        (fuel : ℕ) (frontend : Bool) (c : Buf) (d : Decoder Buf) (l : Link Buf S)
        (es : List (Effect Buf))
        → PastStartup d.state
        → do_decode io (callbacks io tools config) fuel frontend c d l
          ≡ Option.map (regained d l) (
              do_decode io
                (callbacks io tools config)
                fuel
                frontend
                c
                (fl.flushed d)
                (with_effects es l))
    do_decode_flushed fuel frontend c d l es s =
        ap (λ (q : Decoder Buf). do_decode io (callbacks io tools config) fuel frontend c q l)
          (sym (fl.restored d))
        ∙ do_decode-prefixed io same (callbacks io tools config) (with_effects l.effects)
            (fl.front d) (fl.back d) fuel frontend c (fl.flushed d) (with_effects es l)
            (subst PastStartup (sym (fl.keeps_state d)) s) (callbacks-Commutes l.effects)

    -- The runs for two pieces and for all of the data.
    pub record TwoRuns (fuel : ℕ) (frontend : Bool) (first all : Buf) (y : Buf) (d : Decoder Buf)
        (l : Link Buf S) : Type 0 where
      pub o₁ : Outcome Buf (Link Buf S)
      pub o₂ : Outcome Buf (Link Buf S)
      pub o₃ : Outcome Buf (Link Buf S)
      pub run₁ : do_decode io (callbacks io tools config) fuel frontend first d l ≡ some o₁
      pub run₂ :
          do_decode io
            (callbacks io tools config)
            fuel
            frontend
            (append o₁.input y)
            (fl.flushed o₁.decoder)
            (did (fl.moves o₁.decoder) o₁.callee)
          ≡ some o₂
      pub run₃ : do_decode io (callbacks io tools config) fuel frontend all d l ≡ some o₃
      pub goes₁ : o₁.result ≢ stopped
      pub goes₂ : o₂.result ≢ stopped
      pub sent : o₂.callee.effects ≡ o₁.callee.effects ++ fl.moves o₁.decoder
      pub regains : regained o₁.decoder o₁.callee o₂ ≡ o₃

    pub do_decode-TwoRuns :
        (fuel : ℕ) (frontend : Bool) (first all y : Buf) (d : Decoder Buf) (l : Link Buf S)
        → d.state ≡ in_sync_state
        → takes_whole_messages io (callbacks io tools config) fuel frontend first d l ≡ true
        → bytes all ≡ bytes first ++ bytes y
        → length (bytes all) < fuel
        → length (bytes all) < 2 ^ 63
        → TwoRuns fuel frontend first all y d l
    do_decode-TwoRuns fuel frontend first all y d l sync whole pieces enough small =
        let cb = callbacks io tools config in
        let short : length (bytes first) < fuel =
          omega (arith, ap length pieces, length-append (bytes first) (bytes y), enough) in
        let (o₁, run₁, end₁) = do_decode-ends io cb fuel frontend first d l short in
        let (o₃, run₃, end₃) = do_decode-ends io cb fuel frontend all d l enough in
        let (goes₁, past₁) =
          do_decode-never_stops io same cb fuel frontend first d l o₁
            (subst PastStartup (sym sync) decoding) run₁ in
        let past = subst PastStartup (sym (fl.keeps_state o₁.decoder)) past₁ in
        let c = append o₁.input y in
        let l₁ = did (fl.moves o₁.decoder) o₁.callee in
        let on =
          do_decode-pieces io cb same fuel fuel frontend first all c d l o₁ (bytes y) sync run₁
            whole pieces (append-bytes o₁.input y) small enough in
        let (o₂, run₂, regains) = map-some _ _ o₃ (
          sym (do_decode_flushed fuel frontend c o₁.decoder o₁.callee l₁.effects past₁)
          ∙ on
          ∙ run₃) in
        record {
          o₁ = o₁;
          o₂ = o₂;
          o₃ = o₃;
          run₁ = run₁;
          run₂ = run₂;
          run₃ = run₃;
          goes₁ = goes₁;
          goes₂ =
              (do_decode-never_stops io same cb fuel frontend c (fl.flushed o₁.decoder) l₁ o₂ past
                run₂).0;
          sent = do_decode-effects fuel frontend c (fl.flushed o₁.decoder) l₁ o₂ past run₂;
          regains = regains;
        }
