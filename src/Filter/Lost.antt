-- ===== src/Filter/Lost.antt =====
-- A connection whose decoder is out of sync or was told that the traffic is encrypted.
use postgres_tde.Base.{
  Bool, List, Option, [], ap, append-nil, false, if◌then◌else◌, length, ltb, map-some, none, refl,
  some, subst, suc, sym, true, zero, ℕ, ◌++◌, ◌==◌, ◌∙◌, ◌∷◌, ◌≡◌,
}
use postgres_tde.Buffer.{Buffer}
use postgres_tde.Decoder.State.{Decoder, Result, ready_for_next, Callbacks, Outcome}
use postgres_tde.Decoder.Step.{on_data}
use postgres_tde.Decoder.Modes.{IsIgnoring, on_data_drops}
use postgres_tde.Manager.State.{Tools}
use postgres_tde.Filter.State.{
  Config, Effect, Link, Filter, did, callbacks, inject_write, continue_reading,
}
use postgres_tde.Filter.Run.{do_decode, turn, moved, on_read, after_read, on_write, after_write}

module _ (io : Buffer) {M : Type 0} (cb : Callbacks (Buffer.Buf io) M) where
  open io use {Buf, bytes, size}

  -- What a run of the loop gives when nothing is decoded.
  pub record Ignored (d : Decoder Buf) (m : M) (o : Outcome Buf M) : Type 0 where
    pub ready : o.result ≡ ready_for_next
    pub decoder : o.decoder ≡ d
    pub callee : o.callee ≡ m

  outcome_of : Outcome Buf M → Option (Outcome Buf M) → Outcome Buf M
  outcome_of default none = default
  outcome_of default (some o) = o

  pub do_decode-Ignored :
      (fuel : ℕ) (frontend : Bool) (b : Buf) (d : Decoder Buf) (m : M) (o : Outcome Buf M)
      → IsIgnoring io cb d.state
      → do_decode io cb fuel frontend b d m ≡ some o
      → Ignored d m o
  unfolding do_decode outcome_of
  do_decode-Ignored zero frontend b d m o h e = cc
  do_decode-Ignored (suc fuel) frontend b d m o h e =
      go (size b == 0) (on_data io cb frontend b d m) (on_data_drops io cb frontend b d m h)
        (λ b d' m'. do_decode-Ignored fuel frontend b d' m' o) e
    where
      go :
          (empty : Bool) (next : Outcome Buf M)
          → (next.result ≡ ready_for_next)
            × (bytes next.input ≡ [])
            × (next.decoder ≡ d)
            × (next.callee ≡ m)
          → ((b : Buf) (d' : Decoder Buf) (m' : M)
              → IsIgnoring io cb d'.state
              → do_decode io cb fuel frontend b d' m' ≡ some o
              → Ignored d' m' o)
          → (if empty
              then some (record { result = ready_for_next; input = b; decoder = d; callee = m })
              else turn io cb next.result
                  (do_decode io cb fuel frontend next.input next.decoder next.callee)
                  next)
            ≡ some o
          → Ignored d m o
      go true next (r, i, same, callee) ih e =
          subst (Ignored d m) (ap (outcome_of o) e)
            (record { ready = refl; decoder = refl; callee = refl })
      go false next (r, i, same, callee) ih e =
          let rest =
            ih next.input next.decoder next.callee
              (subst (λ x. IsIgnoring io cb x.state) (sym same) h)
              (sym (
                  ap
                    (λ x.
                      turn io cb x
                        (do_decode io cb fuel frontend next.input next.decoder next.callee) next)
                    r)
                ∙ e) in
          record {
            ready = rest.ready;
            decoder = rest.decoder ∙ same;
            callee = rest.callee ∙ callee;
          }

module _ (io : Buffer) {Query S : Type 0} (tools : Tools Query S)
    (config : Config (Buffer.Buf io)) where
  open io use {Buf, bytes, size, size-bytes, bytes-empty}

  -- Calls of `onData` and `onWrite`, in any order and with any data.
  pub data Calls : Filter Buf S → Filter Buf S → Type 0 where
    no_call : {f : Filter Buf S} → Calls f f
    read_call :
        {f g h : Filter Buf S} (fuel : ℕ) (data_ : Buf)
        → on_read io tools config fuel data_ f ≡ some g
        → Calls g h
        → Calls f h
    write_call :
        {f g h : Filter Buf S} (fuel : ℕ) (data_ : Buf) (end_stream : Bool)
        → on_write io tools config fuel data_ end_stream f ≡ some g
        → Calls g h
        → Calls f h

  -- The decoder ignores its input, and nothing waits to be passed on.
  pub record IsLost (f : Filter Buf S) : Type 0 where
    pub ignoring : IsIgnoring io (callbacks io tools config) f.decoder.state
    pub no_frontend : bytes f.decoder.frontend_replacement_data ≡ []
    pub no_backend : bytes f.decoder.backend_replacement_data ≡ []

  moved_nothing :
      (b : Buf) (effect : List ℕ → Effect Buf) → bytes b ≡ [] → moved io tools config b effect ≡ []
  moved_nothing b effect e =
      ap (λ n. if ltb 0 n then effect (bytes b) ∷ [] else []) (size-bytes b ∙ ap length e)

  -- One call keeps the filter lost and does nothing.
  Kept : Filter Buf S → Filter Buf S → Type 0
  Kept f g = IsLost g × (g.link ≡ f.link)

  did_nothing : (l : Link Buf S) (es : List (Effect Buf)) → es ≡ [] → did es l ≡ l
  did_nothing l es e =
      ap (λ xs. did xs l) e ∙ ap (λ xs. record l { effects = xs }) (append-nil l.effects)

  -- A property of all that an ignored run can have left.
  for_ignored :
      (P : Outcome Buf (Link Buf S) → Type 0) (d : Decoder Buf) (l : Link Buf S)
      (o : Outcome Buf (Link Buf S))
      → Ignored io (callbacks io tools config) d l o
      → P (record { result = ready_for_next; input = o.input; decoder = d; callee = l })
      → P o
  for_ignored P d l o i p =
      let at = λ (r : Result) (d' : Decoder Buf) (l' : Link Buf S).
        P (record { result = r; input = o.input; decoder = d'; callee = l' }) in
      subst (λ r. at r o.decoder o.callee) (sym i.ready)
        (subst (λ d'. at ready_for_next d' o.callee) (sym i.decoder)
          (subst (λ l'. at ready_for_next d l') (sym i.callee) p))

  after_read-Kept :
      (f : Filter Buf S) (o : Outcome Buf (Link Buf S))
      → IsLost f
      → Ignored io (callbacks io tools config) f.decoder f.link o
      → Kept f (after_read io tools config f.backend_validation_buffer o)
  unfolding after_read Kept
  after_read-Kept f o lost i =
      let front = f.decoder.frontend_replacement_data in
      let back = f.decoder.backend_replacement_data in
      for_ignored (λ x. Kept f (after_read io tools config f.backend_validation_buffer x)) f.decoder
        f.link o i
        (
          record { ignoring = lost.ignoring; no_frontend = bytes-empty; no_backend = bytes-empty },
          did_nothing f.link _ (
              ap (λ es. es ++ moved io tools config front continue_reading)
                (moved_nothing back (λ bs. inject_write bs false) lost.no_backend)
              ∙ moved_nothing front continue_reading lost.no_frontend),
        )

  after_write-Kept :
      (f : Filter Buf S) (end_stream : Bool) (o : Outcome Buf (Link Buf S))
      → IsLost f
      → Ignored io (callbacks io tools config) f.decoder f.link o
      → Kept f (after_write io tools config f.frontend_validation_buffer end_stream o)
  unfolding after_write Kept
  after_write-Kept f end_stream o lost i =
      let back = f.decoder.backend_replacement_data in
      for_ignored
        (λ x. Kept f (after_write io tools config f.frontend_validation_buffer end_stream x))
        f.decoder f.link o i
        (
          record {
            ignoring = lost.ignoring;
            no_frontend = lost.no_frontend;
            no_backend = bytes-empty;
          },
          did_nothing f.link _
              (moved_nothing back (λ bs. inject_write bs end_stream) lost.no_backend),
        )

  -- When the decoder is out of sync or takes the connection for encrypted, and nothing waits to be
  -- passed on, then whatever data comes from either side, in any order of calls, the filter does
  -- nothing to the connection or the filter chain, the mutation manager stays as it is, and the
  -- decoder stays in such a state.
  pub Calls-IsLost : (f g : Filter Buf S) → IsLost f → Calls f g → IsLost g × (g.link ≡ f.link)
  unfolding on_read on_write Kept
  Calls-IsLost f _ lost no_call = (lost, refl)
  Calls-IsLost f h lost (read_call {g = g} fuel data_ e rest) =
      let (o, run, made) =
        map-some (after_read io tools config f.backend_validation_buffer) _ g e in
      let ignored =
        do_decode-Ignored io (callbacks io tools config) fuel true _ f.decoder f.link o
          lost.ignoring run in
      let (lost', same) = subst (Kept f) made (after_read-Kept f o lost ignored) in
      let (end, kept) = Calls-IsLost g h lost' rest in (end, kept ∙ same)
  Calls-IsLost f h lost (write_call {g = g} fuel data_ end_stream e rest) =
      let (o, run, made) =
        map-some (after_write io tools config f.frontend_validation_buffer end_stream) _ g e in
      let ignored =
        do_decode-Ignored io (callbacks io tools config) fuel false _ f.decoder f.link o
          lost.ignoring run in
      let (lost', same) = subst (Kept f) made (after_write-Kept f end_stream o lost ignored) in
      let (end, kept) = Calls-IsLost g h lost' rest in (end, kept ∙ same)
