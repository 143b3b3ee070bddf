-- ===== src/Filter/Decode.antt =====
-- The loop of `doDecode` ends.
use postgres_tde.Base.{
  Bool, Bool-cases, ap, arith, false, inl, inr, length, refl, some, suc, zero, ℕ, ◌<◌, ◌==◌, ◌≡◌,
  ◌⊎◌,
}
use postgres_tde.Buffer.{Buffer}
use postgres_tde.Decoder.State.{
  Decoder, Result, ready_for_next, need_more_data, stopped, Callbacks, Outcome,
}
use postgres_tde.Decoder.Step.{on_data}
use postgres_tde.Decoder.Progress.{on_data-shrinks}
use postgres_tde.Filter.Run.{do_decode, turn}

module _ (io : Buffer) {M : Type 0} (cb : Callbacks (Buffer.Buf io) M) where
  open io use {Buf, size, bytes, size-bytes}

  -- How a run of `doDecode` may end.
  abbrev pub IsSettled : Outcome Buf M → Type 0
  IsSettled o = ¬ (o.result ≡ ready_for_next) ⊎ (length (bytes o.input) ≡ 0)

  -- With more turns than the buffer has bytes, `doDecode` ends on any data, in any state of the
  -- decoder and for any behaviour of the callbacks, and ends with an empty buffer or with a result
  -- that is not `ReadyForNext`.
  pub do_decode-ends :
      (fuel : ℕ) (frontend : Bool) (b : Buf) (d : Decoder Buf) (m : M)
      → length (bytes b) < fuel
      → (o : Outcome Buf M) × (do_decode io cb fuel frontend b d m ≡ some o) × IsSettled o
  unfolding do_decode
  do_decode-ends zero frontend b d m h = absurd (omega arith)
  do_decode-ends (suc fuel) frontend b d m h = elim (Bool-cases (size b == 0)) [
    | inl e ↦ rw e (_, refl, inr (ground (arith, size-bytes b, e)))
    | inr e ↦ rw e (
        go e (λ b d m. do_decode-ends fuel frontend b d m) (on_data io cb frontend b d m).result
          refl)
  ]
    where
      go :
          (size b == 0) ≡ false
          → ((b : Buf) (d : Decoder Buf) (m : M)
              → length (bytes b) < fuel
              → (o : Outcome Buf M) × (do_decode io cb fuel frontend b d m ≡ some o) × IsSettled o)
          → (r : Result) → (on_data io cb frontend b d m).result ≡ r
          → let o = on_data io cb frontend b d m in
            (p : Outcome Buf M) × (turn io cb r
                (do_decode io cb fuel frontend o.input o.decoder o.callee)
                o
              ≡ some p)
            × IsSettled p
      go n ih ready_for_next e =
          let o = on_data io cb frontend b d m in
          let shrinks = on_data-shrinks io cb frontend b d m (ground (arith, size-bytes b, n)) e in
          ih o.input o.decoder o.callee (omega (arith, shrinks, h))
      go n ih need_more_data e = (_, refl, inl (λ x. cc))
      go n ih stopped e = (_, refl, inl (λ x. cc))

  -- A call that returns `Stopped` ends the loop.
  pub do_decode-stopped :
      (fuel : ℕ) (frontend : Bool) (b : Buf) (d : Decoder Buf) (m : M)
      → 0 < length (bytes b)
      → (on_data io cb frontend b d m).result ≡ stopped
      → do_decode io cb (suc fuel) frontend b d m ≡ some (on_data io cb frontend b d m)
  unfolding do_decode
  do_decode-stopped fuel frontend b d m h e = rw some_data (
      let o = on_data io cb frontend b d m in
      ap (λ r. turn io cb r (do_decode io cb fuel frontend o.input o.decoder o.callee) o) e)
    where
      some_data : (size b == 0) ≡ false
      some_data = ground (arith, size-bytes b, h)
