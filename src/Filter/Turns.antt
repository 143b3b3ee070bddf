-- ===== src/Filter/Turns.antt =====
-- postgres_filter.cc: the turns of `doDecode`.
use postgres_tde.Base.{
  Bool, Bool-cases, List, [], ap, arith, false, inl, inr, length, refl, some, subst, suc, sym, true,
  zero, ℕ, ◌<◌, ◌==◌, ◌∙◌, ◌∷◌, ◌≡◌,
}
use postgres_tde.Buffer.{Buffer}
use postgres_tde.Decoder.State.{
  out_of_sync_state, Decoder, Result, ready_for_next, need_more_data, stopped, Callbacks, Outcome,
}
use postgres_tde.Decoder.Step.{on_data}
use postgres_tde.Decoder.Progress.{on_data-shrinks}
use postgres_tde.Decoder.Modes.{IsIgnoring, lost, on_data_drops}
use postgres_tde.Filter.Run.{do_decode, turn}

pub empty_of_length : (xs : List ℕ) → length xs ≡ 0 → xs ≡ []
empty_of_length [] e = refl
empty_of_length (x ∷ xs) e = absurd (omega (arith, e))

module _ (io : Buffer) {M : Type 0} (cb : Callbacks (Buffer.Buf io) M) where
  open io use {Buf, size, bytes, size-bytes}

  abbrev pub finished_with : Buf → Decoder Buf → M → Outcome Buf M
  finished_with b d m = record { result = ready_for_next; input = b; decoder = d; callee = m }

  pub do_decode_empty :
      (fuel : ℕ) (frontend : Bool) (b : Buf) (d : Decoder Buf) (m : M)
      → bytes b ≡ []
      → 0 < fuel
      → do_decode io cb fuel frontend b d m ≡ some (finished_with b d m)
  unfolding do_decode
  do_decode_empty zero frontend b d m h k = absurd (omega (arith, k))
  do_decode_empty (suc fuel) frontend b d m h k =
      let e : (size b == 0) ≡ true = ground (arith, size-bytes b, ap length h) in rw e refl

  pub do_decode_some :
      (fuel : ℕ) (frontend : Bool) (b : Buf) (d : Decoder Buf) (m : M)
      → 0 < length (bytes b)
      → let o = on_data io cb frontend b d m in
        do_decode io cb (suc fuel) frontend b d m
        ≡ turn io cb o.result (do_decode io cb fuel frontend o.input o.decoder o.callee) o
  unfolding do_decode
  do_decode_some fuel frontend b d m h =
      let e : (size b == 0) ≡ false = ground (arith, size-bytes b, h) in rw e refl

  pub do_decode_ready :
      (fuel : ℕ) (frontend : Bool) (b : Buf) (d : Decoder Buf) (m : M)
      → 0 < length (bytes b)
      → let o = on_data io cb frontend b d m in
        o.result ≡ ready_for_next
        → do_decode io cb (suc fuel) frontend b d m
          ≡ do_decode io cb fuel frontend o.input o.decoder o.callee
  do_decode_ready fuel frontend b d m h e =
      let o = on_data io cb frontend b d m in
      do_decode_some fuel frontend b d m h
      ∙ ap (λ r. turn io cb r (do_decode io cb fuel frontend o.input o.decoder o.callee) o) e

  -- More turns than enough change nothing.
  pub do_decode_fuel :
      (fuel fuel' : ℕ) (frontend : Bool) (b : Buf) (d : Decoder Buf) (m : M)
      → length (bytes b) < fuel
      → length (bytes b) < fuel'
      → do_decode io cb fuel frontend b d m ≡ do_decode io cb fuel' frontend b d m
  do_decode_fuel zero fuel' frontend b d m h h' = absurd (omega (arith, h))
  do_decode_fuel (suc fuel) zero frontend b d m h h' = absurd (omega (arith, h'))
  do_decode_fuel (suc fuel) (suc fuel') frontend b d m h h' = elim (Bool-cases (size b == 0)) [
    | inl e ↦
        do_decode_empty (suc fuel) frontend b d m
          (empty_of_length (bytes b) (ground (arith, size-bytes b, e))) (omega arith)
        ∙ sym (
            do_decode_empty (suc fuel') frontend b d m
              (empty_of_length (bytes b) (ground (arith, size-bytes b, e))) (omega arith))
    | inr e ↦
        let some_data : 0 < length (bytes b) = ground (arith, size-bytes b, e) in
        do_decode_some fuel frontend b d m some_data
        ∙ go (λ b d m. do_decode_fuel fuel fuel' frontend b d m) some_data
            (on_data io cb frontend b d m).result refl
        ∙ sym (do_decode_some fuel' frontend b d m some_data)
  ]
    where
      o : Outcome Buf M
      o = on_data io cb frontend b d m

      go :
          ((b : Buf) (d : Decoder Buf) (m : M)
            → length (bytes b) < fuel
            → length (bytes b) < fuel'
            → do_decode io cb fuel frontend b d m ≡ do_decode io cb fuel' frontend b d m)
          → 0 < length (bytes b)
          → (r : Result) → (on_data io cb frontend b d m).result ≡ r
          → turn io cb r (do_decode io cb fuel frontend o.input o.decoder o.callee) o
            ≡ turn io cb r (do_decode io cb fuel' frontend o.input o.decoder o.callee) o
      go ih some_data ready_for_next e =
          let shrinks = on_data-shrinks io cb frontend b d m some_data e in
          ih o.input o.decoder o.callee (omega (arith, shrinks, h)) (omega (arith, shrinks, h'))
      go ih some_data need_more_data e = refl
      go ih some_data stopped e = refl

  -- Out of sync, where buffers with the same bytes are the same, a run with enough turns drops all of
  -- its data and changes neither the decoder nor the callee.
  pub do_decode_lost :
      ((c c' : Buf) → bytes c ≡ bytes c' → c ≡ c')
      → (fuel : ℕ) (frontend : Bool) (b e : Buf) (d : Decoder Buf) (m : M)
      → d.state ≡ out_of_sync_state
      → bytes e ≡ []
      → length (bytes b) < fuel
      → 1 < fuel
      → do_decode io cb fuel frontend b d m ≡ some (finished_with e d m)
  do_decode_lost same zero frontend b e d m s z h k = absurd (omega (arith, h))
  do_decode_lost same (suc zero) frontend b e d m s z h k = absurd (omega (arith, k))
  do_decode_lost same (suc (suc fuel)) frontend b e d m s z h k = elim (Bool-cases (size b == 0)) [
    | inl q ↦
        let nothing = empty_of_length (bytes b) (ground (arith, size-bytes b, q)) in
        do_decode_empty (suc (suc fuel)) frontend b d m nothing (omega arith)
        ∙ ap (λ i. some (finished_with i d m)) (same b e (nothing ∙ sym z))
    | inr q ↦
        let (ready, gone, decoder, callee) =
          on_data_drops io cb frontend b d m (subst (IsIgnoring io cb) (sym s) lost) in
        do_decode_ready (suc fuel) frontend b d m (ground (arith, size-bytes b, q)) ready
        ∙ do_decode_empty (suc fuel) frontend _ _ _ gone (omega arith)
        ∙ ap
            (λ i. some (
              finished_with i (on_data io cb frontend b d m).decoder
                (on_data io cb frontend b d m).callee))
            (same (on_data io cb frontend b d m).input e (gone ∙ sym z))
        ∙ ap (λ i. some (finished_with e i (on_data io cb frontend b d m).callee)) decoder
        ∙ ap (λ i. some (finished_with e d i)) callee
  ]
