-- ===== src/Filter/Whole.antt =====
-- postgres_filter.cc: runs of `doDecode` that take whole messages only.
use postgres_tde.Base.{
  Bool, arith, false, if◌then◌else◌, leb, length, refl, suc, sym, true, zero, ℕ, ◌&&◌, ◌+◌, ◌<◌,
  ◌==◌, ◌∙◌, ◌≡◌, ◌≤◌,
}
use postgres_tde.Buffer.{Buffer}
use postgres_tde.Decoder.State.{State, in_sync_state, Decoder, Result, ready_for_next, Callbacks}
use postgres_tde.Decoder.Step.{on_data}
use postgres_tde.Decoder.Outcomes.{announced}

module _ (io : Buffer) {M : Type 0} (cb : Callbacks (Buffer.Buf io) M) where
  open io use {Buf, size, bytes, size-bytes}

  abbrev whole_turn : Result → State → Bool → Bool → Bool
  whole_turn ready_for_next in_sync_state whole rest = whole && rest
  whole_turn _ _ whole rest = true

  -- A run of `doDecode` takes whole messages: at each turn that takes one and stays in sync, the
  -- buffer has all of it.
  unfoldable pub takes_whole_messages : ℕ → Bool → Buf → Decoder Buf → M → Bool
  unfolding on_data
  takes_whole_messages zero frontend b d m = true
  takes_whole_messages (suc fuel) frontend b d m =
      let o = on_data io cb frontend b d m in
      let rest = takes_whole_messages fuel frontend o.input o.decoder o.callee in
      if size b == 0
      then true
      else whole_turn o.result o.decoder.state (leb (5 + announced io cb b) (size b)) rest

  pub takes_whole_messages-turn :
      (fuel : ℕ) (frontend : Bool) (b : Buf) (d : Decoder Buf) (m : M)
      → 0 < length (bytes b)
      → takes_whole_messages (suc fuel) frontend b d m ≡ true
      → let o = on_data io cb frontend b d m in
        o.result ≡ ready_for_next
        → o.decoder.state ≡ in_sync_state
        → (5 + announced io cb b ≤ length (bytes b))
          × (takes_whole_messages fuel frontend o.input o.decoder o.callee ≡ true)
  unfolding takes_whole_messages
  takes_whole_messages-turn fuel frontend b d m h whole ready sync =
      let o = on_data io cb frontend b d m in
      let e : (size b == 0) ≡ false = ground (arith, size-bytes b, h) in
      both (leb (5 + announced io cb b) (size b))
        (takes_whole_messages fuel frontend o.input o.decoder o.callee)
        (sym (rw (e, ready, sync, takes_whole_messages) refl) ∙ whole) refl
    where
      both :
          (whole rest : Bool)
          → whole && rest ≡ true
          → leb (5 + announced io cb b) (size b) ≡ whole
          → (5 + announced io cb b ≤ length (bytes b)) × (rest ≡ true)
      both true rest e f = (ground (arith, size-bytes b, f), e)
      both false rest e f = absurd (cc e)
