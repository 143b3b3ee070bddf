-- ===== src/Filter/Run.antt =====
-- postgres_filter.cc: `doDecode`, `onData` and `onWrite`.
use postgres_tde.Base.{
  Bool, List, Option, [], false, if◌then◌else◌, ltb, none, some, suc, true, zero, ℕ, ◌++◌, ◌==◌,
  ◌∷◌,
}
use mathlib.Core.Option
use postgres_tde.Buffer.{Buffer}
use postgres_tde.Decoder.State.{
  Decoder, Result, ready_for_next, need_more_data, stopped, Callbacks, Outcome,
}
use postgres_tde.Decoder.Step.{on_data}
use postgres_tde.Manager.State.{Tools}
use postgres_tde.Filter.State.{
  Config, Effect, inject_write, continue_reading, Link, Filter, did, callbacks,
}

module _ (io : Buffer) {M : Type 0} (cb : Callbacks (Buffer.Buf io) M) where
  open io use {Buf, size}

  -- The `switch` of the loop: go on with what is left, or end.
  abbrev pub turn : Result → Option (Outcome Buf M) → Outcome Buf M → Option (Outcome Buf M)
  turn ready_for_next rest o = rest
  turn need_more_data rest o = some o
  turn stopped rest o = some o

  -- The loop of `doDecode` with a bound on its turns; `none` when the bound is reached.
  unfoldable pub do_decode : ℕ → Bool → Buf → Decoder Buf → M → Option (Outcome Buf M)
  unfolding on_data
  do_decode zero frontend b d m = none
  do_decode (suc fuel) frontend b d m =
      let o = on_data io cb frontend b d m in
      let rest = do_decode fuel frontend o.input o.decoder o.callee in
      if size b == 0
      then some (record { result = ready_for_next; input = b; decoder = d; callee = m })
      else turn o.result rest o

module _ (io : Buffer) {Query S : Type 0} (tools : Tools Query S)
    (config : Config (Buffer.Buf io)) where
  open io use {Buf, bytes, size, empty, append, drain}

  -- Data that was decoded is moved to the rest of the filter chain, unless there is none.
  abbrev pub moved : Buf → (List ℕ → Effect Buf) → List (Effect Buf)
  moved b effect = if ltb 0 (size b) then effect (bytes b) ∷ [] else []

  -- `onData` behind `doDecode`.
  unfoldable pub after_read : Buf → Outcome Buf (Link Buf S) → Filter Buf S
  after_read backend o =
      let d = o.decoder in
      let front = d.frontend_replacement_data in
      let back = d.backend_replacement_data in
      let passed : Filter Buf S = record {
        frontend_validation_buffer = o.input;
        backend_validation_buffer = backend;
        decoder = record d { frontend_replacement_data = empty; backend_replacement_data = empty };
        link =
            did (moved back (λ bs. inject_write bs false) ++ moved front continue_reading) o.callee;
      } in
      elim o.result [
        | ready_for_next ↦ passed
        | need_more_data ↦ passed
        | stopped ↦ record {
          frontend_validation_buffer = o.input;
          backend_validation_buffer = backend;
          decoder = record d { frontend_replacement_data = drain (size front) front };
          link = o.callee;
        }
      ]

  unfoldable pub on_read : ℕ → Buf → Filter Buf S → Option (Filter Buf S)
  unfolding do_decode callbacks after_read
  on_read fuel data_ f = Option.map (after_read f.backend_validation_buffer) (
      do_decode io (callbacks io tools config) fuel true (append f.frontend_validation_buffer data_)
        f.decoder f.link)

  -- `onWrite` behind `doDecode`.
  unfoldable pub after_write : Buf → Bool → Outcome Buf (Link Buf S) → Filter Buf S
  after_write frontend end_stream o =
      let d = o.decoder in
      let back = d.backend_replacement_data in
      let passed : Filter Buf S = record {
        frontend_validation_buffer = frontend;
        backend_validation_buffer = o.input;
        decoder = record d { backend_replacement_data = empty };
        link = did (moved back (λ bs. inject_write bs end_stream)) o.callee;
      } in
      elim o.result [
        | ready_for_next ↦ passed
        | need_more_data ↦ passed
        | stopped ↦ record {
          frontend_validation_buffer = frontend;
          backend_validation_buffer = o.input;
          decoder = record d { backend_replacement_data = drain (size back) back };
          link = o.callee;
        }
      ]

  unfoldable pub on_write : ℕ → Buf → Bool → Filter Buf S → Option (Filter Buf S)
  unfolding do_decode callbacks after_write
  on_write fuel data_ end_stream f =
      Option.map (after_write f.frontend_validation_buffer end_stream) (
        do_decode io (callbacks io tools config) fuel false
          (append f.backend_validation_buffer data_) f.decoder f.link)
