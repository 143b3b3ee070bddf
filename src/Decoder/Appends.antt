-- ===== src/Decoder/Appends.antt =====
-- postgres_decoder.cc: what stands in the replacement data before a message is processed.
use postgres_tde.Base.{
  Bool, Bool-cases, List, Option, [], ap, append_assoc, false, inl, inr, none, refl, some, true, ℕ,
  ◌==◌, ◌∙◌, ◌∷◌, ◌≡◌,
}
use mathlib.Core.Option
use postgres_tde.Buffer.{Buffer}
use postgres_tde.Message.Format.{Val}
use postgres_tde.Message.Write.{write_message}
use postgres_tde.Message.Content.{write-bytes}
use postgres_tde.Protocol.{
  MsgClass, query_message, parse_message, row_description_message, data_row_message,
  command_complete_message, empty_query_response_message, error_response_message, body, identifier,
  Message, message, write_typed, read_message,
}
use postgres_tde.Decoder.Table.{
  MsgAction, on_query, on_row_description, on_data_row, on_command_complete,
  on_empty_query_response, on_error_response, on_parse, MessageProcessor,
}
use postgres_tde.Decoder.State.{Handled, Handler, Decoder, Callbacks}
use postgres_tde.Decoder.Body.{
  emit_backend_message, emit_all, hand_over, run_action, run_actions, write_replacement, write_old,
  write_back, no_command, process_message_body, cast_query, cast_parse, cast_row_description,
  cast_data_row, cast_command_complete, cast_empty_query_response, cast_error_response,
}

-- What a handler leaves, with its callee's state mapped.
abbrev pub handled_after : {A M : Type 0} → (M → M) → Handled A M → Handled A M
handled_after g h = record { kept = h.kept; emitted = h.emitted; after = g h.after }

module _ {Buf M : Type 0} (cb : Callbacks Buf M) (g : M → M) where
  abbrev CommutesWith : (k : MsgClass) → Handler M k → Type 0
  CommutesWith k handler =
      (v : Val (body k)) (m : M) → handler v (g m) ≡ handled_after g (handler v m)

  -- The handlers do not look at what `g` changes.
  pub record Commutes : Type 0 where
    pub query : CommutesWith query_message cb.process_query
    pub parse : CommutesWith parse_message cb.process_parse
    pub row_description : CommutesWith row_description_message cb.process_row_description
    pub data_row : CommutesWith data_row_message cb.process_data_row
    pub command_complete : CommutesWith command_complete_message cb.process_command_complete
    pub empty_query_response :
        CommutesWith empty_query_response_message cb.process_empty_query_response
    pub error_response : CommutesWith error_response_message cb.process_error_response

module _ (io : Buffer) (same : (c c' : io.Buf) → io.bytes c ≡ io.bytes c' → c ≡ c') where
  open io use {
    Buf, bytes, append, append-bytes, write_be, write_be-bytes, size, move_front, drain, copy_out,
    peek_be,
  }

  write_message-prefixed :
      (p : Buf) (k : MsgClass) (v : Val (body k)) (c : ℕ) (to : Buf)
      → write_message io (body k) v c (append p to) ≡ append p (write_message io (body k) v c to)
  unfolding write_message
  write_message-prefixed p k v c to =
      same _ _ (simp (write-bytes, write_be-bytes, append-bytes, append_assoc))

  write_typed-prefixed :
      (p : Buf) (r : Message) (to : Buf)
      → write_typed io r (append p to) ≡ Option.map (append p) (write_typed io r to)
  unfolding write_typed
  write_typed-prefixed p (message k v) to = go (identifier k)
    where
      go :
          (i : Option ℕ)
          → Option.map (λ c. write_message io (body k) v c (append p to)) i
            ≡ Option.map (append p) (Option.map (λ c. write_message io (body k) v c to) i)
      go none = refl
      go (some c) = ap some (write_message-prefixed p k v c to)

  module _ {M : Type 0} (cb : Callbacks Buf M) (g : M → M) (pf pb : Buf) where
    -- The decoder with `pf` and `pb` before its replacement data.
    abbrev pub prefixed : Decoder Buf → Decoder Buf
    prefixed d = record d {
      frontend_replacement_data = append pf d.frontend_replacement_data;
      backend_replacement_data = append pb d.backend_replacement_data;
    }

    abbrev with_prefix : Decoder Buf × M → Decoder Buf × M
    with_prefix r = (prefixed r.0, g r.1)

    emit_backend_message-prefixed :
        (r : Option Message) (d : Decoder Buf)
        → emit_backend_message io cb r (prefixed d) ≡ prefixed (emit_backend_message io cb r d)
    unfolding emit_backend_message
    emit_backend_message-prefixed none d = refl
    emit_backend_message-prefixed (some r) d =
        ap (λ w. written w (prefixed d)) (write_typed-prefixed pb r d.backend_replacement_data)
        ∙ go (write_typed io r d.backend_replacement_data)
      where
        written : Option Buf → Decoder Buf → Decoder Buf
        written w d = elim w [ none ↦ d | some to ↦ record d { backend_replacement_data = to } ]

        go :
            (w : Option Buf)
            → written (Option.map (append pb) w) (prefixed d) ≡ prefixed (written w d)
        go none = refl
        go (some to) = refl

    emit_all-prefixed :
        (rs : List (Option Message)) (d : Decoder Buf)
        → emit_all io cb rs (prefixed d) ≡ prefixed (emit_all io cb rs d)
    unfolding emit_all
    emit_all-prefixed [] d = refl
    emit_all-prefixed (r ∷ rs) d =
        ap (emit_all io cb rs) (emit_backend_message-prefixed r d)
        ∙ emit_all-prefixed rs (emit_backend_message io cb r d)

    hand_over-prefixed :
        (k : MsgClass) (v : Option (Val (body k))) (handler : Handler M k) (d : Decoder Buf) (m : M)
        → CommutesWith cb g k handler
        → hand_over io cb k v handler (prefixed d) (g m)
          ≡ with_prefix (hand_over io cb k v handler d m)
    unfolding hand_over
    hand_over-prefixed k none handler d m h = refl
    hand_over-prefixed k (some v) handler d m h =
        ap
          (λ (q : Handled (Val (body k)) M). (
            record (emit_all io cb q.emitted (prefixed d)) {
              replacement_message = Option.map (message k) q.kept;
            },
            q.after,
          ))
          (h v m)
        ∙ ap
            (λ (e : Decoder Buf). (
              record e { replacement_message = Option.map (message k) (handler v m).kept },
              g (handler v m).after,
            ))
            (emit_all-prefixed (handler v m).emitted d)

    run_action-prefixed :
        (a : MsgAction) (r : Message) (d : Decoder Buf) (m : M)
        → Commutes cb g
        → run_action io cb a r (prefixed d) (g m) ≡ with_prefix (run_action io cb a r d m)
    unfolding run_action
    run_action-prefixed on_query r d m h =
        hand_over-prefixed query_message (cast_query r) cb.process_query d m h.query
    run_action-prefixed on_parse r d m h =
        hand_over-prefixed parse_message (cast_parse r) cb.process_parse d m h.parse
    run_action-prefixed on_row_description r d m h =
        hand_over-prefixed row_description_message (cast_row_description r)
          cb.process_row_description d m h.row_description
    run_action-prefixed on_data_row r d m h =
        hand_over-prefixed data_row_message (cast_data_row r) cb.process_data_row d m h.data_row
    run_action-prefixed on_command_complete r d m h =
        hand_over-prefixed command_complete_message (cast_command_complete r)
          cb.process_command_complete d m h.command_complete
    run_action-prefixed on_empty_query_response r d m h =
        hand_over-prefixed empty_query_response_message (cast_empty_query_response r)
          cb.process_empty_query_response d m h.empty_query_response
    run_action-prefixed on_error_response r d m h =
        hand_over-prefixed error_response_message (cast_error_response r) cb.process_error_response
          d m h.error_response

    run_actions-prefixed :
        (as_ : List MsgAction) (d : Decoder Buf) (m : M)
        → Commutes cb g
        → run_actions io cb as_ (prefixed d) (g m) ≡ with_prefix (run_actions io cb as_ d m)
    unfolding run_actions
    run_actions-prefixed [] d m h = refl
    run_actions-prefixed (a ∷ as_) d m h =
        go d.replacement_message refl (λ d m. run_actions-prefixed as_ d m h)
      where
        go :
            (r : Option Message)
            → d.replacement_message ≡ r
            → ((d : Decoder Buf) (m : M)
                → run_actions io cb as_ (prefixed d) (g m)
                  ≡ with_prefix (run_actions io cb as_ d m))
            → run_actions io cb (a ∷ as_) (prefixed d) (g m)
              ≡ with_prefix (run_actions io cb (a ∷ as_) d m)
        go none e ih = rw (e, run_actions) refl
        go (some r) e ih =
            rw (e, run_actions)
              (ap (λ (q : Decoder Buf × M). run_actions io cb as_ q.0 q.1)
                  (run_action-prefixed a r d m h)
                ∙ ih (run_action io cb a r d m).0 (run_action io cb a r d m).1)

    write_old-prefixed :
        (p : Buf) (command : ℕ) (data_ to : Buf)
        → write_old io cb command data_ (append p to) ≡ append p (write_old io cb command data_ to)
    unfolding write_old
    write_old-prefixed p command data_ to = elim (Bool-cases (command == no_command)) [
      | inl e ↦ rw (e, write_old) (same _ _ (simp (write_be-bytes, append-bytes, append_assoc)))
      | inr e ↦ rw (e, write_old) (same _ _ (simp (write_be-bytes, append-bytes, append_assoc)))
    ]

    write_back-prefixed :
        (p : Buf) (r : Message) (command : ℕ) (data_ to : Buf)
        → write_back io cb r command data_ (append p to)
          ≡ append p (write_back io cb r command data_ to)
    unfolding write_back
    write_back-prefixed p r command data_ to =
        ap (λ w. back w (append p to)) (write_typed-prefixed p r to) ∙ go (write_typed io r to)
      where
        back : Option Buf → Buf → Buf
        back w to = elim w [ some written ↦ written | none ↦ write_old io cb command data_ to ]

        go : (w : Option Buf) → back (Option.map (append p) w) (append p to) ≡ append p (back w to)
        go none = write_old-prefixed p command data_ to
        go (some to) = refl

    write_replacement-prefixed :
        (frontend : Bool) (data_ : Buf) (d : Decoder Buf)
        → write_replacement io cb frontend data_ (prefixed d)
          ≡ prefixed (write_replacement io cb frontend data_ d)
    unfolding write_replacement
    write_replacement-prefixed frontend data_ d = go frontend d.replacement_message refl
      where
        go :
            (f : Bool) (r : Option Message)
            → d.replacement_message ≡ r
            → write_replacement io cb f data_ (prefixed d)
              ≡ prefixed (write_replacement io cb f data_ d)
        go true none e = rw (e, write_replacement) refl
        go false none e = rw (e, write_replacement) refl
        go true (some r) e =
            rw (e, write_replacement)
              (ap (λ (to : Buf). record (prefixed d) { frontend_replacement_data = to })
                (write_back-prefixed pf r d.command data_ d.frontend_replacement_data))
        go false (some r) e =
            rw (e, write_replacement)
              (ap (λ (to : Buf). record (prefixed d) { backend_replacement_data = to })
                (write_back-prefixed pb r d.command data_ d.backend_replacement_data))

    pub process_message_body-prefixed :
        (data_ : Buf) (frontend : Bool) (p : MessageProcessor) (r : Message) (d : Decoder Buf)
        (m : M)
        → Commutes cb g
        → process_message_body io cb data_ frontend p r (prefixed d) (g m)
          ≡ with_prefix (process_message_body io cb data_ frontend p r d m)
    unfolding process_message_body
    process_message_body-prefixed data_ frontend p r d m h =
        let read : Decoder Buf = record d {
          replacement_message = some (read_message io r data_ (size data_));
        } in
        let acted = run_actions io cb p.actions read m in
        ap (λ (q : Decoder Buf × M). (write_replacement io cb frontend data_ q.0, q.1))
          (run_actions-prefixed p.actions read m h)
        ∙ ap (λ (q : Decoder Buf). (q, g acted.1))
            (write_replacement-prefixed frontend data_ acted.0)
