-- ===== src/Filter/Sent.antt =====
-- postgres_filter.cc: the bytes that the filter sends to the server and to the client.
use postgres_tde.Base.{
  Bool, Bool-cases, List, [], ap, append-nil, append_assoc, arith, false, inl, inr, ltb, refl, sym,
  ℕ, ◌++◌, ◌∙◌, ◌∷◌, ◌≡◌,
}
use postgres_tde.Buffer.{Buffer}
use postgres_tde.Manager.State.{Tools}
use postgres_tde.Filter.State.{
  Config, Effect, inject_write, inject_read, continue_reading, add_bytes_sent_callback,
  upstream_secured, upstream_failed, close_connection, abort,
}
use postgres_tde.Filter.Run.{moved}
use postgres_tde.Filter.Turns.{empty_of_length}

-- The bytes that effects send to the server, and to the client.
abbrev pub sent_upstream : {Buf : Type 0} → List (Effect Buf) → List ℕ
sent_upstream [] = []
sent_upstream (continue_reading bs ∷ es) = bs ++ sent_upstream es
sent_upstream (inject_read bs ∷ es) = bs ++ sent_upstream es
sent_upstream (_ ∷ es) = sent_upstream es

abbrev pub sent_downstream : {Buf : Type 0} → List (Effect Buf) → List ℕ
sent_downstream [] = []
sent_downstream (inject_write bs end_stream ∷ es) = bs ++ sent_downstream es
sent_downstream (_ ∷ es) = sent_downstream es

pub sent_upstream-append :
    {Buf : Type 0} (es fs : List (Effect Buf))
    → sent_upstream (es ++ fs) ≡ sent_upstream es ++ sent_upstream fs
sent_upstream-append [] fs = refl
sent_upstream-append (inject_write bs end_stream ∷ es) fs = sent_upstream-append es fs
sent_upstream-append (inject_read bs ∷ es) fs =
    ap (λ l. bs ++ l) (sent_upstream-append es fs) ∙ sym (append_assoc bs _ _)
sent_upstream-append (continue_reading bs ∷ es) fs =
    ap (λ l. bs ++ l) (sent_upstream-append es fs) ∙ sym (append_assoc bs _ _)
sent_upstream-append (add_bytes_sent_callback ∷ es) fs = sent_upstream-append es fs
sent_upstream-append (upstream_secured ∷ es) fs = sent_upstream-append es fs
sent_upstream-append (upstream_failed ∷ es) fs = sent_upstream-append es fs
sent_upstream-append (close_connection ∷ es) fs = sent_upstream-append es fs
sent_upstream-append (abort ∷ es) fs = sent_upstream-append es fs

pub sent_downstream-append :
    {Buf : Type 0} (es fs : List (Effect Buf))
    → sent_downstream (es ++ fs) ≡ sent_downstream es ++ sent_downstream fs
sent_downstream-append [] fs = refl
sent_downstream-append (inject_write bs end_stream ∷ es) fs =
    ap (λ l. bs ++ l) (sent_downstream-append es fs) ∙ sym (append_assoc bs _ _)
sent_downstream-append (inject_read bs ∷ es) fs = sent_downstream-append es fs
sent_downstream-append (continue_reading bs ∷ es) fs = sent_downstream-append es fs
sent_downstream-append (add_bytes_sent_callback ∷ es) fs = sent_downstream-append es fs
sent_downstream-append (upstream_secured ∷ es) fs = sent_downstream-append es fs
sent_downstream-append (upstream_failed ∷ es) fs = sent_downstream-append es fs
sent_downstream-append (close_connection ∷ es) fs = sent_downstream-append es fs
sent_downstream-append (abort ∷ es) fs = sent_downstream-append es fs

-- What three parts send.
pub sent_upstream-append3 :
    {Buf : Type 0} (es fs gs : List (Effect Buf))
    → sent_upstream ((es ++ fs) ++ gs) ≡ sent_upstream es ++ (sent_upstream fs ++ sent_upstream gs)
sent_upstream-append3 es fs gs =
    sent_upstream-append (es ++ fs) gs
    ∙ ap (λ i. i ++ sent_upstream gs) (sent_upstream-append es fs)
    ∙ append_assoc (sent_upstream es) (sent_upstream fs) (sent_upstream gs)

pub sent_downstream-append3 :
    {Buf : Type 0} (es fs gs : List (Effect Buf))
    → sent_downstream ((es ++ fs) ++ gs)
      ≡ sent_downstream es ++ (sent_downstream fs ++ sent_downstream gs)
sent_downstream-append3 es fs gs =
    sent_downstream-append (es ++ fs) gs
    ∙ ap (λ i. i ++ sent_downstream gs) (sent_downstream-append es fs)
    ∙ append_assoc (sent_downstream es) (sent_downstream fs) (sent_downstream gs)

module _ (io : Buffer) {Query S : Type 0} (tools : Tools Query S) (config : Config io.Buf) where
  open io use {Buf, bytes, size, size-bytes}

  nothing_moved : (b : Buf) → ltb 0 (size b) ≡ false → bytes b ≡ []
  nothing_moved b e = empty_of_length (bytes b) (ground (arith, size-bytes b, e))

  pub moved-continue_reading :
      (b : Buf)
      → (sent_upstream (moved io tools config b continue_reading) ≡ bytes b)
        × (sent_downstream (moved io tools config b continue_reading) ≡ [])
  moved-continue_reading b = elim (Bool-cases (ltb 0 (size b))) [
    | inl e ↦ rw e (append-nil (bytes b), refl)
    | inr e ↦ rw e (sym (nothing_moved b e), refl)
  ]

  pub moved-inject_write :
      (b : Buf) (end_stream : Bool)
      → (sent_upstream (moved io tools config b (λ bs. inject_write bs end_stream)) ≡ [])
        × (sent_downstream (moved io tools config b (λ bs. inject_write bs end_stream)) ≡ bytes b)
  moved-inject_write b end_stream = elim (Bool-cases (ltb 0 (size b))) [
    | inl e ↦ rw e (refl, append-nil (bytes b))
    | inr e ↦ rw e (refl, sym (nothing_moved b e))
  ]
