-- ===== src/Message/Recovers.antt =====
-- What it is to read a value back, for the items of an array.
use postgres_tde.Base.{List, [], ap, length, sym, ℕ, ◌∙◌, ◌∷◌, ◌≡◌}
use postgres_tde.Message.Format.{Cursor, Reading}
use postgres_tde.Message.Content.{All, Each, concat_map}
use postgres_tde.Message.Place.{At, past, past-nil, past-append, At-first, At-rest}
use postgres_tde.Message.Read.{finished, read_items, push_read}

-- What `item` does at a value's encoding, starting from an object of the value's shape.
abbrev pub Recovering :
    {A : Type 0}
    → List ℕ
    → (A → List ℕ)
    → (A → A → Type 0)
    → (A → A → Type 0)
    → (A → Cursor → Reading A)
    → A
    → Type 0
Recovering {A} bs enc shape same item v =
    (o : A) (c : Cursor)
    → shape v o
    → At bs c (enc v)
    → (w : A) × (item o c ≡ finished w (past c (enc v))) × same v w

pub read_items-recovers :
    {A : Type 0} (bs : List ℕ) (enc : A → List ℕ) (shape same : A → A → Type 0)
    (item : A → Cursor → Reading A) (vs os : List A)
    → All (Recovering bs enc shape same item) vs
    → Each shape vs os
    → (c : Cursor) → At bs c (concat_map enc vs)
    → (ws : List A) × (read_items item (length vs) os c ≡ (ws, past c (concat_map enc vs)))
      × Each same vs ws
unfolding read_items concat_map
read_items-recovers bs enc shape same item [] [] h s c at =
    ([], ap (λ d. ([], d)) (sym (past-nil c)), tt)
read_items-recovers bs enc shape same item [] (o ∷ os) h s c at = absurd s
read_items-recovers bs enc shape same item (v ∷ vs) [] h s c at = absurd s
read_items-recovers bs enc shape same item (v ∷ vs) (o ∷ os) h s c at =
    let (w, e, q) = h.0 o c s.0 (At-first (enc v) (concat_map enc vs) at) in
    let (ws, es, qs) =
      read_items-recovers bs enc shape same item vs os h.1 s.1 (past c (enc v))
        (At-rest (enc v) (concat_map enc vs) at) in
    (
      w ∷ ws,
      ap (λ r. push_read r.object (read_items item (length vs) os r.cursor)) e
          ∙ ap (push_read w) es
          ∙ ap (λ d. (w ∷ ws, d)) (past-append c (enc v) (concat_map enc vs)),
      (q, qs),
    )

abbrev pub span : ℕ → ℕ → Cursor
span pos left = record { pos = pos; left = left }
