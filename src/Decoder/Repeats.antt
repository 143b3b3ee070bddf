-- ===== src/Decoder/Repeats.antt =====
-- `DecoderImpl::initialize`: what is repeated in the messages of the decoder's tables.
use postgres_tde.Base.{Bool, Bool-cases, List, [], false, inl, inr, true, ℕ, ◌==◌, ◌∷◌}
use postgres_tde.Message.Stable.{PlainRepeats}
use postgres_tde.Message.Content.{All}
use postgres_tde.Protocol.{body}
use postgres_tde.Decoder.Table.{MessageProcessor, find_processor, message_group}

pub find_processor-PlainRepeats :
    (command : ℕ) (group : List (ℕ × MessageProcessor))
    → All (λ entry. PlainRepeats (body entry.1.factory)) group
    → PlainRepeats (body (find_processor command group).factory)
unfolding find_processor
find_processor-PlainRepeats command [] h = (tt, tt)
find_processor-PlainRepeats command ((c, p) ∷ rest) h = elim (Bool-cases (c == command)) [
  | inl e ↦ rw e h.0
  | inr e ↦ rw e (find_processor-PlainRepeats command rest h.1)
]

pub message_group-PlainRepeats :
    (frontend : Bool) → All (λ entry. PlainRepeats (body entry.1.factory)) (message_group frontend)
message_group-PlainRepeats true = search
message_group-PlainRepeats false = search
