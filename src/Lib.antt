-- ===== src/Lib.antt =====
-- postgres_tde: a verification library for the transparent data encryption filter for PostgreSQL,
-- an Envoy network filter in postgres_tde/source that rewrites the queries of a client, so that
-- columns are encrypted before they reach the server, and decrypts the rows that come back.
--
-- The parts, in the order in which data passes them, with paths below
-- postgres_tde/source/filters/network/postgres_tde unless another is given:
--
-- - Buffer: Envoy's `Buffer::Instance`, which the repository does not hold, as an interface whose
--   laws are the documented effect of its calls, and one instance, `list_buffer`.
-- - Message: postgres_message.h and postgres_message.cc. A field type of the source is a format
--   (`Message.Format.Fmt`), and `validate`, `read`, `write` and `getSize` are functions by recursion
--   on it; positions and sizes are 64-bit numbers with their wrap-around written out, and the sizes
--   of arrays are summed up in 16 bits as in the source.
-- - Protocol: postgres_protocol.h and postgres_protocol.cc, the message classes.
-- - Decoder: postgres_decoder.h and postgres_decoder.cc. `Decoder.State` is the decoder's fields and
--   the callbacks, `Decoder.Table` the table of known messages, `Decoder.Body` the work on one
--   message, `Decoder.Step` the function `onData` with all its handlers, a step from a buffer, the
--   fields and the callee's state to the same. `Decoder.Outcomes`, `Decoder.Continue` and
--   `Decoder.Stable` compare a call with one on a buffer that has more data, and `Decoder.Appends`
--   and `Decoder.Prefix` with one whose replacement data is not empty.
-- - Manager: postgres_mutation_manager.cc. The parser of SQL and the mutators are parameters
--   (`Manager.State.Tools`), whose calls return: a result or an error.
-- - Filter: postgres_filter.cc: `onData`, `onWrite`, `doDecode` and the callbacks that the decoder
--   calls. What is done to the connection is a list of effects. `Filter.New` has the constructors.
--   `Filter.Turns`, `Filter.Whole`, `Filter.Pieces`, `Filter.Flush`, `Filter.Stream` and
--   `Filter.StreamBack` are about data that arrives in pieces.
-- - Sql: common/sqlutils/ast of postgres_tde/source: the traversal of a query (visitor.cc) and its
--   printer (dump_visitor.cc), over the parser's trees. Where the source panics or uses a null
--   pointer, the result says so. A parameter, a date and an interval are literals for the parser's
--   `isLiteral`, and no visitor reads them.
-- - Mutation: how a change of a query or of a message ends: with a result, with the text of an
--   error, or with the end of the program.
-- - Config: config/column_config.h and config/database_encryption_config.h as records of what the
--   getters return, and config/dummy_config.h.
-- - Mutators: mutators/base_mutator.cc, mutators/blind_index.cc and mutators/probabilistic_join.cc.
--   A mutator is a visitor with overrides (`Sql.Fields.Overrides`) that records expressions, and loops
--   that change what was recorded. A loop is a pass over the query in the order of the traversal
--   (`Mutators.Amend`), or over its INSERT and UPDATE statements (`Mutators.Passes`). The two
--   mutators that add columns share `Mutators.Derived`, by the record `Deriving` of what they differ
--   in. HMAC, SHA-256 and hexadecimal digits are parameters (`Mutators.Literals.Digests`).
-- - Encryption: common/crypto/utility_ext_impl.cc of postgres_tde/source, with BoringSSL as a
--   parameter, and mutators/encryption.cc: the check of columns (`Encryption.Guard`, and
--   `Encryption.Clauses` and `Encryption.Conditions` for the parts of a statement), the values of a
--   statement, the query, the row description and the data rows. `Encryption.Scopes` says what the
--   names of a FROM stand for, apart from the code, and `Encryption.ScopedJoins`,
--   `Encryption.ScopedClauses` and `Encryption.Scoped` compare the check of columns with it. The
--   `ASSERT` on the size of a key, which only debug builds have, is left out.
-- - Chain: the three mutators in the order of the constructor of `MutationManagerImpl`. A mutator of
--   the source can also end the program, so that its result is a `Mutation.Mutated` here, and not
--   the `Result` of the interface that `Manager` is written against.
-- - Examples: the theorems at concrete inputs.
--
-- Loops: the loops of the codec are recursions on a count that the loop has (the size of an array,
-- the bytes left), `doDecode` has a bound on its turns, and the theorem on it says that one turn more
-- than the buffer has bytes is enough.
--
-- Not modelled: logging and `toString`, statistics, the release of memory, and the registration with
-- Envoy. A float literal is given as the bytes of its `double` and the text that a stream prints. The
-- copy of http_parser under bazel is another project's.
pub mod Base
pub mod Buffer
pub mod Mutation
pub mod Config
pub mod Message
pub mod Protocol
pub mod Decoder
pub mod Manager
pub mod Filter
pub mod Sql
pub mod Mutators
pub mod Encryption
pub mod Chain
pub mod Examples
