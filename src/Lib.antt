-- ===== src/Lib.antt =====
-- Verification of the client's core logic. The repository is a Qt client for a card game server;
-- the parts modelled here are the ones that decide something by themselves:
--
-- * `Session` is src/SessionCoordinator.cpp and SessionCoordinator.h: the queues of secure-store
--   operations, one for each server profile. `Session.Fifo` has the state and the operations
--   (`enqueueTokenOp` is `enqueue_token_op`, `startFrontTokenOp` is `start_front_token_op`, the
--   callback inside it is `accept`, `complete_failed` and `complete_done`, joined by `on_result` in
--   `Session.Fifo.System`). `Session.Fifo.Invariant` says what holds of one profile's queue, and
--   `Starts`, `Issues`, `Enqueues`, `Completes`, `Invalidates`, `Restores` are the operations' lemmas.
--   `System` is the queues' history: actions of the coordinator and callbacks of the store, with
--   `Attempts` and `Replays` on callbacks, `Retries` on `retryStuckProfileTokenOp`, and `Admissions`,
--   `Currents` and `Endpoints` on `invalidateProfileCredentialForEndpointChange`.
-- * `Tokens` is src/TokenEnvelope.cpp and src/TokenValidation.cpp: the text in which a token is
--   stored with the endpoint that it belongs to.
-- * `Focus` is src/FocusController.cpp: the graph of focus nodes (`Registry`: registering and
--   removing; `Navigation`: moves, zone cycling, modal levels, snapshots; `System`: the public
--   operations as commands).
-- * `Input` is src/InputMapper.cpp (bindings, holds) and `Input.Router` is src/InputRouter.cpp
--   (which events are consumed, and the suspension by text entry). `object_destroyed` there is what
--   the destruction of the target does to the router, whose reference to it becomes null by itself.
-- * `Compatibility` is src/domain/ContractRevision.cpp and src/CompatibilityEvaluator.cpp: revisions
--   of the contract, and whether client and server fit.
-- * `Json` is src/domain/RawJson.cpp and RawJson.h: `Json.Parser` is the class `Parser` (with
--   `Numbers` and `Strings`), `Json.Printer`
--   is `toJsonBytes` with `RawNumber::literal`. `Points`, `Texts` and `Numerals` read back what is
--   written for a code point, a text and a number, `RoundTrip` a whole value, with `Lexical` on how
--   what is written starts. `Sound` goes the other way, from what is read to what is written, and
--   `Bounds` says what the limits mean. `Rejects` is on arrays that are nested too deep.
--   `Integers` is `RawNumber::toExactInt64` and `parseMagnitudeDigits`, `Surrogates` is
--   `hasLoneSurrogate`, `Conversion` is `toExactQJson`, with the values of Qt as a parameter,
--   and `Access` is `makeObject` and the look-ups in an object.
-- * `Common` has what the modules share: Boolean tests, lists, texts as lists of UTF-16 units, and
--   `QHash` as an association list with one entry for a key.
--
-- The router passes key events to the mapper. The coordinator's queues hand what they read and write
-- to the token store, which uses the envelope. Each part is otherwise independent.
--
-- Numbers are natural numbers. The counters of the coordinator are 64 bits wide and count from 1 by
-- one; that they do not wrap is assumed there in a comment, and here. The registration counter of the
-- focus controller is an `int`, whose overflow is not modelled. `Tokens` and `Compatibility` keep the
-- bounds of `int` and `qint64` as laws of the decimal reader. Loops are structural recursions, so nothing here
-- runs on fuel but `print` of `Common.Decimals.Ascii`, whose fuel is the number plus one.
--
-- The loops of the JSON parser end because each turn uses up one of its limits, and the model counts
-- those down. A byte is a number below 256, and its masks and shifts are written as quotients and
-- remainders; a limit is a natural number. Running out of memory (`bad_alloc`) is not modelled.
--
-- Qt itself is not modelled. What the code asks of it is a parameter: `Common.Decimals` for the
-- printing and reading of numbers, `toLongLong` on the digits of an exponent (`ReadsInt64`),
-- `QtFocus` for the focus objects, the geometry fallback of the focus controller, the store's answers
-- (`Event`), and the continuations of store operations, of which a history says what they do to the queues. Slots that call back into an object during a
-- signal are not modelled, and neither are the rest of the coordinator (its published state, the
-- probe, the identity request), the network, the decoding of the server's JSON into records, the conversion from
-- `QJsonValue`, the assets and the
-- views.
pub mod Common
pub mod Session
pub mod Tokens
pub mod Focus
pub mod Input
pub mod Compatibility
pub mod Json
