-- ===== src/Lib.antt =====
-- ocpp-go: a library for the Open Charge Point Protocol over JSON and WebSocket. A charge point and
-- a central system exchange calls, each answered by a result or an error. This development models
-- the parts of the library that keep state between messages.
--
-- * internal/callbackqueue (Callbacks): the facades register a callback for each request that they
--   send, by client and request ID, and take it out again when the answer, an error or a
--   disconnection arrives. `try_queue`, `dequeue` and `drain_all` are TryQueue, Dequeue and DrainAll;
--   the two-level map is an association list of association lists.
-- * ocppj/queue.go (Ocppj/Queue): the queue of outgoing requests of an endpoint. Each method of
--   FIFOClientQueue is the function of its name. Ocppj/QueueMap is FIFOQueueMap, the queues of a
--   server by client.
-- * ocppj/state.go (Ocppj/State): the request that waits for its answer, for a client, and for each
--   client of a server.
-- * ocppj/dispatcher.go (Ocppj/Bundle, Ocppj/Dispatcher): the client's dispatcher, which sends the
--   queue's front, and completes or cancels it; Ocppj/Dispatcher/Pump is its message pump. A method, or one round of its message pump for the arm of the
--   `select` that was taken, is a function on one state, so that interleavings are sequences of
--   them.
-- * ocppj/dispatcher.go (Ocppj/ServerDispatcher): the server's dispatcher, with one pump for all
--   clients and queues by client. Its Line is the abstract view of one client, a queue with ledgers
--   and the changes that it allows; Clients, Completing, Methods, Sending, Loop, Arms, Rounds and
--   Closing show of each part that it acts on one client's line by such changes.
-- * ocppj/ocppj.go and ocppj/validation.go (Ocppj/Endpoint, Ocppj/Message, Ocppj/Message/Parse): an
--   endpoint with its dialect and profiles, the messages that it creates and encodes, and
--   `parse_message`, which is ParseMessage on the decoded array. encoding/json, reflection, fmt and
--   the validator are the fields of the record `Library`; the round trips assume of a payload that
--   it decodes to what was encoded, and that a message type survives being a float.
-- * ocppj/client.go and ocppj/panic.go (Ocppj/Client, Ocppj/Client/Handling): the client endpoint
--   over the dispatcher and the codec. What the consumer's handlers and the hook do, and whether
--   they panic, is given by the record `Around`; the calls of them are listed in the state.
-- * ocppj/server.go (Ocppj/Server, Ocppj/Server/Handling): the server endpoint, in the same way, with
--   the client of each message and call.
-- * ocpp/ocpp.go and the errors of ocppj/ocppj.go (Ocpp): errors, and how errors.Is matches them.
--   Ocpp/Profile is the profiles of ocpp/ocpp.go, sets of features by name.
-- * ocpp1.6/configmanager (ConfigManager): the configuration keys of a charge point. Memory is the
--   store of strings behind the `*string` values, Config the configuration and its copies
--   (configuration.go, helpers.go), Keys and Defaults the tables (keys.go, defaults.go), Manager
--   the manager (manager.go), Wiring the answers to requests (wiring.go).
--
-- Base and Dict hold what the parts share: the library's names, tests, lists over native numbers,
-- and association lists with the laws of a map. Each Tests module has runs at concrete values.
--
-- A mutex makes a method one step of the model. The consumer's functions (a callback, a handler, a
-- validator, the write of a network client) are parameters or values: an update handler may write
-- to the memory, return an error or panic. Loops run over
-- lists, but for the one that sends in the server's pump: its fuel is the length of the client's
-- queue and one more, since every turn but the last takes a request out of the queue.
--
-- Not modelled: the WebSocket layer, the facades, the message types, and the tools for code generation and schema
-- checks. Logging and metrics have no effect on the state. Maps are iterated in the order of their
-- association list, where Go's order is random: no theorem depends on it. Nil and empty slices are
-- not told apart.
--
--
-- What a timer or a context does to the server's pump arrives as a token, and any token may arrive.
-- A round of a pump is one step, although methods may run between its parts.
-- The server's SendRequest looks the queue up and pushes in one step. Where a DeleteClient runs in
-- between, the push goes to a queue that is no client's any more and changes nothing that the model
-- holds; what is left of the call, its signal, is a step of its own.
-- A Request of the model is not nil; where a call or a pending request holds nil, the model has none.
pub mod Base
pub mod Dict
pub mod Callbacks
pub mod ConfigManager
pub mod Ocpp
pub mod Ocppj
