-- ===== src/Ocppj.antt =====
-- ocppj: the OCPP-J layer. Queues of outgoing requests, the pending request, and the dispatcher of a
-- client endpoint.
pub mod Queue
pub mod QueueMap
pub mod State
pub mod Bundle
pub mod Dispatcher
pub mod ServerDispatcher
pub mod Endpoint
pub mod Message
pub mod Client
pub mod Server
mod Tests
