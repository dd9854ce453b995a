-- ===== src/Messaging.antt =====
-- messaging/: calls over a message broker (rpc_client.py, rpc_server.py), the health checks that are
-- built on them (health.py), routing.py and amqp.py. The broker and the database are arguments.
pub mod Publisher
pub mod Publishing
pub mod Rpc
pub mod Table
pub mod Fates
pub mod Health
pub mod Routing
pub mod Picks
pub mod Echo
mod Tests
