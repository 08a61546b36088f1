-- ===== src/Rpc.antt =====
-- The JSON-RPC package (main/rpc): both ends of a websocket or HTTP connection.
pub mod Message
pub mod Util
pub mod Handler
pub mod Server
pub mod Websocket
pub mod Client
pub mod RoundTrip
pub mod Link
