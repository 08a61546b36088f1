-- ===== src/Dashboard.antt =====
-- The dashboard's own programs: the poller (main/clientrpc.go), the reports that it sends
-- (main/server/server.go) and the local stand-in for a node (main/localserver.go).
pub mod Report
pub mod Poll
pub mod Local
