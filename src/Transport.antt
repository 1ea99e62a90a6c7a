-- ===== src/Transport.antt =====
-- code/device-agent/common/Plugins: how the agent and a plug-in host exchange messages over a pair of
-- named pipes.
pub mod Bytes
pub mod Packets
pub mod Pipe
pub mod Queue
pub mod Monitor
