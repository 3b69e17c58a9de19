-- ===== src/Server.antt =====
-- The server: include/server and src/server.
pub mod Commands
pub mod Serving
pub mod Recovery
pub mod Replication
pub mod CatchUp
pub mod Handshake
pub mod Reconnect
pub mod Revival
pub mod Request
pub mod State
pub mod Info
pub mod InfoText
pub mod Handlers
pub mod Keys
pub mod Dispatch
pub mod Branches
pub mod ReadOnly
pub mod Unchanged
pub mod Logging
pub mod Replay
pub mod FrameLoop
pub mod LogEntries
pub mod Chunks
pub mod Frames
pub mod Lifecycle
pub mod Client
pub mod LogFrames
pub mod ClientStream
pub mod Replica
pub mod Worker
pub mod WorkerStream
pub mod Greeting
pub mod ReplicaChunks
pub mod ReplicaStream
pub mod PsyncStream
pub mod Mirror
pub mod Follow
pub mod System
pub mod SystemSound
pub mod Start
pub mod StartSound
pub mod SystemInvariant
pub mod SystemOrder
pub mod SystemLog
pub mod SystemLoop
pub mod LoopCommands
pub mod SystemHistory
pub mod SerialLog
pub mod EngineKept
pub mod UniqueKeys
