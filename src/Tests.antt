-- ===== src/Tests.antt =====
-- Instances of the parameters, and runs of the theorems on concrete inputs.
mod Codec
mod Server
mod Parts
mod Streams
mod Snapshots
mod Summaries
mod Paths
mod Hydrating
mod Enriching
mod Streaming
mod Archives
mod Assembling
mod Consuming
mod Starting
