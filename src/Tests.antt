-- ===== src/Tests.antt =====
-- The theorems at concrete inputs, and runs of the model.
mod Objects
mod Sessions
mod Logs
mod Decoding
mod Tracing
mod Options
mod Wire
mod Notifications
mod Actions
mod Memory
mod Inferior
mod Runs
mod Loading
mod Packets
