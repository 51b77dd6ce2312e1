-- ===== src/Tests.antt =====
-- Runs of the models at concrete inputs, and each theorem at an input that meets its hypotheses.
pub mod Queues
pub mod Links
pub mod Streams
pub mod Messages
pub mod Numbers
pub mod Networks
pub mod Replays
pub mod Processes
pub mod Proxies
pub mod Cells
