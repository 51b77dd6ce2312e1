-- ===== src/Http.antt =====
-- The HTTP library of the recording shell: strings, headers, messages, their bodies and sequences.
pub mod Text
pub mod Tokenize
pub mod Header
pub mod Chunked
pub mod Message
pub mod Request
pub mod Response
pub mod Sequence
