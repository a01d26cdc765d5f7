-- ===== src/Utils.antt =====
-- utils.go: text helpers. A bytes.Buffer is the bytes written to it; its writes do not fail.
pub mod Escape
pub mod Base64
pub mod Keys
pub mod Copy
pub mod Buffers
mod Tests
