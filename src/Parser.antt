-- ===== src/Parser.antt =====
-- v2root/parser.go: share links.
mod Samples
mod Tests
pub mod Text
pub mod Values
pub mod Types
pub mod Stream
pub mod Query
pub mod Routing
pub mod Dns
pub mod Validate
pub mod Net
pub mod Links
pub mod Entry
pub mod Export
pub mod Reparse
