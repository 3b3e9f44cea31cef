-- ===== src/Adapter.antt =====
-- src/adapter.rs: header schemas, the mapping of requests and responses, and context encodings.
pub mod Types
pub mod Builder
pub mod Context
pub mod Mapping
pub mod Encoding
pub mod Requests
pub mod Given
pub mod Made
pub mod Accepted
pub mod Fields
pub mod Parsed
pub mod Named
pub mod Targets
pub mod Respond
pub mod Responses
pub mod Schema
pub mod Table
