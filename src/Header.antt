-- ===== src/Header.antt =====
-- src/header.rs: header names, header values, and the ordered collection of both.
pub mod Name
pub mod Value
pub mod Collection
pub mod Laws
pub mod Valid
pub mod Pairs
pub mod Append
pub use Name.{HeaderName, name_eq}
pub use Value.{HeaderValue}
pub use Collection.{HeaderCollection, Entry}
