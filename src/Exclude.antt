-- ===== src/Exclude.antt =====
-- src/exclude.c: the addresses and networks that are never acted upon.
pub mod Address
pub mod Mask
pub mod Rules
pub mod File
pub mod Membership
pub mod Adding
pub mod Refusing
pub mod Kept
pub mod Prefix
pub mod Ipv4
pub mod Ipv6
pub mod Reading
mod Tests
