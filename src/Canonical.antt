-- ===== src/Canonical.antt =====
-- canonical.py: the version-1 canonical bytes of the domain's values, and their digests.
pub mod Bytes
pub mod Encode
pub mod Frames
pub mod Join
pub mod Maps
pub mod Records
pub mod Primitives
pub mod Containers
pub mod Values
pub mod Schema
pub mod ReadBack
pub mod Bounds
pub mod Order
pub mod Sorted
pub mod Digest
pub mod Binding
