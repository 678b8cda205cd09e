-- ===== src/Std.antt =====
-- What the program uses of Rust's standard library beyond text: orders, binary search, ordered maps.
pub mod Order
pub mod BinarySearch
pub mod BTreeMap
pub mod Sort
pub mod Sorting
pub mod Membership
