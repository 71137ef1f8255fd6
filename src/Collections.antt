-- ===== src/Collections.antt =====
-- The standard collections that the program keeps its state in, `BTreeMap` and `BTreeSet`, as
-- lists in ascending order of the keys; and the bucket indexes that it builds from them.
pub mod Order
pub mod OrdMap
pub mod Index
