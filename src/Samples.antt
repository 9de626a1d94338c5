-- ===== src/Samples.antt =====
-- Concrete instances of what the model takes as parameters, for the examples: node ids that are
-- numbers, an insertion sort in the place of `qsort`, and small nodesets.
pub mod Ids
pub mod Sorting
pub mod Nodesets
pub mod Files
pub mod Servers
