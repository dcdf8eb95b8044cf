-- ===== src/Quota/Intervals.antt =====
-- `normalize_intervals` (backend/src/fetchnow/quota/delivery.py): the union of half-open byte
-- intervals, as a sorted list without overlapping or adjacent members.
pub mod Union
pub mod Canonical
pub mod Growth
