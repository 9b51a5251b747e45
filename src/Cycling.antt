-- ===== src/Cycling.antt =====
-- cylc/flow/cycling: cycle points, intervals and sequences.
pub mod Integer
