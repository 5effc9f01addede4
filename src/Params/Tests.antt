-- ===== src/Params/Tests.antt =====
-- Runs of the logarithm of lua/src/lobject.c.
use luava.Base.{◌*◌, ◌^◌, ◌≤◌, ◌<◌, arith}
use luava.Params.{ceillog2}
use luava.Params.Logarithm.{ceillog2_lem}

ceillog2_lem_example : (300 ≤ 2 ^ ceillog2 300) × (2 ^ ceillog2 300 < 2 * 300)
ceillog2_lem_example = ceillog2_lem 300 (omega arith) (omega arith)
