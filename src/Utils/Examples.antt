-- ===== src/Utils/Examples.antt =====
-- The helpers' theorems at concrete numbers and texts.
use rackkey.Common.{◌≤◌, ◌<◌, ◌+◌, ◌*◌, arith}
use package.rackkey.Utils.{ceil_div}
use package.rackkey.Utils.Laws.{ceil_div_bounds}

ceil_div_bounds_example : (10 ≤ ceil_div 10 4 * 4) × (ceil_div 10 4 * 4 < 10 + 4)
ceil_div_bounds_example = ceil_div_bounds 10 4 (omega arith) (omega arith)
