-- ===== src/Launcher/RotatingLog/Checks.antt =====
-- Tests of the rotating log, and its theorem at a concrete input.
use mcp_dev_runtime.Base.{false, none, refl, codes}
use mathlib.Core.Bool.{false≢true}
use mcp_dev_runtime.Launcher.RotatingLog.{RotatingLog, put}
use mcp_dev_runtime.Launcher.RotatingLog.Writing.{IsPut, put-IsPut}

-- Three files of four bytes; none is there.
abbrev unopened : RotatingLog
unopened = record {
  on_disk = λ n. none;
  opened = false;
  size = 0;
  rotations = 0;
  written = 0;
  max_bytes = 4;
  files = 3;
}

put-IsPut_example :
    IsPut 2 (codes "sixteen bytes...") unopened (put (codes "sixteen bytes...") unopened)
put-IsPut_example =
    put-IsPut 2 (codes "sixteen bytes...") unopened refl (λ e. absurd (false≢true e))
