-- ===== src/Common/RollingTotal/Examples.antt =====
-- backend/common/src/rolling_total.rs, on concrete input: the window and granularity of a shard.
use substrate_telemetry.Prelude.{arith, Returns}
use substrate_telemetry.Common.RollingTotal.{RollingTotal, new, start, push}
use substrate_telemetry.Common.RollingTotal.Window.{Follows, start-IsValid, push-Follows}

started : RollingTotal
unfolding start new
started = start 5 new

push-Follows_example : Returns (push 3000000005 40 started) (Follows started)
unfolding started start new
push-Follows_example =
    push-Follows 3000000005 40 5 started (omega arith) (start-IsValid 5 new) (omega arith)
      (omega arith) (omega arith)
