-- ===== src/Metrics/Duration.antt =====
-- `format_duration_ms` of crates/metrics/src/lib.rs.
use sshflow.Prelude.{ℕ, ◌/◌, ◌%◌, ◌++◌, Text, codes, decimal, ltb, if◌then◌else◌}

unfoldable pub format_duration_ms : ℕ → Text
format_duration_ms ms =
    let total_secs = ms / 1000 in
    let mins = total_secs / 60 in
    let secs = total_secs % 60 in
    if ltb ms 1000
    then decimal ms ++ codes "ms"
    else if ltb 0 mins
    then decimal mins ++ codes "m " ++ decimal secs ++ codes "s"
    else decimal secs ++ codes "s"
