-- ===== src/Policy.antt =====
-- internal/policy/limits.go. Durations are numbers of nanoseconds.
use plug_and_prejudice.Prelude.{Bool, eqb, leb, ltb, refl, true, ℕ, ◌&&◌, ◌*◌, ◌+◌, ◌≡◌}

abbrev pub second : ℕ
second = 1000000000

abbrev pub memory_max_bytes : ℕ
memory_max_bytes = 268435456

abbrev pub memory_swap_bytes : ℕ
memory_swap_bytes = 0

abbrev pub tasks_max : ℕ
tasks_max = 64

abbrev pub cpu_quota_percent : ℕ
cpu_quota_percent = 100

abbrev pub open_files_max : ℕ
open_files_max = 256

abbrev pub wall_time : ℕ
wall_time = 30 * second

abbrev pub scope_runtime : ℕ
scope_runtime = 35 * second

abbrev pub process_wait_delay : ℕ
process_wait_delay = 2 * second

abbrev pub teardown_timeout : ℕ
teardown_timeout = 3 * second

abbrev pub teardown_command_timeout : ℕ
teardown_command_timeout = 1 * second

abbrev pub operation_timeout : ℕ
operation_timeout = scope_runtime + process_wait_delay + teardown_timeout + process_wait_delay

unfoldable pub valid_timing_policy : Bool
valid_timing_policy =
    ltb (wall_time + process_wait_delay) scope_runtime
    && leb teardown_command_timeout teardown_timeout
    && eqb operation_timeout
        (scope_runtime + process_wait_delay + teardown_timeout + process_wait_delay)

valid_timing_policy_test : valid_timing_policy ≡ true
unfolding valid_timing_policy
valid_timing_policy_test = refl
