-- ===== src/Resource/Units.antt =====
-- The names and paths of internal/resource/scope.go: `validUnitName`, `unifiedCgroupPath`,
-- `cgroupDirectory`, `Arguments`, `deadlinesFor`. Times are numbers of nanoseconds.
use plug_and_prejudice.Analyze.Languages.{has_suffix}
use plug_and_prejudice.Analyze.Paths.{path_base}
use plug_and_prejudice.Policy.{
  cpu_quota_percent, memory_max_bytes, memory_swap_bytes, operation_timeout, process_wait_delay,
  scope_runtime, second, tasks_max, teardown_timeout,
}
use plug_and_prejudice.Prelude.{
  Bool, List, Result, Text, Text-eq, [], all, codes, eqb, err, has_prefix, if◌then◌else◌, leb,
  length, map, not, ok, refl, refuse, text_eq, true, ℕ, ◌&&◌, ◌*◌, ◌++◌, ◌+◌, ◌-◌, ◌/◌, ◌==◌, ◌>>=◌,
  ◌>>◌, ◌||◌, ◌∷◌, ◌≡◌,
}
use plug_and_prejudice.Prelude.Encoding.{decimal}
use plug_and_prejudice.Report.Validate.Paths.{clean}
use plug_and_prejudice.Resource.Strings.{is_digit, trim_prefix, trim_suffix}
use plug_and_prejudice.Sandbox.Run.{arguments}

abbrev pub is_hex : ℕ → Bool
is_hex c = is_digit c || (leb b'a' c && leb c b'f') || (leb b'A' c && leb c b'F')

unfoldable pub valid_unit_name : Text → Bool
valid_unit_name unit =
    let nonce = trim_suffix (trim_prefix unit (codes "plug-prejudice-")) (codes ".scope") in
    has_prefix unit (codes "plug-prejudice-")
    && has_suffix unit (codes ".scope")
    && eqb (length nonce) 24
    && all is_hex nonce

unfoldable pub unified_cgroup_path : List Text → Result Text
unified_cgroup_path [] = err "unified cgroup v2 path is unavailable"
unified_cgroup_path (line ∷ rest) =
    if has_prefix line (codes "0::/")
    then ok (trim_prefix line (codes "0::"))
    else unified_cgroup_path rest

-- `filepath.Join` of a path and a name.
abbrev pub join_path : Text → Text → Text
join_path directory name = clean (directory ++ b'/' ∷ name)

unfoldable pub is_absolute : Text → Bool
is_absolute path = has_prefix path (codes "/")

-- `root` is the absolute root of the cgroups.
unfoldable pub cgroup_directory : Result Text → Text → Text → Result Text
unfolding is_absolute
cgroup_directory absolute_root unit cgroup_path = do
  refuse
      (cgroup_path == []
        || not (is_absolute cgroup_path)
        || not (clean cgroup_path == cgroup_path)
        || not (path_base cgroup_path == unit))
      "scope ControlGroup is empty, malformed, or does not match the expected unit"
  root ← absolute_root
  let directory = join_path root (trim_prefix cgroup_path (codes "/"))
  refuse (directory == root || not (has_prefix directory (root ++ codes "/")))
      "scope ControlGroup escapes cgroup root"
  ok directory

-- `scope_arguments` of the broker are the last of these.
unfoldable pub scope_command : Text → Text → List Text → List Text
scope_command unit program arguments =
    map codes ("--user" ∷ "--scope" ∷ "--unit" ∷ [])
    ++ unit
      ∷ codes "--quiet"
      ∷ codes "--collect"
      ∷ codes "--property=MemoryAccounting=yes"
      ∷ (codes "--property=MemoryMax=" ++ decimal memory_max_bytes)
      ∷ (codes "--property=MemorySwapMax=" ++ decimal memory_swap_bytes)
      ∷ codes "--property=TasksAccounting=yes"
      ∷ (codes "--property=TasksMax=" ++ decimal tasks_max)
      ∷ (codes "--property=CPUQuota=" ++ decimal cpu_quota_percent ++ codes "%")
      ∷ (codes "--property=RuntimeMaxSec=" ++ decimal (scope_runtime / second) ++ codes "s")
      ∷ codes "--"
      ∷ program
      ∷ arguments

pub record OperationDeadlines : Type 0 where
  pub operation_end : ℕ
  pub run_end : ℕ

unfoldable pub deadlines_for : ℕ → OperationDeadlines
deadlines_for start =
    let operation_end = start + operation_timeout in
    record {
      operation_end = operation_end;
      run_end = operation_end - (teardown_timeout + 2 * process_wait_delay);
    }

unit_test : valid_unit_name (codes "plug-prejudice-0123456789abcdef01234567.scope") ≡ true
unfolding valid_unit_name has_prefix has_suffix text_eq trim_suffix trim_prefix
unit_test = refl

deadlines_test : (deadlines_for 0).run_end ≡ scope_runtime
unfolding deadlines_for
deadlines_test = refl
