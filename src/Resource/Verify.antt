-- ===== src/Resource/Verify.antt =====
-- `Verify` and `VerifyRuntime` of internal/resource/scope.go. The files and systemctl are given by
-- what reading and calling them returns; `time.ParseDuration` of Go is given too.
use plug_and_prejudice.Analyze.Paths.{path_base}
use plug_and_prejudice.Policy.{
  cpu_quota_percent, memory_max_bytes, memory_swap_bytes, scope_runtime, tasks_max,
}
use plug_and_prejudice.Prelude.{
  Bool, Check, List, Option, Result, Text, Text-eq, [], any, codes, each, eqb, err, false,
  has_prefix, if◌then◌else◌, length, ltb, none, not, ok, refuse, some, ℕ, ◌&&◌, ◌++◌, ◌==◌, ◌>>=◌,
  ◌>>◌, ◌||◌, ◌∷◌,
}
use plug_and_prejudice.Prelude.Int.{ltb_ℤ, negsuc, pos, ℤ}
use plug_and_prejudice.Report.Validate.Paths.{clean}
use plug_and_prejudice.Resource.Strings.{
  fields, is_digit, lines, parse_int, trim_prefix, trim_space, trim_suffix,
}
use plug_and_prejudice.Resource.Units.{join_path, unified_cgroup_path, valid_unit_name}

pub data Read : Type 0 where
  read : Text → Read
  not_exist : Read
  failed : Read

-- What the manager reads: the root of the cgroups and the file of the own cgroup, files, the answers
-- of systemctl, and durations in nanoseconds.
pub record Manager : Type 0 where
  pub absolute_root : Result Text
  pub proc_cgroup : Read
  pub read_file : Text → Read
  pub systemctl : List Text → Result Text
  pub parse_duration : Text → Option ℤ

abbrev pub file_content : Read → Result Text
file_content (read text) = ok text
file_content not_exist = err "file does not exist"
file_content failed = err "read failed"

unfoldable pub read_limit : Read → Result ℤ
unfolding parse_int trim_space
read_limit file = do
  content ← file_content file
  let text = trim_space content
  if text == codes "max"
      then ok (negsuc 0)
      else elim (parse_int text) [ none ↦ err "parse" | some value ↦ ok value ]

unfoldable pub check_limit : Manager → Text → Text × ℕ → Check
unfolding read_limit
check_limit m directory (name, bound) = do
  value ← read_limit (m.read_file (join_path directory name))
  refuse (ltb_ℤ value (pos 0) || ltb_ℤ (pos bound) value) "limit exceeds the policy"

abbrev pub checked_limits : List (Text × ℕ)
checked_limits =
    (codes "memory.max", memory_max_bytes)
    ∷ (codes "memory.swap.max", memory_swap_bytes)
    ∷ (codes "pids.max", tasks_max)
    ∷ []

unfoldable pub check_cpu_fields : List Text → Check
unfolding parse_int
check_cpu_fields (quota ∷ period ∷ []) =
    if quota == codes "max" then err "cpu.max is not bounded" else elim (parse_int quota) [
      | none ↦ err "cpu.max exceeds the quota"
      | some q ↦ elim (parse_int period) [
        | none ↦ err "cpu.max exceeds the quota"
        | some p ↦
            refuse
              (not (ltb_ℤ (pos 0) q)
                || not (ltb_ℤ (pos 0) p)
                || not (eqb cpu_quota_percent 100)
                || ltb_ℤ p q)
              "cpu.max exceeds the quota"
      ]
    ]
check_cpu_fields _ = err "cpu.max is not bounded"

-- The directory of the own cgroup, whose last name is the unit.
unfoldable pub own_directory : Manager → Text → Result Text
unfolding unified_cgroup_path lines
own_directory m unit = do
  refuse (not (valid_unit_name unit)) "resource scope unit name is invalid"
  content ← file_content m.proc_cgroup
  cgroup_path ← unified_cgroup_path (lines content)
  refuse (not (path_base cgroup_path == unit)) "current cgroup is not expected scope"
  root ← m.absolute_root
  let directory = join_path root (trim_prefix (clean cgroup_path) (codes "/"))
  refuse (not (directory == root) && not (has_prefix directory (root ++ codes "/")))
      "current cgroup escapes cgroup root"
  ok directory

unfoldable pub verify : Manager → Text → Check
unfolding own_directory check_limit check_cpu_fields fields
verify m unit = do
  directory ← own_directory m unit
  each (check_limit m directory) checked_limits
  cpu ← file_content (m.read_file (join_path directory (codes "cpu.max")))
  check_cpu_fields (fields cpu)

-- The pattern ^[0-9]+(?:\.[0-9]+)?(?:us|ms|s)$, by the part of it that is matched.
abbrev pub is_unit : Text → Bool
is_unit s = s == codes "us" || s == codes "ms" || s == codes "s"

unfoldable pub after_digits : Text → Text
after_digits [] = []
after_digits (c ∷ s) = if is_digit c then after_digits s else c ∷ s

abbrev pub starts_with_digit : Text → Bool
starts_with_digit [] = false
starts_with_digit (c ∷ s) = is_digit c

abbrev pub is_fraction : Text → Bool
is_fraction [] = false
is_fraction (c ∷ s) = eqb c b'.' && starts_with_digit s && is_unit (after_digits s)

unfoldable pub matches_duration : Text → Bool
unfolding after_digits
matches_duration s =
    starts_with_digit s && (is_unit (after_digits s) || is_fraction (after_digits s))

unfoldable pub verify_runtime_max : Manager → Text → Check
unfolding matches_duration
verify_runtime_max m value = do
  let text = trim_suffix value (b'\n' ∷ [])
  refuse (any (eqb b'\n') text || not (matches_duration text))
      "RuntimeMaxUSec is not of the supported systemd duration syntax"
  elim (m.parse_duration text) [
    | none ↦ err "RuntimeMaxUSec exceeds the scope runtime"
    | some duration ↦
        refuse (not (ltb_ℤ (pos 0) duration) || ltb_ℤ (pos scope_runtime) duration)
          "RuntimeMaxUSec exceeds the scope runtime"
  ]

abbrev pub show_property : Text → Text → List Text
show_property unit property =
    codes "show"
    ∷ unit
    ∷ (codes "--property=" ++ property)
    ∷ codes "--value"
    ∷ codes "--no-pager"
    ∷ []

unfoldable pub verify_scope_runtime : Manager → Text → Check
unfolding verify_runtime_max
verify_scope_runtime m unit = do
  refuse (not (valid_unit_name unit)) "resource scope unit name is invalid"
  output ← m.systemctl (show_property unit (codes "RuntimeMaxUSec"))
  refuse (ltb 128 (length output)) "live scope lifetime response exceeds limit"
  verify_runtime_max m output
