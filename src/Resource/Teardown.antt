-- ===== src/Resource/Teardown.antt =====
-- `Terminate` and `waitCgroupEmpty` of internal/resource/scope.go. The wait is given by what the reads
-- of the events of the cgroup return, one for each tick until the deadline of the teardown.
use plug_and_prejudice.Prelude.{
  Bool, Check, List, Option, Result, Text, Text-eq, [], codes, err, if◌then◌else◌, is_some, length,
  ltb, none, not, ok, pass, refuse, some, ◌&&◌, ◌==◌, ◌>>=◌, ◌>>◌, ◌||◌, ◌∷◌,
}
use plug_and_prejudice.Resource.Strings.{fields, lines, trim_space}
use plug_and_prejudice.Resource.Units.{cgroup_directory, join_path, valid_unit_name}
use plug_and_prejudice.Resource.Verify.{Manager, Read, failed, not_exist, read, show_property}

-- The loop of `parseCgroupPopulated`: what was found so far.
unfoldable pub populated_lines : Option Bool → List Text → Result (Option Bool)
populated_lines found [] = ok found
populated_lines found (line ∷ rest) = elim (fields line) [
  | name ∷ value ∷ [] ↦
      if name == codes "populated"
      then (if is_some found || (not (value == codes "0") && not (value == codes "1"))
          then err "cgroup.events has malformed or duplicate populated state"
          else populated_lines (some (value == codes "1")) rest)
      else populated_lines found rest
  | _ ↦ populated_lines found rest
]

abbrev pub found_state : Option Bool → Result Bool
found_state none = err "cgroup.events omits populated state"
found_state (some populated) = ok populated

unfoldable pub parse_cgroup_populated : Text → Result Bool
unfolding populated_lines
parse_cgroup_populated events = do
  refuse (ltb 4096 (length events)) "cgroup.events exceeds limit"
  found ← populated_lines none (lines (trim_space events))
  found_state found

unfoldable pub wait_cgroup_empty : List Read → Check
unfolding parse_cgroup_populated
wait_cgroup_empty [] = err "context deadline exceeded"
wait_cgroup_empty (not_exist ∷ ticks) = pass
wait_cgroup_empty (failed ∷ ticks) = err "read failed"
wait_cgroup_empty (read events ∷ ticks) =
    let rest = wait_cgroup_empty ticks in
    parse_cgroup_populated events >>= λ populated. if not populated then pass else rest

unfoldable pub terminal_state_without_control_group : Text → Text → Bool
terminal_state_without_control_group load_state active_state =
    load_state == codes "loaded"
    && (active_state == codes "inactive" || active_state == codes "failed")

-- Errors that are joined are the first one.
abbrev pub teardown_result : Result Text → Check → Check
teardown_result kill (ok tt) = pass
teardown_result (ok output) (err e) = err e
teardown_result (err k) (err e) = err k

-- The state of a unit that has no control group, from the answer of systemctl.
abbrev pub check_active : Text → Result Text → Check
check_active load_state (err e) =
    err "resource scope has no ControlGroup but is not confirmed inactive"
check_active load_state (ok active) =
    refuse
      (ltb 128 (length active)
        || not (terminal_state_without_control_group load_state (trim_space active)))
      "resource scope has no ControlGroup but is not confirmed inactive"

unfoldable pub confirm_inactive : Manager → Text → Text → Check
unfolding terminal_state_without_control_group
confirm_inactive m unit load_state =
    check_active load_state (m.systemctl (show_property unit (codes "ActiveState")))

-- What is done about a unit with a control group; `ticks` are the reads of its events.
unfoldable pub kill_scope : Manager → (Text → List Read) → Text → Text → Check
unfolding wait_cgroup_empty
kill_scope m ticks unit control_group = do
  directory ← cgroup_directory m.absolute_root unit control_group
  let kill = m.systemctl (
      codes "kill"
      ∷ unit
      ∷ codes "--kill-whom=all"
      ∷ codes "--signal=KILL"
      ∷ codes "--no-block"
      ∷ [])
  teardown_result kill (wait_cgroup_empty (ticks (join_path directory (codes "cgroup.events"))))

unfoldable pub stop_scope : Manager → (Text → List Read) → Text → Text → Check
unfolding confirm_inactive kill_scope
stop_scope m ticks unit load_state = do
  control_group ← m.systemctl (show_property unit (codes "ControlGroup"))
  refuse (ltb 4096 (length control_group)) "resource scope ControlGroup response exceeds limit"
  if trim_space control_group == []
      then confirm_inactive m unit load_state
      else kill_scope m ticks unit (trim_space control_group)

unfoldable pub terminate : Manager → (Text → List Read) → Text → Check
unfolding stop_scope
terminate m ticks unit = do
  refuse (not (valid_unit_name unit)) "resource scope unit name is invalid"
  load_state ← m.systemctl (show_property unit (codes "LoadState"))
  refuse (ltb 128 (length load_state)) "resource scope LoadState response exceeds limit"
  if trim_space load_state == codes "not-found"
      then pass
      else stop_scope m ticks unit (trim_space load_state)
