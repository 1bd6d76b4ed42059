-- ===== src/Broker/Command.antt =====
-- `run` of cmd/plug-prejudice-broker/main.go. A run is its exit code with the calls that it made, in
-- their order; the results of the calls are given. Messages to the standard error are left out.
use plug_and_prejudice.Broker.Plugins.{Entry, installed_plugin_ids}
use plug_and_prejudice.Policy.{
  cpu_quota_percent, memory_max_bytes, memory_swap_bytes, second, tasks_max, wall_time,
}
use plug_and_prejudice.Prelude.{
  Bool, Check, List, Option, Result, Text, Text-eq, [], codes, eqb, err, false, if◌then◌else◌, none,
  not, ok, refuse, some, ℕ, ◌&&◌, ◌/◌, ◌==◌, ◌>>=◌, ◌>>◌, ◌||◌, ◌∷◌,
}
use plug_and_prejudice.Prelude.Int.{eqb_ℤ, pos, ℤ}
use plug_and_prejudice.Report.Document.{Report, ResourceLimits}
use plug_and_prejudice.Sandbox.Names.{valid_plugin_id}
use plug_and_prejudice.Sandbox.Run.{Host, Runner, run}

pub data Call : Type 0 where
  enter_scope : Text → List Text → Call
  verify_scope : Call
  verify_runtime : Call
  apply_limits : Call
  read_plugins : Call
  open_target : Call
  run_sandbox : Call
  write_output : Text → Call

pub record Outcome : Type 0 where
  pub exit_code : ℤ
  pub calls : List Call

abbrev pub exits : ℤ → Outcome
exits code = record { exit_code = code; calls = [] }

abbrev pub after_call : Call → Outcome → Outcome
after_call call rest = record rest { calls = call ∷ rest.calls }

pub record ContainmentChecks : Type 0 where
  pub verify : Text → Check
  pub runtime : Text → Check
  pub limits : Check

-- The rest of a function after `if err != nil { return 1 }`.
abbrev pub or_exit {ℓ} : {A : Type ℓ} → Result A → (A → Outcome) → Outcome
or_exit (err e) next = exits (pos 1)
or_exit (ok value) next = next value

unfoldable pub after_verified_containment : Text → ContainmentChecks → Outcome → Outcome
after_verified_containment scope checks action = after_call verify_scope (
    or_exit (checks.verify scope) λ _. after_call verify_runtime (
      or_exit (checks.runtime scope)
        λ _. after_call apply_limits (or_exit checks.limits λ _. action)))

unfoldable pub expected_resource_limits : Option ResourceLimits → Bool
expected_resource_limits none = false
expected_resource_limits (some limits) =
    eqb_ℤ limits.memory_max_bytes (pos memory_max_bytes)
    && eqb_ℤ limits.memory_swap_bytes (pos memory_swap_bytes)
    && eqb_ℤ limits.tasks_max (pos tasks_max)
    && eqb_ℤ limits.cpu_quota_percent (pos cpu_quota_percent)
    && eqb_ℤ limits.wall_time_seconds (pos (wall_time / second))

pub record Flags : Type 0 where
  pub plugin : Text
  pub list : Bool
  pub plugins_root : Text
  pub scanner : Text
  pub resource_scope : Text
  -- The number of arguments that are no flags.
  pub narg : ℕ

-- How the process that re-enters the broker in a scope ended.
pub data Entered : Type 0 where
  returned : Entered
  exited : ℤ → Entered
  not_started : Entered

-- A directory that was opened and read, and a descriptor that was opened beneath it: whether it is a
-- directory, and its number of links.
pub record Directory : Type 0 where
  pub batches : List (List Entry)
  pub last : List Entry
  pub at_end : Bool

pub record Descriptor : Type 0 where
  pub number : ℕ
  pub is_dir : Bool
  pub links : ℕ

-- What the system, package resource and the Go library answer.
pub record World : Type 0 where
  pub default_manager : Check
  pub new_unit_name : Result Text
  pub manager_run : Text → List Text → Entered
  pub checks : ContainmentChecks
  pub open_directory : Text → Result Directory
  pub encode_list : List Text → Text
  pub openat : Text → Text → Result (Result Descriptor)
  pub default_runner : Result Runner
  pub host : Host
  pub decode : Text → Result Report
  pub write : Text → Check

unfoldable pub usage_error : Flags → Bool
usage_error f =
    let named = not (f.plugin == []) in
    not (eqb f.narg 0)
    || ((f.list && named) || (not f.list && not named))
    || (not f.list && not (valid_plugin_id f.plugin))

unfoldable pub open_installed_target : World → Text → Text → Result Descriptor
open_installed_target w root id = do
  refuse (not (valid_plugin_id id)) "invalid plugin ID"
  _ ← w.open_directory root
  opened ← w.openat root id
  info ← opened
  refuse (not info.is_dir || eqb info.links 0) "selected plugin descriptor is not a live directory"
  ok info

unfoldable pub list_action : World → Flags → Outcome
list_action w f = after_call read_plugins (
    or_exit
      (w.open_directory f.plugins_root >>= λ d. installed_plugin_ids d.batches d.last d.at_end)
      λ plugins.
        let text = w.encode_list plugins in
        after_call (write_output text) (or_exit (w.write text) λ _. exits (pos 0)))

unfoldable pub review_action : World → Flags → Outcome
review_action w f = after_call open_target (
    or_exit (open_installed_target w f.plugins_root f.plugin) λ target.
      or_exit w.default_runner λ runner. after_call run_sandbox (
        or_exit (run runner w.host f.scanner (some target.number) f.plugin) λ output.
          or_exit (w.decode output) λ decoded.
            if expected_resource_limits decoded.scan.resource_limits
            then after_call (write_output output) (or_exit (w.write output) λ _. exits (pos 0))
            else exits (pos 1)))

abbrev pub entered_code : Entered → ℤ
entered_code returned = pos 0
entered_code (exited code) = code
entered_code not_started = pos 1

unfoldable pub scope_arguments : Flags → Text → List Text
scope_arguments f unit =
    let arguments =
      codes "--plugins-root"
      ∷ f.plugins_root
      ∷ codes "--scanner"
      ∷ f.scanner
      ∷ codes "--resource-scope"
      ∷ unit
      ∷ [] in
    if f.list then codes "--list" ∷ arguments else codes "--plugin" ∷ f.plugin ∷ arguments

unfoldable pub enter : World → Flags → Outcome
enter w f = or_exit w.new_unit_name λ unit.
    let arguments = scope_arguments f unit in
    after_call (enter_scope unit arguments) (exits (entered_code (w.manager_run unit arguments)))

-- `none` is an error of parsing the flags.
unfoldable pub broker : World → Option Flags → Outcome
broker w none = exits (pos 2)
broker w (some f) =
    if usage_error f
    then exits (pos 2)
    else or_exit w.default_manager λ _.
      if f.resource_scope == []
      then enter w f
      else after_verified_containment f.resource_scope w.checks
          (if f.list then list_action w f else review_action w f)
