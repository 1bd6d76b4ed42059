-- ===== src/Tests/Resource.antt =====
-- A resource scope that is verified and torn down.
use plug_and_prejudice.Analyze.Languages.{has_suffix}
use plug_and_prejudice.Analyze.Paths.{path_base}
use plug_and_prejudice.Broker.Bounded.{broker-IsBounded, manager_checks}
use plug_and_prejudice.Broker.Command.{
  Flags, World, after_verified_containment, apply_limits, broker, expected_resource_limits,
  list_action, open_installed_target, read_plugins, review_action, usage_error, verify_runtime,
  verify_scope, write_output,
}
use plug_and_prejudice.Broker.Plugins.{installed_plugin_ids, unacceptable}
use plug_and_prejudice.Prelude.{
  All, In, List, Option, Result, Text, [], codes, contains, each, err, has_prefix, inl, inr, less,
  none, ok, pass, refl, some, subst, sym, text_eq, true, ◌++◌, ◌∷◌, ◌≡◌,
}
use plug_and_prejudice.Prelude.Assoc.{lookup}
use plug_and_prejudice.Prelude.Int.{pos}
use plug_and_prejudice.Prelude.Sort.{sort}
use plug_and_prejudice.Report.Validate.Paths.{clean}
use plug_and_prejudice.Resource.Bounded.{IsLimited, IsOwn, IsSlowed, verify-IsBounded}
use plug_and_prejudice.Resource.Gone.{IsGone, terminate-IsGone}
use plug_and_prejudice.Resource.Strings.{fields, lines, trim_prefix, trim_space, trim_suffix}
use plug_and_prejudice.Resource.Teardown.{terminate}
use plug_and_prejudice.Resource.Units.{cgroup_directory, valid_unit_name}
use plug_and_prejudice.Resource.Verify.{
  Manager, Read, checked_limits, not_exist, read, verify, verify_scope_runtime,
}
use plug_and_prejudice.Sandbox.Buffer.{write_all}
use plug_and_prejudice.Sandbox.Names.{valid_display_name, valid_plugin_id}
use plug_and_prejudice.Sandbox.Run.{check_directory, outcome, require_static_elf, run}
use plug_and_prejudice.Tests.Broker.{sample_flags, sample_world}

abbrev unit_name : Text
unit_name = codes "plug-prejudice-0123456789abcdef01234567.scope"

abbrev files : List (Text × Text)
files =
    (codes "/cg/app/" ++ unit_name ++ codes "/memory.max", codes "268435456\n")
    ∷ (codes "/cg/app/" ++ unit_name ++ codes "/memory.swap.max", codes "0\n")
    ∷ (codes "/cg/app/" ++ unit_name ++ codes "/pids.max", codes "64\n")
    ∷ (codes "/cg/app/" ++ unit_name ++ codes "/cpu.max", codes "100000 100000\n")
    ∷ []

abbrev answers : List (Text × Text)
answers =
    (codes "--property=LoadState", codes "loaded\n")
    ∷ (codes "--property=ControlGroup", codes "/app/" ++ unit_name ++ codes "\n")
    ∷ (codes "--property=RuntimeMaxUSec", codes "35s\n")
    ∷ []

abbrev answer : Option Text → Result Text
answer none = err "unknown property"
answer (some text) = ok text

abbrev sample_systemctl : List Text → Result Text
sample_systemctl (verb ∷ name ∷ property ∷ rest) = answer (lookup property answers)
sample_systemctl _ = err "usage"

abbrev sample_read : Option Text → Read
sample_read none = not_exist
sample_read (some text) = read text

abbrev sample_manager : Manager
sample_manager = record {
  absolute_root = ok (codes "/cg");
  proc_cgroup = read (codes "0::/app/" ++ unit_name ++ codes "\n");
  read_file = λ name. sample_read (lookup name files);
  systemctl = sample_systemctl;
  parse_duration = λ _. some (pos 35000000000);
}

abbrev sample_ticks : Text → List Read
sample_ticks name =
    read (codes "populated 1\nfrozen 0\n") ∷ read (codes "populated 0\nfrozen 0\n") ∷ []

verified_test : verify sample_manager unit_name ≡ pass
unfolding verify valid_unit_name has_prefix has_suffix text_eq trim_suffix trim_prefix path_base
    clean each lookup
verified_test = refl

runtime_test : verify_scope_runtime sample_manager unit_name ≡ pass
unfolding verify_scope_runtime valid_unit_name has_prefix has_suffix text_eq trim_suffix trim_prefix
    lookup
runtime_test = refl

verify-IsBounded_example :
    (directory : Text) × IsOwn sample_manager unit_name directory
    × All (IsLimited sample_manager directory) checked_limits
    × IsSlowed sample_manager directory
verify-IsBounded_example = verify-IsBounded sample_manager unit_name verified_test

terminated_test : terminate sample_manager sample_ticks unit_name ≡ pass
unfolding terminate valid_unit_name has_prefix has_suffix text_eq trim_suffix trim_prefix lookup
    trim_space cgroup_directory clean path_base lines fields
terminated_test = refl

terminate-IsGone_example :
    (valid_unit_name unit_name ≡ true) × IsGone sample_manager sample_ticks unit_name
terminate-IsGone_example = terminate-IsGone sample_manager sample_ticks unit_name terminated_test

abbrev scoped_world : World
scoped_world = record sample_world { checks = manager_checks sample_manager pass }

abbrev scoped_flags : Flags
scoped_flags = record sample_flags { list = true; plugin = []; resource_scope = unit_name }

listed_test :
    (broker scoped_world (some scoped_flags)).calls
    ≡ verify_scope
      ∷ verify_runtime
      ∷ apply_limits
      ∷ read_plugins
      ∷ write_output (codes "barclock")
      ∷ []
unfolding broker usage_error text_eq valid_plugin_id contains after_verified_containment
    review_action open_installed_target run valid_display_name require_static_elf check_directory
    outcome write_all expected_resource_limits installed_plugin_ids unacceptable sort less verify
    valid_unit_name has_prefix has_suffix trim_suffix trim_prefix path_base clean each lookup
    verify_scope_runtime list_action
listed_test = refl

listing_test : In read_plugins (broker scoped_world (some scoped_flags)).calls
listing_test = subst (In read_plugins) (sym listed_test) (inr (inr (inr (inl refl))))

broker-IsBounded_example :
    (directory : Text) × IsOwn sample_manager unit_name directory
    × All (IsLimited sample_manager directory) checked_limits
    × IsSlowed sample_manager directory
broker-IsBounded_example =
    broker-IsBounded sample_manager pass scoped_world scoped_flags read_plugins refl listing_test
      refl
