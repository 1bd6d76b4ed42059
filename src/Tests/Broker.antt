-- ===== src/Tests/Broker.antt =====
-- The broker at a small world.
use plug_and_prejudice.Broker.Command.{
  Descriptor, Directory, Flags, World, after_verified_containment, apply_limits, broker, enter,
  enter_scope, expected_resource_limits, open_installed_target, open_target, returned,
  review_action, run_sandbox, scope_arguments, usage_error, verify_runtime, verify_scope,
  write_output,
}
use plug_and_prejudice.Broker.Guarded.{IsContained, broker-IsContained, broker-write}
use plug_and_prejudice.Broker.Listing.{installed_plugin_ids-ok}
use plug_and_prejudice.Broker.Plugins.{
  Entry, installed_plugin_ids, max_installed_plugins, unacceptable,
}
use plug_and_prejudice.Policy.{cpu_quota_percent, memory_max_bytes, memory_swap_bytes, tasks_max}
use plug_and_prejudice.Prelude.{
  All, In, [], ap, codes, concat, contains, false, inl, inr, length, less, map, ok, pass, refl,
  some, subst, sym, text_eq, true, ◌↔◌, ◌∷◌, ◌≡◌, ◌≤◌,
}
use plug_and_prejudice.Prelude.Int.{pos}
use plug_and_prejudice.Prelude.Sort.{sort}
use plug_and_prejudice.Report.Document.{Report}
use plug_and_prejudice.Sandbox.Buffer.{write_all}
use plug_and_prejudice.Sandbox.Names.{valid_display_name, valid_plugin_id}
use plug_and_prejudice.Sandbox.Run.{Runner, check_directory, outcome, require_static_elf, run}
use plug_and_prejudice.Scanner.{scan_resource_limits}
use plug_and_prejudice.Tests.Sample.{sample_report}
use plug_and_prejudice.Tests.Sandbox.{sample_host, sample_output, sample_runner}

abbrev clock_entry : Entry
clock_entry = record { name = codes "clock"; is_symlink = false; is_dir = true }

abbrev bar_entry : Entry
bar_entry = record { name = codes "bar"; is_symlink = false; is_dir = true }

abbrev sample_directory : Directory
sample_directory = record {
  batches = (clock_entry ∷ []) ∷ [];
  last = bar_entry ∷ [];
  at_end = true;
}

abbrev limited_report : Report
limited_report = record sample_report {
  scan = record sample_report.scan {
    resource_limits = some (record {
      memory_max_bytes = pos memory_max_bytes;
      memory_swap_bytes = pos memory_swap_bytes;
      tasks_max = pos tasks_max;
      cpu_quota_percent = pos cpu_quota_percent;
      wall_time_seconds = pos 30;
    });
  };
}

abbrev pub sample_world : World
sample_world = record {
  default_manager = pass;
  new_unit_name = ok (codes "plug-prejudice-1.scope");
  manager_run = λ _ _. returned;
  checks = record { verify = λ _. pass; runtime = λ _. pass; limits = pass };
  open_directory = λ _. ok sample_directory;
  encode_list = λ ids. concat ids;
  openat = λ _ _. ok (ok (record { number = 9; is_dir = true; links = 2 }));
  default_runner = ok sample_runner;
  host = sample_host;
  decode = λ _. ok limited_report;
  write = λ _. pass;
}

abbrev pub sample_flags : Flags
sample_flags = record {
  plugin = codes "clock";
  list = false;
  plugins_root = codes "/plugins";
  scanner = codes "/usr/lib/plug-prejudice";
  resource_scope = codes "plug-prejudice-1.scope";
  narg = 0;
}

installed_plugin_ids_test :
    installed_plugin_ids sample_directory.batches sample_directory.last true
    ≡ ok (codes "bar" ∷ codes "clock" ∷ [])
unfolding installed_plugin_ids unacceptable valid_plugin_id contains sort less
installed_plugin_ids_test = refl

installed_plugin_ids-ok_example :
    (installed_plugin_ids sample_directory.batches sample_directory.last true
      ≡ ok (codes "bar" ∷ codes "clock" ∷ []))
    ↔ ((true ≡ true)
        × All (λ entry. unacceptable entry ≡ false) (clock_entry ∷ bar_entry ∷ [])
        × (length (clock_entry ∷ bar_entry ∷ []) ≤ max_installed_plugins)
        × ((codes "bar" ∷ codes "clock" ∷ [])
            ≡ sort less (map (λ entry. entry.name) (clock_entry ∷ bar_entry ∷ []))))
installed_plugin_ids-ok_example =
    installed_plugin_ids-ok sample_directory.batches sample_directory.last true
      (codes "bar" ∷ codes "clock" ∷ [])

broker_test : broker sample_world (some sample_flags) ≡ record {
  exit_code = pos 0;
  calls =
      verify_scope
      ∷ verify_runtime
      ∷ apply_limits
      ∷ open_target
      ∷ run_sandbox
      ∷ write_output sample_output
      ∷ [];
}
unfolding broker usage_error text_eq valid_plugin_id contains after_verified_containment
    review_action open_installed_target run valid_display_name require_static_elf check_directory
    outcome write_all expected_resource_limits
broker_test = refl

write_test : In (write_output sample_output) (broker sample_world (some sample_flags)).calls
write_test =
    subst (In (write_output sample_output)) (sym (ap (λ o. o.calls) broker_test))
      (inr (inr (inr (inr (inr (inl refl))))))

broker-IsContained_example :
    IsContained sample_world sample_flags (broker sample_world (some sample_flags)).calls
broker-IsContained_example =
    broker-IsContained sample_world sample_flags (write_output sample_output) write_test refl

broker-write_example :
    ((target : Descriptor) × (runner : Runner) × (open_installed_target sample_world
          (codes "/plugins")
          (codes "clock")
        ≡ ok target)
      × (sample_world.default_runner ≡ ok runner)
      × (run runner sample_host
            (codes "/usr/lib/plug-prejudice")
            (some target.number)
            (codes "clock")
          ≡ ok sample_output))
    × ((decoded : Report) × (sample_world.decode sample_output ≡ ok decoded)
        × (decoded.scan.resource_limits ≡ scan_resource_limits true))
broker-write_example = broker-write sample_world sample_flags sample_output refl write_test

entering_test : broker sample_world (some (record sample_flags { resource_scope = [] })) ≡ record {
  exit_code = pos 0;
  calls =
      enter_scope
        (codes "plug-prejudice-1.scope")
        (scope_arguments sample_flags (codes "plug-prejudice-1.scope"))
      ∷ [];
}
unfolding broker usage_error text_eq valid_plugin_id contains enter scope_arguments
entering_test = refl
