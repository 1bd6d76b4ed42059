-- ===== src/Tests/Sandbox.antt =====
-- The sandbox at a small process.
use plug_and_prejudice.Prelude.{
  List, Text, [], codes, contains, eqb, err, false, ok, pass, refl, some, text_eq, true, ℕ, ◌∷◌,
  ◌≡◌,
}
use plug_and_prejudice.Prelude.Int.{ltb_ℤ, pos}
use plug_and_prejudice.Report.Validate.Paths.{segments, validate_relative_path}
use plug_and_prejudice.Sandbox.Bounded.{write_all-fresh}
use plug_and_prejudice.Sandbox.Buffer.{fresh, write_all}
use plug_and_prejudice.Sandbox.Contained.{IsSandboxed, run-IsContained}
use plug_and_prejudice.Sandbox.Names.{
  valid_display_name, valid_plugin_id, valid_plugin_id-IsSegment,
}
use plug_and_prejudice.Sandbox.Run.{
  Elf, Execution, Host, Runner, check_directory, other_program, outcome, require_static_elf, run,
  shared,
}

abbrev sample_execution : Execution
sample_execution = record {
  stdout = codes "{" ∷ codes "}" ∷ [];
  stderr = codes "slow" ∷ [];
  deadline_exceeded = false;
  wait_error = pass;
}

abbrev sample_elf : Elf
sample_elf = record { type = shared; programs = other_program ∷ []; libraries = ok [] }

-- A process that finds its scanner and its target.
abbrev sample_process : List ℕ → Execution
sample_process (seven ∷ nine ∷ []) = sample_execution
sample_process _ = record sample_execution { wait_error = err "no such descriptor" }

abbrev pub sample_host : Host
sample_host = record {
  open_pinned = λ _. err "not used";
  open_trusted = λ _. ok (record { descriptor = 7; elf = ok sample_elf });
  stat = λ descriptor. ok (eqb descriptor 9);
  command_path = λ path args. ok (path, args);
  execute = λ command. sample_process command.extra_files;
}

abbrev pub sample_runner : Runner
sample_runner = record {
  bubblewrap = codes "/usr/bin/bwrap";
  timeout = pos 30;
  allow_development_scanner = false;
}

abbrev pub sample_output : Text
sample_output = codes "{}"

write_all-fresh_example :
    ((write_all (codes "ab" ∷ codes "cde" ∷ codes "f" ∷ []) (fresh 4)).buffer ≡ codes "abcd")
    × ((write_all (codes "ab" ∷ codes "cde" ∷ codes "f" ∷ []) (fresh 4)).failed ≡ true)
    × ((write_all (codes "ab" ∷ codes "cde" ∷ codes "f" ∷ []) (fresh 4)).cancelled ≡ true)
write_all-fresh_example = write_all-fresh 4 (codes "ab" ∷ codes "cde" ∷ codes "f" ∷ [])

pub sample_run_test :
    run sample_runner sample_host (codes "/usr/lib/plug-prejudice") (some 9) (codes "clock")
    ≡ ok sample_output
unfolding run text_eq valid_display_name contains require_static_elf check_directory outcome
    write_all
sample_run_test = refl

run-IsContained_example :
    (valid_display_name (codes "clock") ≡ true)
    × (ltb_ℤ (pos 0) sample_runner.timeout ≡ true)
    × IsSandboxed sample_runner sample_host
        (codes "/usr/lib/plug-prejudice")
        (some 9)
        (codes "clock")
        sample_output
run-IsContained_example =
    run-IsContained sample_runner sample_host (codes "/usr/lib/plug-prejudice") (some 9)
      (codes "clock") sample_output sample_run_test

valid_test : valid_plugin_id (codes "a.b-c") ≡ true
unfolding valid_plugin_id contains
valid_test = refl

valid_plugin_id-IsSegment_example :
    (segments (codes "a.b-c") ≡ codes "a.b-c" ∷ [])
    × (validate_relative_path (codes "a.b-c") ≡ pass)
valid_plugin_id-IsSegment_example = valid_plugin_id-IsSegment (codes "a.b-c") valid_test

refused_test : valid_plugin_id (codes "a..b") ≡ false
unfolding valid_plugin_id contains
refused_test = refl

hidden_test : valid_display_name (codes ".b") ≡ false
unfolding valid_display_name text_eq
hidden_test = refl
