-- ===== src/Sandbox/Contained.antt =====
-- When a run of the sandbox returns a report.
use plug_and_prejudice.Prelude.{
  >>-eq-ok, >>=-eq-ok, Bool, List, Option, Result, Text, Text-eq, [], any, ap, arith, codes, concat,
  eqb, err, false, if◌then◌else◌, length, ltb, ltb→le, negated_false, none, not, ok, ok-inj, pass,
  refl, refuse, refuse-eq-ok, some, sym, take_all, true, ℕ, ◌==◌, ◌↔◌, ◌∙◌, ◌∷◌, ◌≡◌, ◌≤◌,
}
use plug_and_prejudice.Prelude.Int.{ltb_ℤ, pos}
use plug_and_prejudice.Sandbox.Bounded.{write_all-fresh}
use plug_and_prejudice.Sandbox.Buffer.{fresh, write_all}
use plug_and_prejudice.Sandbox.Names.{valid_display_name}
use plug_and_prejudice.Sandbox.Run.{
  Elf, Executable, Execution, Host, Runner, arguments, check_directory, is_executable,
  is_interpreter, max_report_bytes, max_stderr_bytes, outcome, require_static_elf, required, run,
}

-- A file that the scanner may be: an executable that loads nothing.
abbrev pub IsStatic : Result Elf → Type 0
IsStatic parsed =
    (elf : Elf) × (parsed ≡ ok elf)
    × (is_executable elf.type ≡ true)
    × (any is_interpreter elf.programs ≡ false)
    × (elf.libraries ≡ ok [])

-- A process that ended well and whose whole output was read.
abbrev pub EndsWith : Execution → Text → Type 0
EndsWith e out =
    (out ≡ concat e.stdout)
    × (length (concat e.stdout) ≤ max_report_bytes)
    × (length (concat e.stderr) ≤ max_stderr_bytes)
    × (e.deadline_exceeded ≡ false)
    × (e.wait_error ≡ pass)

not_beyond : (bound n : ℕ) → n ≤ bound → ltb bound n ≡ false
not_beyond bound n h = ground arith

-- A process counts as a success exactly if it ended well within its deadline and its output and
-- its diagnostics are within their limits; what is returned is then its whole output.
pub outcome_iff : (e : Execution) (out : Text) → (outcome e ≡ ok out) ↔ EndsWith e out
unfolding outcome
outcome_iff e out = (
  λ h.
      let (read, h) =
        >>-eq-ok (refuse (write_all e.stdout (fresh max_report_bytes)).failed _) _ h in
      let (quiet, h) =
        >>-eq-ok (refuse (write_all e.stderr (fresh max_stderr_bytes)).failed _) _ h in
      let (intime, h) = >>-eq-ok (refuse e.deadline_exceeded _) _ h in
      let (waited, h) = >>-eq-ok e.wait_error _ h in
      let (kept, full, _) = write_all-fresh max_report_bytes e.stdout in
      let (_, noisy, _) = write_all-fresh max_stderr_bytes e.stderr in
      let small =
        ltb→le max_report_bytes (length (concat e.stdout)) (sym full ∙ refuse-eq-ok _ _ read) in
      let calm =
        ltb→le max_stderr_bytes (length (concat e.stderr)) (sym noisy ∙ refuse-eq-ok _ _ quiet) in
      (
        sym (ok-inj h) ∙ kept ∙ take_all max_report_bytes (concat e.stdout) small,
        small,
        calm,
        refuse-eq-ok _ _ intime,
        waited,
      ),
  λ (same, small, calm, intime, waited).
      let (kept, full, _) = write_all-fresh max_report_bytes e.stdout in
      let (_, noisy, _) = write_all-fresh max_stderr_bytes e.stderr in
      let full : (write_all e.stdout (fresh max_report_bytes)).failed ≡ false =
        full ∙ not_beyond max_report_bytes (length (concat e.stdout)) small in
      let quiet : (write_all e.stderr (fresh max_stderr_bytes)).failed ≡ false =
        noisy ∙ not_beyond max_stderr_bytes (length (concat e.stderr)) calm in
      rw (full, quiet, intime, waited)
        (ap ok (kept ∙ take_all max_report_bytes (concat e.stdout) small ∙ sym same)),
)

check_directory-ok : (stat : Result Bool) → check_directory stat ≡ pass → stat ≡ ok true
unfolding check_directory
check_directory-ok (err e) h = cc
check_directory-ok (ok true) h = refl
check_directory-ok (ok false) h = cc

required-some : (t : Option ℕ) (n : ℕ) → required t ≡ ok n → t ≡ some n
required-some none n h = cc
required-some (some m) n h = ap some (ok-inj h)

require_static_elf-IsStatic :
    (parsed : Result Elf) → require_static_elf parsed ≡ pass → IsStatic parsed
unfolding require_static_elf
require_static_elf-IsStatic parsed h =
    let (elf, read, h) = >>=-eq-ok parsed _ h in
    let (type, h) = >>-eq-ok (refuse (not (is_executable elf.type)) _) _ h in
    let (loader, h) = >>-eq-ok (refuse (any is_interpreter elf.programs) _) _ h in
    let (libraries, imported, h) = >>=-eq-ok elf.libraries _ h in
    let none_left = no_text libraries (negated_false _ (refuse-eq-ok _ _ h)) in
    (
      elf,
      read,
      negated_false _ (refuse-eq-ok _ _ type),
      refuse-eq-ok _ _ loader,
      imported ∙ ap ok none_left,
    )
  where
    no_text : (xs : List Text) → eqb (length xs) 0 ≡ true → xs ≡ []
    no_text [] h = refl
    no_text (x ∷ xs) h = absurd (ground arith)

-- The executable that `Run` pins as the scanner.
abbrev pub pinned : Runner → Host → Text → Result Executable
pinned r host scanner_path =
    if r.allow_development_scanner
    then host.open_pinned scanner_path
    else host.open_trusted scanner_path

-- The scanner and the target of a run, and the process that it starts. Its arguments name the
-- descriptors 3 and 4, which are the first two of its extra files.
pub record IsSandboxed (r : Runner) (host : Host) (scanner_path : Text) (target : Option ℕ)
    (name out : Text) : Type 0 where
  pub scanner : Executable
  pub opened : pinned r host scanner_path ≡ ok scanner
  pub static : IsStatic scanner.elf
  pub descriptor : ℕ
  pub given : target ≡ some descriptor
  pub directory : host.stat descriptor ≡ ok true
  pub command : Text × List Text
  pub commanded :
      host.command_path r.bubblewrap
        (arguments (codes "/proc/self/fd/3") (codes "/proc/self/fd/4") name)
      ≡ ok command
  pub ended :
      EndsWith
        (host.execute (record {
          path = command.0;
          args = command.1;
          extra_files = scanner.descriptor ∷ descriptor ∷ [];
          environment = [];
        }))
        out

-- The sandbox returns a report only of a valid name, within a positive time limit, of a static
-- scanner and a target whose descriptor is one of a directory. The report is then the whole output of
-- the process that the command of bubblewrap with the arguments of the containment started, with no
-- environment and with the descriptors of this scanner and this target as its only extra files, and
-- that process ended well and within all limits.
pub run-IsContained :
    (r : Runner) (host : Host) (scanner_path : Text) (target : Option ℕ) (name out : Text)
    → run r host scanner_path target name ≡ ok out
    → (valid_display_name name ≡ true)
      × (ltb_ℤ (pos 0) r.timeout ≡ true)
      × IsSandboxed r host scanner_path target name out
unfolding run
run-IsContained r host scanner_path target name out h =
    let (_, h) = >>-eq-ok (refuse (r.bubblewrap == []) _) _ h in
    let (time, h) = >>-eq-ok (refuse (not (ltb_ℤ (pos 0) r.timeout)) _) _ h in
    let (named, h) = >>-eq-ok (refuse (not (valid_display_name name)) _) _ h in
    let (program, opened, h) = >>=-eq-ok (pinned r host scanner_path) _ h in
    let (static, h) = >>-eq-ok (require_static_elf program.elf) _ h in
    let (descriptor, given, h) = >>=-eq-ok (required target) _ h in
    let (directory, h) = >>-eq-ok (check_directory (host.stat descriptor)) _ h in
    let (_, _, h) = >>=-eq-ok (host.open_trusted r.bubblewrap) _ h in
    let (command, commanded, h) = >>=-eq-ok (host.command_path r.bubblewrap _) _ h in
    (
      negated_false _ (refuse-eq-ok _ _ named),
      negated_false _ (refuse-eq-ok _ _ time),
      record {
        scanner = program;
        opened = opened;
        static = require_static_elf-IsStatic program.elf static;
        descriptor = descriptor;
        given = required-some target descriptor given;
        directory = check_directory-ok _ directory;
        command = command;
        commanded = commanded;
        ended = (outcome_iff _ out).0 h;
      },
    )
