-- ===== src/Sandbox/Run.antt =====
-- `Runner.Run` of internal/sandbox/sandbox.go. What the system does, the trusted executables, the ELF
-- reader and the process itself are given: their outcomes are the fields of a record.
use plug_and_prejudice.Prelude.{
  Bool, Check, List, Option, Result, Text, Text-eq, [], any, codes, eqb, err, false, if◌then◌else◌,
  length, map, none, not, ok, refuse, some, true, ℕ, ◌*◌, ◌++◌, ◌==◌, ◌>>=◌, ◌>>◌, ◌^◌, ◌∷◌,
}
use plug_and_prejudice.Prelude.Int.{ltb_ℤ, pos, ℤ}
use plug_and_prejudice.Sandbox.Buffer.{fresh, write_all}
use plug_and_prejudice.Sandbox.Names.{valid_display_name}

abbrev pub max_report_bytes : ℕ
max_report_bytes = 16 * 2 ^ 20

abbrev pub max_stderr_bytes : ℕ
max_stderr_bytes = 64 * 2 ^ 10

pub record Runner : Type 0 where
  pub bubblewrap : Text
  pub timeout : ℤ
  pub allow_development_scanner : Bool

pub data ElfType : Type 0 where
  executable : ElfType
  shared : ElfType
  other_type : ElfType

pub data ProgramType : Type 0 where
  interpreter : ProgramType
  other_program : ProgramType

-- What debug/elf reads from a file.
pub record Elf : Type 0 where
  pub type : ElfType
  pub programs : List ProgramType
  pub libraries : Result (List Text)

abbrev pub is_executable : ElfType → Bool
is_executable executable = true
is_executable shared = true
is_executable other_type = false

abbrev pub is_interpreter : ProgramType → Bool
is_interpreter interpreter = true
is_interpreter other_program = false

unfoldable pub require_static_elf : Result Elf → Check
require_static_elf parsed = do
  elf ← parsed
  refuse (not (is_executable elf.type)) "scanner ELF type is not executable"
  refuse (any is_interpreter elf.programs)
      "scanner is dynamically linked; build it with CGO_ENABLED=0"
  libraries ← elf.libraries
  refuse (not (eqb (length libraries) 0)) "scanner imports shared libraries"

unfoldable pub arguments : Text → Text → Text → List Text
arguments scanner_source target_source display_name =
    map codes (
      "--die-with-parent" ∷ "--new-session" ∷ "--unshare-all" ∷ "--unshare-user"
      ∷ "--disable-userns" ∷ "--assert-userns-disabled" ∷ "--cap-drop" ∷ "ALL" ∷ "--clearenv"
      ∷ "--setenv" ∷ "HOME" ∷ "/nonexistent" ∷ "--setenv" ∷ "PATH" ∷ "/app" ∷ "--setenv" ∷ "TMPDIR"
      ∷ "/tmp" ∷ "--dir" ∷ "/app" ∷ "--ro-bind" ∷ [])
    ++ scanner_source
      ∷ codes "/app/plug-prejudice"
      ∷ codes "--ro-bind"
      ∷ target_source
      ∷ map codes (
          "/target" ∷ "--dir" ∷ "/tmp" ∷ "--chdir" ∷ "/target" ∷ "--" ∷ "/app/plug-prejudice"
          ∷ "--target" ∷ "/target" ∷ "--display-name" ∷ [])
    ++ display_name ∷ codes "--sandboxed" ∷ codes "--resource-limited" ∷ []

-- A process that has ended: the pieces that it wrote, whether its deadline had passed, and the error
-- of waiting for it.
pub record Execution : Type 0 where
  pub stdout : List Text
  pub stderr : List Text
  pub deadline_exceeded : Bool
  pub wait_error : Check

-- A file that was opened: its descriptor, and what debug/elf reads from it.
pub record Executable : Type 0 where
  pub descriptor : ℕ
  pub elf : Result Elf

-- What is set of an `exec.Cmd`. The extra files are the descriptors 3 and on of the process.
pub record Command : Type 0 where
  pub path : Text
  pub args : List Text
  pub extra_files : List ℕ
  pub environment : List Text

pub record Host : Type 0 where
  pub open_pinned : Text → Result Executable
  pub open_trusted : Text → Result Executable
  -- Whether a descriptor is one of a directory.
  pub stat : ℕ → Result Bool
  pub command_path : Text → List Text → Result (Text × List Text)
  pub execute : Command → Execution

unfoldable pub outcome : Execution → Result Text
outcome e = do
  let out = write_all e.stdout (fresh max_report_bytes)
  let diagnostics = write_all e.stderr (fresh max_stderr_bytes)
  refuse out.failed "read scanner output: output exceeded limit"
  refuse diagnostics.failed "read scanner diagnostics: output exceeded limit"
  refuse e.deadline_exceeded "sandbox timed out"
  e.wait_error
  ok out.buffer

abbrev pub required : Option ℕ → Result ℕ
required none = err "pinned target descriptor is required"
required (some descriptor) = ok descriptor

unfoldable pub check_directory : Result Bool → Check
check_directory (err e) = err "pinned target descriptor is not a directory"
check_directory (ok is_dir) = refuse (not is_dir) "pinned target descriptor is not a directory"

unfoldable pub run : Runner → Host → Text → Option ℕ → Text → Result Text
unfolding check_directory
run r host scanner_path target display_name = do
  refuse (r.bubblewrap == []) "bubblewrap path is empty"
  refuse (not (ltb_ℤ (pos 0) r.timeout)) "sandbox timeout must be positive"
  refuse (not (valid_display_name display_name)) "sandbox display name is invalid"
  program ←
      if r.allow_development_scanner
      then host.open_pinned scanner_path
      else host.open_trusted scanner_path
  require_static_elf program.elf
  descriptor ← required target
  check_directory (host.stat descriptor)
  _ ← host.open_trusted r.bubblewrap
  (path, args) ←
      host.command_path r.bubblewrap
        (arguments (codes "/proc/self/fd/3") (codes "/proc/self/fd/4") display_name)
  outcome (
      host.execute (record {
        path = path;
        args = args;
        extra_files = program.descriptor ∷ descriptor ∷ [];
        environment = [];
      }))
