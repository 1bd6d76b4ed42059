-- ===== src/Analyze/Capabilities.antt =====
-- internal/analyze/capabilities.go. `url.Parse` of Go is a parameter, of which the code reads the
-- scheme and the host name. The result that the functions change is a record, with the set `seen`.
pub mod Derive
pub mod Distinct
use plug_and_prejudice.Analyze.Binaries.{source_provenance}
use plug_and_prejudice.Analyze.Languages.{stable_path_id}
use plug_and_prejudice.Analyze.References.{has}
use plug_and_prejudice.Prelude.{
  Bool, List, Text, Text-eq, [], any, codes, contains, false, has_prefix, if◌then◌else◌, map, not,
  to_lower, ◌&&◌, ◌++◌, ◌==◌, ◌||◌, ◌∷◌,
}
use plug_and_prejudice.Report.Kinds.{ClaimType, Scope, Severity, Severity-eq}
use plug_and_prejudice.Report.Records.{Finding, Operation, Resource}
use plug_and_prejudice.Sandbox.Run.{arguments}

pub record Url : Type 0 where
  pub scheme : Text
  pub hostname : Text

pub record Derived : Type 0 where
  pub seen : List Text
  pub resources : List Resource
  pub findings : List Finding

abbrev pub contains_any : Text → List Text → Bool
contains_any value markers = any (contains value) markers

unfoldable pub network_command : Text → Bool
network_command command = has command (
    map codes
      ("curl" ∷ "wget" ∷ "git" ∷ "ssh" ∷ "scp" ∷ "sftp" ∷ "rsync" ∷ "nc" ∷ "ncat" ∷ "socat" ∷ []))

unfoldable pub sensitive_path : Text → Bool
sensitive_path value = contains_any (to_lower value) (
    map codes (
      ".ssh" ∷ ".gnupg" ∷ ".aws/credentials" ∷ ".config/gcloud" ∷ "keyring" ∷ "credentials"
      ∷ "id_rsa" ∷ "id_ed25519" ∷ "mozilla" ∷ "chromium" ∷ "google-chrome" ∷ []))

unfoldable pub persistence_path : Text → Bool
persistence_path value = contains_any (to_lower value) (
    map codes (
      ".bashrc" ∷ ".zshrc" ∷ ".profile" ∷ "/autostart/" ∷ "/systemd/user/" ∷ "/cron." ∷ "/crontab"
      ∷ []))

unfoldable pub recursive_removal : List Text → Bool
recursive_removal arguments =
    any
      (λ argument.
        argument == codes "-r"
        || argument == codes "-R"
        || argument == codes "--recursive"
        || (has_prefix argument (codes "-") && contains (to_lower argument) (codes "r")))
      arguments

unfoldable pub contains_argument : List Text → Text → Bool
contains_argument arguments wanted = any (λ argument. argument == wanted) arguments

-- `operation.ID + "\x00" + kind + "\x00" + access + "\x00" + value`.
abbrev pub resource_key : Text → Text → Text → Text → Text
resource_key id kind access value = id ++ 0 ∷ kind ++ 0 ∷ access ++ 0 ∷ value

abbrev pub dash : Text → Text → Text
dash a b = a ++ b'-' ∷ b

abbrev pub derived_resource : Operation → Text → Text → Text → Bool → Bool → Resource
derived_resource o kind access value sensitive dynamic = record {
  id = codes "resource-" ++ dash o.id (stable_path_id (dash kind (dash access value)));
  reference = [];
  kind = kind;
  access = access;
  value = value;
  sensitive = sensitive;
  dynamic = dynamic;
  scope = Scope.other [];
  confidence = o.confidence;
  evidence = o.evidence;
  related_operation_id = o.id;
  provenance = source_provenance (codes "command-capability/v1");
}

unfoldable pub add_resource : Operation → Text → Text → Text → Bool → Bool → Derived → Derived
unfolding has stable_path_id
add_resource o kind access value sensitive dynamic d =
    let key = resource_key o.id kind access value in
    if has key d.seen then d else record d {
      seen = key ∷ d.seen;
      resources = d.resources ++ derived_resource o kind access value sensitive dynamic ∷ [];
    }

-- What `addResource` returns.
abbrev pub is_new : Operation → Text → Text → Text → Derived → Bool
is_new o kind access value d = not (has (resource_key o.id kind access value) d.seen)

abbrev pub add_finding : Finding → Derived → Derived
add_finding f d = record d { findings = d.findings ++ f ∷ [] }

-- The parts that the findings of this file share.
abbrev pub derived_finding : Operation → Text → Severity → Text → Text → Text → Finding
derived_finding o id severity category title explanation = record {
  id = id;
  reference = [];
  claim = ClaimType.fact;
  severity = severity;
  confidence = o.confidence;
  category = category;
  scope = Scope.other [];
  title = title;
  explanation = explanation;
  evidence = o.evidence ∷ [];
  related = o.id ∷ [];
  provenance = source_provenance (codes "command-capability/v1");
}

abbrev pub persistence_finding : Operation → Text → Finding
persistence_finding o mechanism =
    derived_finding o (codes "finding-persistence-" ++ dash o.id (stable_path_id mechanism))
      Severity.medium (codes "persistence") (codes "Configures a persistence mechanism")
      (codes "The operation modifies "
        ++ mechanism
        ++ codes
            ", which can cause code or services to run again after the immediate plugin interaction or in future sessions.")

unfoldable pub add_persistence : Operation → Text → Derived → Derived
unfolding add_resource
add_persistence o mechanism d =
    add_finding (persistence_finding o mechanism)
      (add_resource o (codes "persistence") (codes "modify") mechanism false o.dynamic d)

abbrev pub sensitive_finding : Operation → Text → Text → Finding
sensitive_finding o access value =
    derived_finding o (codes "finding-sensitive-path-" ++ dash o.id (stable_path_id value))
      Severity.high (codes "credential-access") (codes "Accesses a credential-related path")
      (codes "The operation attempts to "
        ++ access
        ++ codes " "
        ++ value
        ++ codes
            ", a path commonly associated with credentials, authentication material, or browser identity data. Static analysis does not establish whether the path exists or whether access succeeds.")

unfoldable pub add_path_resource : Operation → Text → Text → Derived → Derived
unfolding add_persistence
add_path_resource o access value d =
    let sensitive = sensitive_path value in
    let added = is_new o (codes "filesystem-path") access value d in
    let d₁ =
      add_resource o (codes "filesystem-path") access value sensitive
        (contains value (codes "<dynamic>")) d in
    let d₂ = if sensitive && added then add_finding (sensitive_finding o access value) d₁ else d₁ in
    if not (access == codes "read") && persistence_path value
    then add_persistence o value d₂
    else d₂

-- The severity of a deletion after one more operand.
unfoldable pub operand_severity : Text → Severity → Severity
operand_severity operand severity =
    if operand == codes "/"
    then Severity.critical
    else if sensitive_path operand
        || persistence_path operand
        || operand == codes "/etc"
        || operand == codes "/home"
        || has_prefix operand (codes "/home/")
    then (if severity == Severity.critical then severity else Severity.high)
    else severity

unfoldable pub destructive_severity : List Text → Severity → Severity
unfolding operand_severity
destructive_severity [] severity = severity
destructive_severity (operand ∷ operands) severity =
    destructive_severity operands (operand_severity operand severity)

unfoldable pub comma_separated : List Text → Text
comma_separated [] = []
comma_separated (s ∷ []) = s
comma_separated (s ∷ t ∷ ss) = s ++ codes ", " ++ comma_separated (t ∷ ss)

unfoldable pub add_destructive_finding : Operation → List Text → Derived → Derived
unfolding destructive_severity comma_separated
add_destructive_finding o operands d =
    let severity =
      if recursive_removal o.arguments || o.dynamic then Severity.medium else Severity.low in
    add_finding
      (derived_finding o (codes "finding-delete-" ++ o.id) (destructive_severity operands severity)
        (codes "destructive-operation") (codes "Deletes filesystem content")
        (codes "The command deletes "
          ++ comma_separated operands
          ++ codes
              ". Severity reflects the visible targets, recursive flags, and whether arguments are dynamic; static analysis cannot prove the paths present at runtime."))
      d
