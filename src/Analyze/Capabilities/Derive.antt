-- ===== src/Analyze/Capabilities/Derive.antt =====
-- `deriveCapabilities` of internal/analyze/capabilities.go: the loop over the operations.
use plug_and_prejudice.Analyze.Capabilities.{
  Derived, Url, add_destructive_finding, add_path_resource, add_persistence, add_resource,
  contains_argument, network_command,
}
use plug_and_prejudice.Analyze.Paths.{path_base}
use plug_and_prejudice.Analyze.References.{has}
use plug_and_prejudice.Analyze.Scope.{Analysis}
use plug_and_prejudice.Prelude.{
  Bool, List, Option, Text, Text-eq, [], codes, contains, eqb, false, has_prefix, if◌then◌else◌,
  length, less, ltb, map, none, not, some, to_lower, true, ℕ, ◌&&◌, ◌+◌, ◌==◌, ◌||◌, ◌∷◌,
}
use plug_and_prejudice.Prelude.Sort.{sort}
use plug_and_prejudice.Report.Kinds.{Severity-eq}
use plug_and_prejudice.Report.Records.{Operation, Resource}
use plug_and_prejudice.Sandbox.Run.{arguments}

-- The commands that the switch tells apart.
pub data CommandKind : Type 0 where
  reads writes deletes copies moves services cron other_command : CommandKind

unfoldable pub command_kind : Text → CommandKind
command_kind command =
    if has command (map codes ("cat" ∷ "head" ∷ "tail" ∷ "readlink" ∷ []))
    then reads
    else if has command
        (map codes ("touch" ∷ "mkdir" ∷ "tee" ∷ "truncate" ∷ "chmod" ∷ "chown" ∷ []))
    then writes
    else if has command (map codes ("rm" ∷ "unlink" ∷ "rmdir" ∷ []))
    then deletes
    else if has command (map codes ("cp" ∷ "install" ∷ []))
    then copies
    else if command == codes "mv"
    then moves
    else if command == codes "systemctl"
    then services
    else if command == codes "crontab"
    then cron
    else other_command

unfoldable pub add_paths : Operation → Text → List Text → Derived → Derived
unfolding add_path_resource
add_paths o access [] d = d
add_paths o access (operand ∷ operands) d =
    add_paths o access operands (add_path_resource o access operand d)

-- The operands before the last one, and the last one.
abbrev pub all_but_last : List Text → List Text
all_but_last [] = []
all_but_last (s ∷ []) = []
all_but_last (s ∷ t ∷ ss) = s ∷ all_but_last (t ∷ ss)

abbrev pub last_of : Text → List Text → Text
last_of fallback [] = fallback
last_of fallback (s ∷ ss) = last_of s ss

abbrev pub by_id : Resource → Resource → Bool
by_id a b = less a.id b.id

module _ (parse : Text → Option Url) where
  unfoldable pub literal_domain : Text → Text
  literal_domain value = elim (parse value) [
    | none ↦ []
    | some url ↦
        if not (url.scheme == codes "http") && not (url.scheme == codes "https")
        then []
        else to_lower url.hostname
  ]

  abbrev pub looks_like_path : Text → Bool
  looks_like_path argument =
      argument == codes "/"
      || has_prefix argument (codes "/")
      || has_prefix argument (codes "~")
      || has_prefix argument (codes ".")
      || contains argument (codes "/")
      || contains argument (codes "<dynamic>")

  unfoldable pub path_operands : List Text → List Text
  unfolding literal_domain
  path_operands [] = []
  path_operands (argument ∷ arguments) =
      let rest = path_operands arguments in
      if argument == [] || has_prefix argument (codes "-") || not (literal_domain argument == [])
      then rest
      else if looks_like_path argument
      then argument ∷ rest
      else rest

  -- The domains of a network command, and their number.
  unfoldable pub add_domains : Operation → List Text → ℕ → Derived → ℕ × Derived
  unfolding literal_domain add_resource
  add_domains o [] domains d = (domains, d)
  add_domains o (argument ∷ arguments) domains d =
      let domain = literal_domain argument in
      if domain == []
      then add_domains o arguments domains d
      else add_domains o arguments (domains + 1)
          (add_resource o (codes "network-domain") (codes "connect") domain false false d)

  unfoldable pub add_network : Operation → Derived → Derived
  unfolding add_domains
  add_network o d =
      let (domains, e) = add_domains o o.arguments 0 d in
      if network_command (path_base o.command)
      then (if eqb domains 0 && o.dynamic
          then add_resource o (codes "network-domain") (codes "connect") (codes "<dynamic>") false
              true e
          else e)
      else d

  -- `cp` and `mv` need a source and a destination.
  abbrev pub add_copy : Operation → List Text → Derived → Derived
  add_copy o operands d =
      if ltb 1 (length operands)
      then add_path_resource o (codes "write") (last_of [] operands)
          (add_paths o (codes "read") (all_but_last operands) d)
      else d

  abbrev pub add_move : Operation → List Text → Derived → Derived
  add_move o [] d = d
  add_move o (first ∷ operands) d =
      if ltb 0 (length operands)
      then add_path_resource o (codes "write") (last_of first operands)
          (add_path_resource o (codes "delete") first d)
      else d

  unfoldable pub add_command : CommandKind → Operation → Derived → Derived
  unfolding add_paths path_operands
  add_command reads o d = add_paths o (codes "read") (path_operands o.arguments) d
  add_command writes o d = add_paths o (codes "write") (path_operands o.arguments) d
  add_command deletes o d =
      let operands = path_operands o.arguments in
      let e = add_paths o (codes "delete") operands d in
      if ltb 0 (length operands) then add_destructive_finding o operands e else e
  add_command copies o d = add_copy o (path_operands o.arguments) d
  add_command moves o d = add_move o (path_operands o.arguments) d
  add_command services o d =
      if contains_argument o.arguments (codes "enable")
        || contains_argument o.arguments (codes "reenable")
      then add_persistence o (codes "systemd service enablement") d
      else d
  add_command cron o d = add_persistence o (codes "cron configuration") d
  add_command other_command o d = d

  unfoldable pub derive_operations : List Operation → Derived → Derived
  unfolding add_network add_command
  derive_operations [] d = d
  derive_operations (o ∷ operations) d =
      derive_operations operations
        (add_command (command_kind (path_base o.command)) o (add_network o d))

  unfoldable pub derive_capabilities : Analysis → Analysis
  unfolding derive_operations
  derive_capabilities result =
      let d =
        derive_operations result.operations
          (record { seen = []; resources = result.resources; findings = result.findings }) in
      record result { resources = sort by_id d.resources; findings = d.findings }
