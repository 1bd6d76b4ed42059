-- ===== src/Broker/Bounded.antt =====
-- The broker with the checks of the resource manager.
use plug_and_prejudice.Broker.Command.{Call, ContainmentChecks, Flags, World, broker}
use plug_and_prejudice.Broker.Guarded.{broker-IsContained, is_guarded}
use plug_and_prejudice.Prelude.{All, Check, In, Text, ap, some, sym, true, ◌∙◌, ◌≡◌}
use plug_and_prejudice.Resource.Bounded.{IsLimited, IsOwn, IsSlowed, verify-IsBounded}
use plug_and_prejudice.Resource.Verify.{Manager, checked_limits, verify, verify_scope_runtime}

-- The checks that `run` passes to `afterVerifiedContainment`.
abbrev pub manager_checks : Manager → Check → ContainmentChecks
manager_checks m limits = record {
  verify = verify m;
  runtime = verify_scope_runtime m;
  limits = limits;
}

-- A broker with the checks of the resource manager reads a plugin directory, starts the scanner or
-- prints anything only in a cgroup that bears the name of the scope and, in the directory that is
-- its path taken from the root of the cgroups, limits memory, swap and
-- tasks to numbers that are at most the policy's, and the processor to a positive quota that is at
-- most its period.
pub broker-IsBounded :
    (m : Manager) (limits : Check) (w : World) (f : Flags) (call : Call)
    → w.checks ≡ manager_checks m limits
    → In call (broker w (some f)).calls
    → is_guarded call ≡ true
    → (directory : Text) × IsOwn m f.resource_scope directory
      × All (IsLimited m directory) checked_limits
      × IsSlowed m directory
broker-IsBounded m limits w f call checks i g =
    let (_, verified, _, _) = broker-IsContained w f call i g in
    verify-IsBounded m f.resource_scope
      (sym (ap (λ c. c.verify f.resource_scope) checks) ∙ verified)
