-- ===== src/Broker/Guarded.antt =====
-- What a run of the broker may do, and under which conditions.
use plug_and_prejudice.Broker.Command.{
  Call, Descriptor, Flags, Outcome, World, after_call, after_verified_containment, apply_limits,
  broker, enter, enter_scope, exits, expected_resource_limits, list_action, open_installed_target,
  open_target, or_exit, read_plugins, review_action, run_sandbox, scope_arguments, usage_error,
  verify_runtime, verify_scope, write_output,
}
use plug_and_prejudice.Prelude.{
  Bool, Bool-cases, In, List, Option, Result, Text, Text-eq, [], ap, arith, err, false,
  if◌then◌else◌, inl, inr, none, ok, pass, refl, some, sym, true, true-ne-false, ◌&&◌, ◌==◌, ◌↔◌,
  ◌∙◌, ◌∷◌, ◌≡◌, ◌≢◌,
}
use plug_and_prejudice.Prelude.Int.{eqb_ℤ-eq, pos}
use plug_and_prejudice.Report.Document.{Report, ResourceLimits}
use plug_and_prejudice.Sandbox.Run.{Runner, arguments, run}
use plug_and_prejudice.Scanner.{scan_resource_limits}

-- Calls that read a plugin, run the scanner or print something.
abbrev pub is_guarded : Call → Bool
is_guarded (enter_scope unit arguments) = false
is_guarded verify_scope = false
is_guarded verify_runtime = false
is_guarded apply_limits = false
is_guarded read_plugins = true
is_guarded open_target = true
is_guarded run_sandbox = true
is_guarded (write_output text) = true

-- The containment was verified, and the limits applied, before anything else.
abbrev pub IsContained : World → Flags → List Call → Type 0
IsContained w f calls =
    ((rest : List Call) × (calls ≡ verify_scope ∷ verify_runtime ∷ apply_limits ∷ rest))
    × (w.checks.verify f.resource_scope ≡ pass)
    × (w.checks.runtime f.resource_scope ≡ pass)
    × (w.checks.limits ≡ pass)

-- A guarded call stands behind one that is not.
skip_call :
    (first call : Call) (rest : List Call)
    → In call (first ∷ rest)
    → is_guarded first ≡ false
    → is_guarded call ≡ true
    → In call rest
skip_call first call rest (inl e) g h = absurd (true-ne-false (sym h ∙ ap is_guarded e ∙ g))
skip_call first call rest (inr i) g h = i

-- A call behind an error result means that there was no error.
or_exit-In {ℓ} :
    {A : Type ℓ} (m : Result A) (next : A → Outcome) (call : Call)
    → In call (or_exit m next).calls
    → (value : A) × (m ≡ ok value) × In call (next value).calls
or_exit-In (err e) next call i = absurd i
or_exit-In (ok value) next call i = (value, refl, i)

contained :
    (w : World) (f : Flags) (action : Outcome) (call : Call)
    → In call (after_verified_containment f.resource_scope w.checks action).calls
    → is_guarded call ≡ true
    → IsContained w f (after_verified_containment f.resource_scope w.checks action).calls
      × In call action.calls
unfolding after_verified_containment
contained w f action call i g =
    let i = skip_call verify_scope call _ i refl g in
    let (_, verified, i) = or_exit-In (w.checks.verify f.resource_scope) _ call i in
    let i = skip_call verify_runtime call _ i refl g in
    let (_, alive, i) = or_exit-In (w.checks.runtime f.resource_scope) _ call i in
    let i = skip_call apply_limits call _ i refl g in
    let (_, limited, i) = or_exit-In w.checks.limits _ call i in
    rw (verified, alive, limited) (((action.calls, refl), refl, refl, refl), i)

enter-none :
    (w : World) (f : Flags) (call : Call) → In call (enter w f).calls → is_guarded call ≡ true → ⊥
unfolding enter
enter-none w f call i g =
    let (unit, _, i) = or_exit-In w.new_unit_name _ call i in
    skip_call (enter_scope unit (scope_arguments f unit)) call [] i refl g

-- A guarded call of the broker is one of its action.
broker-action :
    (w : World) (f : Flags) (call : Call)
    → In call (broker w (some f)).calls
    → is_guarded call ≡ true
    → IsContained w f (broker w (some f)).calls
      × In call (if f.list then list_action w f else review_action w f).calls
unfolding broker list_action review_action open_installed_target
broker-action w f call i g = elim (Bool-cases (usage_error f)) [
  | inl e ↦ absurd (rw e at i)
  | inr e ↦
      let i = rw e at i in
      let (_, manager, i) = or_exit-In w.default_manager _ call i in
      elim (Bool-cases (f.resource_scope == [])) [
        | inl k ↦ absurd (enter-none w f call (rw k at i) g)
        | inr k ↦ rw (e, manager, k) (contained w f _ call (rw k at i) g)
      ]
]

-- A run that reads a plugin directory, starts the scanner or prints anything has first verified its
-- resource scope and the lifetime of the scope, and applied the process limits, in this order, and
-- each of the three succeeded.
pub broker-IsContained :
    (w : World) (f : Flags) (call : Call)
    → In call (broker w (some f)).calls
    → is_guarded call ≡ true
    → IsContained w f (broker w (some f)).calls
broker-IsContained w f call i g = (broker-action w f call i g).0

split_five :
    (a b c d e : Bool)
    → (a && b && c && d && e) ≡ true
    → (a ≡ true) × (b ≡ true) × (c ≡ true) × (d ≡ true) × (e ≡ true)
split_five a b c d e h = ground arith

same_limits :
    (a b : ResourceLimits)
    → a.memory_max_bytes ≡ b.memory_max_bytes
    → a.memory_swap_bytes ≡ b.memory_swap_bytes
    → a.tasks_max ≡ b.tasks_max
    → a.cpu_quota_percent ≡ b.cpu_quota_percent
    → a.wall_time_seconds ≡ b.wall_time_seconds
    → a ≡ b
same_limits a b memory swap tasks quota time = cc

-- The broker expects the limits that the scanner records.
pub expected_resource_limits-scan :
    (limits : Option ResourceLimits)
    → (expected_resource_limits limits ≡ true) ↔ (limits ≡ scan_resource_limits true)
unfolding expected_resource_limits scan_resource_limits
expected_resource_limits-scan none = (λ h. cc, λ h. cc)
expected_resource_limits-scan (some limits) = (
  λ h.
      let (memory, swap, tasks, quota, time) = split_five _ _ _ _ _ h in
      ap some (
        same_limits limits _ (eqb_ℤ-eq _ _ memory) (eqb_ℤ-eq _ _ swap) (eqb_ℤ-eq _ _ tasks)
          (eqb_ℤ-eq _ _ quota) (eqb_ℤ-eq _ _ time)),
  λ h. ap expected_resource_limits h,
)

-- A call behind another one.
after_other :
    (first call : Call) (rest : List Call) → In call (first ∷ rest) → call ≢ first → In call rest
after_other first call rest (inl e) other = absurd (other e)
after_other first call rest (inr i) other = i

expected-write :
    (w : World) (out output : Text) (limits : Option ResourceLimits)
    → In
        (write_output out)
        (if expected_resource_limits limits
          then after_call (write_output output) (or_exit (w.write output) λ _. exits (pos 0))
          else exits (pos 1)).calls
    → (out ≡ output) × (expected_resource_limits limits ≡ true)
expected-write w out output limits i = elim (Bool-cases (expected_resource_limits limits)) [
  | inl e ↦ elim (rw e at i) [
    | inl same ↦ (cc, e)
    | inr j ↦ let (_, _, none_left) = or_exit-In (w.write output) _ _ j in absurd none_left
  ]
  | inr e ↦ absurd (rw e at i)
]

review-write :
    (w : World) (f : Flags) (out : Text)
    → In (write_output out) (review_action w f).calls
    → ((target : Descriptor) × (runner : Runner) × (open_installed_target w f.plugins_root f.plugin
          ≡ ok target)
        × (w.default_runner ≡ ok runner)
        × (run runner w.host f.scanner (some target.number) f.plugin ≡ ok out))
      × ((decoded : Report) × (w.decode out ≡ ok decoded)
          × (decoded.scan.resource_limits ≡ scan_resource_limits true))
unfolding review_action
review-write w f out (inl e) = cc
review-write w f out (inr i) =
    let (target, opened, i) = or_exit-In (open_installed_target w f.plugins_root f.plugin) _ _ i in
    let (runner, found, i) = or_exit-In w.default_runner _ _ i in
    let i = after_other run_sandbox _ _ i (λ e. cc) in
    let (output, ran, i) =
      or_exit-In (run runner w.host f.scanner (some target.number) f.plugin) _ _ i in
    let (decoded, read, i) = or_exit-In (w.decode output) _ _ i in
    let (same, expected) = expected-write w out output decoded.scan.resource_limits i in
    (
      (target, runner, opened, found, ran ∙ ap ok (sym same)),
      (decoded, ap w.decode same ∙ read, (expected_resource_limits-scan _).0 expected),
    )

-- Unless it is asked for the list, what the broker prints is the output of a run of the sandbox
-- under the plugin's ID on the descriptor of the plugin's directory that was opened before, and it
-- decodes to a report that records the limits of the policy.
pub broker-write :
    (w : World) (f : Flags) (out : Text)
    → f.list ≡ false
    → In (write_output out) (broker w (some f)).calls
    → ((target : Descriptor) × (runner : Runner) × (open_installed_target w f.plugins_root f.plugin
          ≡ ok target)
        × (w.default_runner ≡ ok runner)
        × (run runner w.host f.scanner (some target.number) f.plugin ≡ ok out))
      × ((decoded : Report) × (w.decode out ≡ ok decoded)
          × (decoded.scan.resource_limits ≡ scan_resource_limits true))
unfolding review_action
broker-write w f out single i =
    let (_, i) = broker-action w f (write_output out) i refl in
    review-write w f out (rw single at i)
