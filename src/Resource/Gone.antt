-- ===== src/Resource/Gone.antt =====
-- When the teardown of a resource scope succeeds.
use plug_and_prejudice.Analyze.Paths.{path_base}
use plug_and_prejudice.Prelude.{
  ==→≡, >>-eq-ok, >>=-eq-ok, All, Bool, Bool-cases, Check, List, Result, Text, Text-eq, [],
  and-split, ap, arith, codes, err, false, has_prefix, if◌then◌else◌, inl, inr, length, ltb,
  negated_false, not, ok, ok-inj, or-split, pass, refl, refuse, refuse-eq-ok, subst, sym, true,
  ◌++◌, ◌==◌, ◌||◌, ◌↔◌, ◌∷◌, ◌≡◌, ◌⊎◌,
}
use plug_and_prejudice.Report.Validate.Paths.{clean}
use plug_and_prejudice.Resource.Strings.{trim_prefix, trim_space}
use plug_and_prejudice.Resource.Teardown.{
  check_active, confirm_inactive, kill_scope, parse_cgroup_populated, stop_scope, teardown_result,
  terminal_state_without_control_group, terminate, wait_cgroup_empty,
}
use plug_and_prejudice.Resource.Units.{cgroup_directory, is_absolute, join_path, valid_unit_name}
use plug_and_prejudice.Resource.Verify.{Manager, Read, failed, not_exist, read, show_property}

abbrev pub IsEmpty : Read → Type 0
IsEmpty r =
    (r ≡ not_exist)
    ⊎ ((events : Text) × (r ≡ read events) × (parse_cgroup_populated events ≡ ok false))

abbrev pub IsPopulated : Read → Type 0
IsPopulated r = (events : Text) × (r ≡ read events) × (parse_cgroup_populated events ≡ ok true)

-- After some reads of a populated cgroup, one of an empty or missing cgroup.
abbrev pub IsEmptied : List Read → Type 0
IsEmptied ticks =
    (before : List Read) × (r : Read) × (after : List Read) × (ticks ≡ before ++ r ∷ after)
    × All IsPopulated before
    × IsEmpty r

wait-IsEmptied : (ticks : List Read) → wait_cgroup_empty ticks ≡ pass → IsEmptied ticks
unfolding wait_cgroup_empty
wait-IsEmptied [] h = cc
wait-IsEmptied (not_exist ∷ ticks) h = ([], not_exist, ticks, refl, tt, inl refl)
wait-IsEmptied (failed ∷ ticks) h = cc
wait-IsEmptied (read events ∷ ticks) h =
    let (populated, parsed, h) = >>=-eq-ok (parse_cgroup_populated events) _ h in
    go (wait-IsEmptied ticks) populated parsed h
  where
    go :
        (wait_cgroup_empty ticks ≡ pass → IsEmptied ticks)
        → (populated : Bool) → parse_cgroup_populated events ≡ ok populated
        → (if not populated then pass else wait_cgroup_empty ticks) ≡ pass
        → IsEmptied (read events ∷ ticks)
    go later false parsed h = ([], read events, ticks, refl, tt, inr (events, refl, parsed))
    go later true parsed h =
        let (before, r, after, same, populated, empty) = later h in
        (
          read events ∷ before,
          r,
          after,
          ap ((◌∷◌) (read events)) same,
          ((events, refl, parsed), populated),
          empty,
        )

wait-before :
    (before : List Read) (r : Read) (after : List Read)
    → All IsPopulated before
    → IsEmpty r
    → wait_cgroup_empty (before ++ r ∷ after) ≡ pass
unfolding wait_cgroup_empty
wait-before [] r after h (inl e) = rw e refl
wait-before [] r after h (inr (events, e, parsed)) =
    subst (λ t. wait_cgroup_empty (t ∷ after) ≡ pass) (sym e) (rw parsed refl)
wait-before (s ∷ before) r after ((events, e, parsed), hs) empty =
    subst (λ t. wait_cgroup_empty (t ∷ before ++ r ∷ after) ≡ pass) (sym e)
      (rw parsed (wait-before before r after hs empty))

-- The wait succeeds exactly if, before the deadline, some read finds the cgroup empty or gone and
-- every read before that one finds it populated.
pub wait_cgroup_empty-IsEmptied :
    (ticks : List Read) → (wait_cgroup_empty ticks ≡ pass) ↔ IsEmptied ticks
wait_cgroup_empty-IsEmptied ticks = (
  wait-IsEmptied ticks,
  λ (before, r, after, same, populated, empty).
      subst (λ t. wait_cgroup_empty t ≡ pass) (sym same)
        (wait-before before r after populated empty),
)

-- What a successful teardown has seen of a loaded unit.
abbrev pub IsInactive : Manager → Text → Type 0
IsInactive m unit =
    (active : Text) × (m.systemctl (show_property unit (codes "ActiveState")) ≡ ok active)
    × ((trim_space active ≡ codes "inactive") ⊎ (trim_space active ≡ codes "failed"))

-- The directory of a control group: the path of the group, taken from the root of the cgroups, and
-- below that root, with the name of the unit at the end of the group.
abbrev pub IsBelow : Manager → Text → Text → Text → Type 0
IsBelow m unit group directory =
    (root : Text) × (m.absolute_root ≡ ok root)
    × (path_base group ≡ unit)
    × (directory ≡ join_path root (trim_prefix group (codes "/")))
    × (has_prefix directory (root ++ codes "/") ≡ true)

cgroup_directory-IsBelow :
    (m : Manager) (unit group directory : Text)
    → cgroup_directory m.absolute_root unit group ≡ ok directory
    → IsBelow m unit group directory
unfolding cgroup_directory
cgroup_directory-IsBelow m unit group directory h =
    let (shape, h) =
      >>-eq-ok
        (refuse
          (group == []
            || not (is_absolute group)
            || not (clean group == group)
            || not (path_base group == unit))
          _)
        _ h in
    let (root, found, h) = >>=-eq-ok m.absolute_root _ h in
    let target = join_path root (trim_prefix group (codes "/")) in
    let (beneath, same) =
      >>-eq-ok (refuse (target == root || not (has_prefix target (root ++ codes "/"))) _) _ h in
    let (_, named) = or-split _ (not (path_base group == unit)) (refuse-eq-ok _ _ shape) in
    let (_, below) = or-split (target == root) _ (refuse-eq-ok _ _ beneath) in
    (
      root,
      found,
      ==→≡ (path_base group) unit (negated_false _ named),
      sym (ok-inj same),
      subst (λ t. has_prefix t (root ++ codes "/") ≡ true) (ok-inj same) (negated_false _ below),
    )

abbrev pub IsKilled : Manager → (Text → List Read) → Text → Type 0
IsKilled m ticks unit =
    (group : Text) × (directory : Text) × (m.systemctl (show_property unit (codes "ControlGroup"))
      ≡ ok group)
    × IsBelow m unit (trim_space group) directory
    × IsEmptied (ticks (join_path directory (codes "cgroup.events")))

abbrev pub IsGone : Manager → (Text → List Read) → Text → Type 0
IsGone m ticks unit =
    (load : Text) × (m.systemctl (show_property unit (codes "LoadState")) ≡ ok load)
    × ((trim_space load ≡ codes "not-found")
        ⊎ (((trim_space load ≡ codes "loaded") × IsInactive m unit) ⊎ IsKilled m ticks unit))

active_state :
    (load : Text) (answer : Result Text)
    → check_active load answer ≡ pass
    → (load ≡ codes "loaded")
      × ((active : Text) × (answer ≡ ok active)
          × ((trim_space active ≡ codes "inactive") ⊎ (trim_space active ≡ codes "failed")))
unfolding terminal_state_without_control_group
active_state load (err e) h = cc
active_state load (ok active) h =
    let (_, terminal) = or-split (ltb 128 (length active)) _ (refuse-eq-ok _ _ h) in
    let (loaded, state) = and-split (load == codes "loaded") _ (negated_false _ terminal) in
    (
      ==→≡ load (codes "loaded") loaded,
      (
        active,
        refl,
        elim (Bool-cases (trim_space active == codes "inactive")) [
          | inl e ↦ inl (==→≡ (trim_space active) (codes "inactive") e)
          | inr e ↦ inr (==→≡ (trim_space active) (codes "failed") (ground arith))
        ],
      ),
    )

inactive :
    (m : Manager) (unit load : Text)
    → confirm_inactive m unit load ≡ pass
    → (load ≡ codes "loaded") × IsInactive m unit
unfolding confirm_inactive
inactive m unit load h = active_state load _ h

waited : (kill : Result Text) (wait : Check) → teardown_result kill wait ≡ pass → wait ≡ pass
waited kill (ok tt) h = refl
waited (ok output) (err e) h = cc
waited (err k) (err e) h = cc

killed :
    (m : Manager) (ticks : Text → List Read) (unit group : Text)
    → m.systemctl (show_property unit (codes "ControlGroup")) ≡ ok group
    → kill_scope m ticks unit (trim_space group) ≡ pass
    → IsKilled m ticks unit
unfolding kill_scope
killed m ticks unit group asked h =
    let (directory, found, h) =
      >>=-eq-ok (cgroup_directory m.absolute_root unit (trim_space group)) _ h in
    (
      group,
      directory,
      asked,
      cgroup_directory-IsBelow m unit (trim_space group) directory found,
      wait-IsEmptied _ (waited _ _ h),
    )

stopped :
    (m : Manager) (ticks : Text → List Read) (unit load : Text)
    → stop_scope m ticks unit load ≡ pass
    → ((load ≡ codes "loaded") × IsInactive m unit) ⊎ IsKilled m ticks unit
unfolding stop_scope
stopped m ticks unit load h =
    let (group, asked, h) =
      >>=-eq-ok (m.systemctl (show_property unit (codes "ControlGroup"))) _ h in
    let (_, h) = >>-eq-ok (refuse (ltb 4096 (length group)) _) _ h in
    elim (Bool-cases (trim_space group == [])) [
      | inl e ↦ inl (inactive m unit load (rw e at h))
      | inr e ↦ inr (killed m ticks unit group asked (rw e at h))
    ]

-- A teardown succeeds only if systemd does not know the unit, or it is loaded without a control
-- group and inactive or failed, or its control group, which bears the name of the unit, is read as
-- empty or missing before the deadline, in the directory that is the path of the group taken from
-- the root of the cgroups and that lies below this root.
pub terminate-IsGone :
    (m : Manager) (ticks : Text → List Read) (unit : Text)
    → terminate m ticks unit ≡ pass
    → (valid_unit_name unit ≡ true) × IsGone m ticks unit
unfolding terminate
terminate-IsGone m ticks unit h =
    let (valid, h) = >>-eq-ok (refuse (not (valid_unit_name unit)) _) _ h in
    let (load, asked, h) = >>=-eq-ok (m.systemctl (show_property unit (codes "LoadState"))) _ h in
    let (_, h) = >>-eq-ok (refuse (ltb 128 (length load)) _) _ h in
    (
      negated_false _ (refuse-eq-ok _ _ valid),
      (
        load,
        asked,
        elim (Bool-cases (trim_space load == codes "not-found")) [
          | inl e ↦ inl (==→≡ (trim_space load) (codes "not-found") e)
          | inr e ↦ inr (stopped m ticks unit (trim_space load) (rw e at h))
        ],
      ),
    )
