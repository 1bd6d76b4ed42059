-- ===== src/Resource/Bounded.antt =====
-- What the verification of a resource scope establishes.
use plug_and_prejudice.Analyze.Paths.{path_base}
use plug_and_prejudice.Policy.{cpu_quota_percent, second}
use plug_and_prejudice.Prelude.{
  ==→≡, >>-eq-ok, >>=-eq-ok, All, All-map, Bool, Bool-cases, List, Option, Option-cases, Result,
  String, Text, Text-eq, [], ap, arith, codes, each, each-eq-ok, eqb, err, false, has_prefix, inl,
  inr, less, negated_false, none, not, ok, ok-inj, or-split, pass, refl, refuse, refuse-eq-ok, some,
  subst, sym, true, true-ne-false, ℕ, ◌&&◌, ◌++◌, ◌<◌, ◌==◌, ◌||◌, ◌∙◌, ◌∷◌, ◌≡◌, ◌≢◌, ◌≤◌, ◌⊎◌,
}
use plug_and_prejudice.Prelude.Int.{ltb_ℤ, natural, neg_part, negsuc, pos, pos_part, ℤ}
use plug_and_prejudice.Report.Validate.Paths.{clean}
use plug_and_prejudice.Resource.Strings.{
  fields, lines, parse_int, positive, trim_prefix, trim_space,
}
use plug_and_prejudice.Resource.Units.{join_path, unified_cgroup_path, valid_unit_name}
use plug_and_prejudice.Resource.Verify.{
  Manager, Read, check_cpu_fields, check_limit, checked_limits, failed, file_content, not_exist,
  own_directory, read, read_limit, verify,
}

-- A limit that the cgroup sets: a number that is at most the policy's.
abbrev pub IsLimited : Manager → Text → Text × ℕ → Type 0
IsLimited m directory limit =
    (content : Text) × (n : ℕ) × (m.read_file (join_path directory limit.0) ≡ read content)
    × (parse_int (trim_space content) ≡ some (pos n))
    × (n ≤ limit.1)

-- A quota of at most one CPU.
abbrev pub IsSlowed : Manager → Text → Type 0
IsSlowed m directory =
    (content : Text) × (quota : Text) × (period : Text) × (q : ℕ) × (p : ℕ) × (m.read_file
        (join_path directory (codes "cpu.max"))
      ≡ read content)
    × (fields content ≡ quota ∷ period ∷ [])
    × (parse_int quota ≡ some (pos q))
    × (parse_int period ≡ some (pos p))
    × (0 < q)
    × (q ≤ p)

-- The directory of the own cgroup: the cgroup ends in the name of the unit, and the directory is its
-- path, taken from the root of the cgroups, and is that root or below it.
abbrev pub IsOwn : Manager → Text → Text → Type 0
IsOwn m unit directory =
    (content : Text) × (group : Text) × (root : Text) × (m.proc_cgroup ≡ read content)
    × (unified_cgroup_path (lines content) ≡ ok group)
    × (path_base group ≡ unit)
    × (m.absolute_root ≡ ok root)
    × (directory ≡ join_path root (trim_prefix (clean group) (codes "/")))
    × ((directory ≡ root) ⊎ (has_prefix directory (root ++ codes "/") ≡ true))

read-content : (r : Read) (content : Text) → file_content r ≡ ok content → r ≡ read content
read-content (read text) content h = ap read (ok-inj h)
read-content not_exist content h = cc
read-content failed content h = cc

second_holds : (a b : Bool) → (not a && not b) ≡ false → a ≡ false → b ≡ true
second_holds a b h k = ground arith

own_directory-IsOwn :
    (m : Manager) (unit directory : Text)
    → own_directory m unit ≡ ok directory
    → IsOwn m unit directory
unfolding own_directory
own_directory-IsOwn m unit directory h =
    let (_, h) = >>-eq-ok (refuse (not (valid_unit_name unit)) _) _ h in
    let (content, file, h) = >>=-eq-ok (file_content m.proc_cgroup) _ h in
    let (group, found, h) = >>=-eq-ok (unified_cgroup_path (lines content)) _ h in
    let (named, h) = >>-eq-ok (refuse (not (path_base group == unit)) _) _ h in
    let (root, absolute, h) = >>=-eq-ok m.absolute_root _ h in
    let target = join_path root (trim_prefix (clean group) (codes "/")) in
    let (inside, same) =
      >>-eq-ok (refuse (not (target == root) && not (has_prefix target (root ++ codes "/"))) _) _
        h in
    let place : (target ≡ root) ⊎ (has_prefix target (root ++ codes "/") ≡ true) =
      elim (Bool-cases (target == root)) [
        | inl e ↦ inl (==→≡ target root e)
        | inr e ↦ inr (second_holds _ _ (refuse-eq-ok _ _ inside) e)
      ] in
    (
      content,
      group,
      root,
      read-content m.proc_cgroup content file,
      found,
      ==→≡ (path_base group) unit (negated_false _ (refuse-eq-ok _ _ named)),
      absolute,
      sym (ok-inj same),
      subst (λ t. (t ≡ root) ⊎ (has_prefix t (root ++ codes "/") ≡ true)) (ok-inj same) place,
    )

parsed_number :
    (o : Option ℤ) (z : ℤ)
    → (elim o as (λ _. Result ℤ) [ none ↦ err "parse" | some value ↦ ok value ]) ≡ ok z
    → (n : ℤ) × (o ≡ some n) × (n ≡ z)
parsed_number none z h = cc
parsed_number (some n) z h = (n, refl, ok-inj h)

read_limit-number :
    (r : Read) (z : ℤ)
    → read_limit r ≡ ok z
    → ltb_ℤ z (pos 0) ≡ false
    → (content : Text) × (r ≡ read content) × (parse_int (trim_space content) ≡ some z)
unfolding read_limit
read_limit-number r z h natural_z =
    let (content, found, h) = >>=-eq-ok (file_content r) _ h in
    elim (Bool-cases (trim_space content == codes "max")) [
      | inl e ↦
          let h = ok-inj (rw e at h) in
          absurd (true-ne-false (sym (ap (λ t. ltb_ℤ t (pos 0)) (sym h)) ∙ natural_z))
      | inr e ↦
          let (n, parsed, h) = parsed_number (parse_int (trim_space content)) z (rw e at h) in
          (content, read-content r content found, parsed ∙ ap some h)
    ]

check_limit-IsLimited :
    (m : Manager) (directory : Text) (limit : Text × ℕ)
    → check_limit m directory limit ≡ pass
    → IsLimited m directory limit
unfolding check_limit
check_limit-IsLimited m directory (name, bound) h =
    let (z, found, h) = >>=-eq-ok (read_limit (m.read_file (join_path directory name))) _ h in
    let (low, high) = or-split (ltb_ℤ z (pos 0)) _ (refuse-eq-ok _ _ h) in
    let (content, file, parsed) = read_limit-number _ z found low in
    (
      content,
      pos_part z,
      file,
      parsed ∙ ap some (natural z low),
      ground (arith, ap neg_part (natural z low)),
    )

no_pass : {message : String} → err message ≢ pass
no_pass h = cc

cpu_numbers :
    (q p : ℤ)
    → (not (ltb_ℤ (pos 0) q)
        || not (ltb_ℤ (pos 0) p)
        || not (eqb cpu_quota_percent 100)
        || ltb_ℤ p q)
      ≡ false
    → (q ≡ pos (pos_part q)) × (p ≡ pos (pos_part p)) × (0 < pos_part q) × (pos_part q ≤ pos_part p)
cpu_numbers (pos q) (pos p) h = (refl, refl, ground arith, ground arith)
cpu_numbers (negsuc q) p h = absurd (ground arith)
cpu_numbers (pos q) (negsuc p) h = absurd (ground arith)

check_cpu-IsSlowed :
    (parts : List Text)
    → check_cpu_fields parts ≡ pass
    → (quota : Text) × (period : Text) × (q : ℕ) × (p : ℕ) × (parts ≡ quota ∷ period ∷ [])
      × (parse_int quota ≡ some (pos q))
      × (parse_int period ≡ some (pos p))
      × (0 < q)
      × (q ≤ p)
unfolding check_cpu_fields
check_cpu-IsSlowed [] h = cc
check_cpu-IsSlowed (quota ∷ []) h = cc
check_cpu-IsSlowed (quota ∷ period ∷ other ∷ rest) h = cc
check_cpu-IsSlowed (quota ∷ period ∷ []) h = elim (Bool-cases (quota == codes "max")) [
  | inl e ↦ absurd (no_pass (rw (e, check_cpu_fields) at h))
  | inr e ↦ elim (Option-cases (parse_int quota)) [
    | inl k ↦ absurd (no_pass (rw (e, k, check_cpu_fields) at h))
    | inr (q, k) ↦ elim (Option-cases (parse_int period)) [
      | inl l ↦ absurd (no_pass (rw (e, k, l, check_cpu_fields) at h))
      | inr (p, l) ↦
          let checked = refuse-eq-ok _ _ (rw (e, k, l, check_cpu_fields) at h) in
          let (q_number, p_number, less, same_or_less) = cpu_numbers q p checked in
          (
            quota,
            period,
            pos_part q,
            pos_part p,
            refl,
            k ∙ ap some q_number,
            l ∙ ap some p_number,
            less,
            same_or_less,
          )
    ]
  ]
]

-- A scope that is verified is the own cgroup of the process: the cgroup bears the name of the unit,
-- and in its directory, which is the path of that cgroup taken from the root of the cgroups and is
-- that root or below it, memory, swap and tasks are
-- limited to numbers that are at most the policy's, and the processor to a positive quota that is at
-- most its period.
pub verify-IsBounded :
    (m : Manager) (unit : Text)
    → verify m unit ≡ pass
    → (directory : Text) × IsOwn m unit directory
      × All (IsLimited m directory) checked_limits
      × IsSlowed m directory
unfolding verify
verify-IsBounded m unit h =
    let (directory, own, h) = >>=-eq-ok (own_directory m unit) _ h in
    let (limits, h) = >>-eq-ok (each (check_limit m directory) checked_limits) _ h in
    let (content, file, h) =
      >>=-eq-ok (file_content (m.read_file (join_path directory (codes "cpu.max")))) _ h in
    let (quota, period, q, p, parts, first, second, positive, small) =
      check_cpu-IsSlowed (fields content) h in
    (
      directory,
      own_directory-IsOwn m unit directory own,
      All-map (λ l. check_limit m directory l ≡ pass) (IsLimited m directory)
          (check_limit-IsLimited m directory) checked_limits
          (each-eq-ok (check_limit m directory) checked_limits limits),
      (
        content,
        quota,
        period,
        q,
        p,
        read-content _ content file,
        parts,
        first,
        second,
        positive,
        small,
      ),
    )
