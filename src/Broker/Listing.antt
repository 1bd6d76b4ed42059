-- ===== src/Broker/Listing.antt =====
-- What the list of the plugins holds.
use plug_and_prejudice.Broker.Plugins.{
  Entry, add_entries, installed_plugin_ids, max_installed_plugins, read_batches, unacceptable,
}
use plug_and_prejudice.Policy.{second}
use plug_and_prejudice.Prelude.{
  >>-eq-ok, >>=-eq-ok, All, Bool, Bool-cases, List, Result, Text, [], ap, append-nil, append_assoc,
  arith, concat, err, false, inl, inr, leb, length, length-append, less, map, not, negated_false,
  ok, ok-inj, refl, refuse, refuse-eq-ok, sym, true, ◌++◌, ◌+◌, ◌>>=◌, ◌>>◌, ◌↔◌, ◌∙◌, ◌∷◌, ◌≡◌,
  ◌≤◌,
}
use plug_and_prejudice.Prelude.Sort.{sort}

-- The entries that come to the list `plugins`, and the list that results.
abbrev Adds : List Text → List Entry → List Text → Type 0
Adds plugins entries out =
    (All (λ entry. unacceptable entry ≡ false) entries)
    × (length plugins + length entries ≤ max_installed_plugins)
    × (out ≡ plugins ++ map (λ entry. entry.name) entries)

add_entries-ok :
    (plugins : List Text) (entries : List Entry) (out : List Text)
    → length plugins ≤ max_installed_plugins
    → (add_entries plugins entries ≡ ok out) ↔ Adds plugins entries out
unfolding add_entries
add_entries-ok plugins [] out b = (
  λ h. (tt, omega arith, sym (ok-inj h) ∙ sym (append-nil plugins)),
  λ (_, _, e). ap ok (sym (append-nil plugins) ∙ sym e),
)
add_entries-ok plugins (entry ∷ entries) out b = (
  λ h.
      let (few, h) = >>-eq-ok (refuse (leb max_installed_plugins (length plugins)) _) _ h in
      let (fine, h) = >>-eq-ok (refuse (unacceptable entry) _) _ h in
      let few = refuse-eq-ok _ _ few in
      let one = length-append plugins (entry.name ∷ []) in
      let (fine_rest, few_rest, same) =
        (add_entries-ok (plugins ++ entry.name ∷ []) entries out (ground arith)).0 h in
      (
        (refuse-eq-ok _ _ fine, fine_rest),
        omega (arith, few_rest, one),
        same ∙ append_assoc plugins (entry.name ∷ []) (map (λ e. e.name) entries),
      ),
  λ ((fine, rest), few, same).
      let free : leb max_installed_plugins (length plugins) ≡ false = ground arith in
      let one = length-append plugins (entry.name ∷ []) in
      rw (free, fine)
        ((add_entries-ok (plugins ++ entry.name ∷ []) entries out (omega (arith, few, one))).1 (
          rest,
          omega (arith, few, one),
          same ∙ sym (append_assoc plugins (entry.name ∷ []) (map (λ e. e.name) entries)),
        )),
)

add_entries-append :
    (plugins : List Text) (first second : List Entry)
    → add_entries plugins (first ++ second)
      ≡ (add_entries plugins first >>= λ out. add_entries out second)
unfolding add_entries
add_entries-append plugins [] second = refl
add_entries-append plugins (entry ∷ first) second =
    elim (Bool-cases (leb max_installed_plugins (length plugins))) [
      | inl full ↦ rw full refl
      | inr free ↦ elim (Bool-cases (unacceptable entry)) [
        | inl bad ↦ rw (free, bad) refl
        | inr fine ↦ rw (free, fine) (add_entries-append (plugins ++ entry.name ∷ []) first second)
      ]
    ]

-- The end of the loop over the batches.
finish : Bool → List Text → Result (List Text)
finish at_end plugins = do refuse (not at_end) "read plugins root"; ok plugins

bind_assoc :
    {A B C : Type 0} (m : Result A) (f : A → Result B) (g : B → Result C)
    → (m >>= f >>= g) ≡ (m >>= λ a. f a >>= g)
bind_assoc (err e) f g = refl
bind_assoc (ok a) f g = refl

bind_ext :
    {A B : Type 0} (m : Result A) (f g : A → Result B)
    → ((a : A) → f a ≡ g a)
    → (m >>= f) ≡ (m >>= g)
bind_ext (err e) f g h = refl
bind_ext (ok a) f g h = h a

-- Cutting the directory into batches changes nothing.
read_batches-concat :
    (plugins : List Text) (batches : List (List Entry)) (last : List Entry) (at_end : Bool)
    → read_batches plugins batches last at_end
      ≡ (add_entries plugins (concat batches ++ last) >>= finish at_end)
unfolding read_batches finish
read_batches-concat plugins [] last at_end = refl
read_batches-concat plugins (entries ∷ batches) last at_end =
    bind_ext (add_entries plugins entries) _ _ (λ out. read_batches-concat out batches last at_end)
    ∙ sym (bind_assoc (add_entries plugins entries) _ _)
    ∙ ap (λ m. m >>= finish at_end)
        (sym (add_entries-append plugins entries (concat batches ++ last))
          ∙ ap (add_entries plugins) (sym (append_assoc entries (concat batches) last)))

-- A list of plugins is printed exactly if the whole directory was read, it has at most
-- `maxInstalledPlugins` entries, and each of them is a directory, no symbolic link, and has the name
-- of a plugin. The list is then the names of all entries in their order, however they were batched.
pub installed_plugin_ids-ok :
    (batches : List (List Entry)) (last : List Entry) (at_end : Bool) (ids : List Text)
    → (installed_plugin_ids batches last at_end ≡ ok ids) ↔ (
        (at_end ≡ true)
        × All (λ entry. unacceptable entry ≡ false) (concat batches ++ last)
        × (length (concat batches ++ last) ≤ max_installed_plugins)
        × (ids ≡ sort less (map (λ entry. entry.name) (concat batches ++ last))))
unfolding installed_plugin_ids finish
installed_plugin_ids-ok batches last at_end ids = (
  λ h.
      let (out, read, h) = >>=-eq-ok (read_batches [] batches last at_end) _ h in
      let (added, adds, h') =
        >>=-eq-ok (add_entries [] (concat batches ++ last)) _
          (sym (read_batches-concat [] batches last at_end) ∙ read) in
      let (ended, same) = >>-eq-ok (refuse (not at_end) _) _ h' in
      let (fine, few, names) =
        (add_entries-ok [] (concat batches ++ last) added (omega arith)).0 adds in
      (
        negated_false at_end (refuse-eq-ok _ _ ended),
        fine,
        omega (arith, few),
        sym (ok-inj h) ∙ ap (sort less) (sym (ok-inj same) ∙ names),
      ),
  λ (ended, fine, few, same).
      let adds =
        (add_entries-ok [] (concat batches ++ last) _ (omega arith)).1
          (fine, omega (arith, few), refl) in
      rw (read_batches-concat [] batches last at_end, adds, ended) (ap ok (sym same)),
)
