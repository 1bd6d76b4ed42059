-- ===== src/Broker/Plugins.antt =====
-- `installedPluginIDs` of cmd/plug-prejudice-broker/main.go. The directory is given by what its
-- `ReadDir` returns: batches without an error, and a last one whose error is the end of the directory
-- or another one.
use plug_and_prejudice.Prelude.{
  Bool, List, Result, Text, [], leb, length, less, not, ok, refuse, ℕ, ◌++◌, ◌>>=◌, ◌>>◌, ◌||◌, ◌∷◌,
}
use plug_and_prejudice.Prelude.Sort.{sort}
use plug_and_prejudice.Sandbox.Names.{valid_plugin_id}

abbrev pub max_installed_plugins : ℕ
max_installed_plugins = 1024

pub record Entry : Type 0 where
  pub name : Text
  pub is_symlink : Bool
  pub is_dir : Bool

unfoldable pub unacceptable : Entry → Bool
unacceptable entry = not (valid_plugin_id entry.name) || entry.is_symlink || not entry.is_dir

unfoldable pub add_entries : List Text → List Entry → Result (List Text)
add_entries plugins [] = ok plugins
add_entries plugins (entry ∷ entries) = do
  refuse (leb max_installed_plugins (length plugins)) "plugins root entry count exceeds 1024"
  refuse (unacceptable entry) "plugins root contains an unacceptable entry"
  add_entries (plugins ++ entry.name ∷ []) entries

unfoldable pub read_batches : List Text → List (List Entry) → List Entry → Bool → Result (List Text)
unfolding add_entries
read_batches plugins [] last at_end = do
  plugins ← add_entries plugins last
  refuse (not at_end) "read plugins root"
  ok plugins
read_batches plugins (entries ∷ batches) last at_end = do
  plugins ← add_entries plugins entries
  read_batches plugins batches last at_end

unfoldable pub installed_plugin_ids : List (List Entry) → List Entry → Bool → Result (List Text)
unfolding read_batches
installed_plugin_ids batches last at_end = do
  plugins ← read_batches [] batches last at_end
  ok (sort less plugins)
