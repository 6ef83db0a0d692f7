-- ===== src/Platform/Files.antt =====
-- src/common/platform.cpp, the file system (the POSIX branch).
use nexus_ftp_engine.Prelude.{
  ℕ, zero, suc, ◌-◌, not, Option, Bool, true, false, ◌||◌, none, some, List, [], ◌∷◌, ◌++◌, length,
  replicate, if◌then◌else◌,
}
use nexus_ftp_engine.Bytes.{Bytes, bytes, bytes_eq}
use nexus_ftp_engine.Bytes.Decimal.{to_string}
use nexus_ftp_engine.Platform.{Host, Tm, FileInfo}

-- snprintf's %0<width>d
unfoldable pub zero_padded : ℕ → ℕ → Bytes
zero_padded width n = replicate (width - length (to_string n)) b'0' ++ to_string n

unfoldable pub format_time : Tm → Bytes
format_time t =
    zero_padded 4 t.year
    ++ zero_padded 2 t.month
    ++ zero_padded 2 t.day
    ++ zero_padded 2 t.hour
    ++ zero_padded 2 t.minute
    ++ zero_padded 2 t.second

module _ (h : Host) where
  open h use {World, stat, mkdir, rmdir, remove, rename, read_dir, gmtime}

  -- A directory entry: the defaults of FileInfo where stat fails.
  unfoldable pub file_info : Bytes → Bytes → World → FileInfo × World
  file_info path name w =
      let (found, w1) = stat (path ++ b'/' ∷ name) w in
      (
        elim found [
          | none ↦ record { name = name; is_directory = false; size = 0 }
          | some st ↦ record { name = name; is_directory = st.is_dir; size = st.st_size }
        ],
        w1,
      )

  unfoldable pub list_entries : Bytes → List Bytes → World → List FileInfo × World
  unfolding file_info
  list_entries path [] w = ([], w)
  list_entries path (name ∷ names) w =
      let skipped = list_entries path names w in
      let kept : List FileInfo × World =
        (let (fi, w1) = file_info path name w in
          let (entries, w2) = list_entries path names w1 in (fi ∷ entries, w2)) in
      if bytes_eq name (bytes ".") || bytes_eq name (bytes "..") then skipped else kept

  unfoldable pub list_directory : Bytes → World → List FileInfo × World
  unfolding list_entries
  list_directory path w =
      let (dir, w1) = read_dir path w in
      elim dir [ none ↦ ([], w1) | some names ↦ list_entries path names w1 ]

  unfoldable pub is_directory : Bytes → World → Bool × World
  is_directory path w =
      let (found, w1) = stat path w in (elim found [ none ↦ false | some st ↦ st.is_dir ], w1)

  unfoldable pub path_exists : Bytes → World → Bool × World
  path_exists path w =
      let (found, w1) = stat path w in (elim found [ none ↦ false | some st ↦ true ], w1)

  unfoldable pub delete_file : Bytes → World → Bool × World
  delete_file path w = remove path w

  unfoldable pub create_dir : Bytes → World → Bool × World
  create_dir path w = mkdir path w

  unfoldable pub remove_dir : Bytes → World → Bool × World
  remove_dir path w = rmdir path w

  unfoldable pub rename_file : Bytes → Bytes → World → Bool × World
  rename_file from to w = rename from to w

  unfoldable pub get_file_mod_time : Bytes → World → Bytes × World
  unfolding format_time
  get_file_mod_time path w =
      let (found, w1) = stat path w in
      (
        elim found [
          | none ↦ []
          | some st ↦ elim (gmtime st.st_mtime) [ none ↦ [] | some t ↦ format_time t ]
        ],
        w1,
      )

  -- The loop of removeDirRecursive over the entries of a directory, with its own call on a child.
  unfoldable pub remove_entries :
      (Bytes → World → Option (Bool × World))
      → Bytes
      → List FileInfo
      → World
      → Option (Bool × World)
  remove_entries remove_child path [] w = some (true, w)
  remove_entries remove_child path (e ∷ entries) w =
      let child = path ++ b'/' ∷ e.name in
      let removed : Option (Bool × World) =
        if e.is_directory then remove_child child w else some (delete_file child w) in
      elim removed [
        | none ↦ none
        | some (true, w1) ↦ remove_entries remove_child path entries w1
        | some (false, w1) ↦ some (false, w1)
      ]

  -- removeDirRecursive; the fuel bounds the depth of the tree, and `none` means that it ran out.
  unfoldable pub remove_dir_recursive : ℕ → Bytes → World → Option (Bool × World)
  unfolding remove_entries
  remove_dir_recursive zero path w = none
  remove_dir_recursive (suc fuel) path w =
      let remove_child = remove_dir_recursive fuel in
      let (is_dir, w1) = is_directory path w in
      let (entries, w2) = list_directory path w1 in
      let cleared = remove_entries remove_child path entries w2 in
      if not is_dir then some (delete_file path w1) else elim cleared [
        | none ↦ none
        | some (true, w3) ↦ some (remove_dir path w3)
        | some (false, w3) ↦ some (false, w3)
      ]
