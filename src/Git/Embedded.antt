-- ===== src/Git/Embedded.antt =====
-- CopyManifests of pkg/gitutils/manifests.go: the files embedded in the program are copied to a work
-- tree. The embedded tree is a parameter; what its directories list can be read and opened.
use karlon.Base.{String, List, [], ◌∷◌}
use karlon.Base.Path.{join_path}
use karlon.Base.Result.{Error}
use karlon.Base.Text.{split, sprint}
use karlon.Services.{Api, Entry, Entries, file, folder, end, entry_then, file_create, file_write}
use karlon.Services.Exec.{Exec, ◌>>=◌, ◌>>◌, pure, perform, must}

-- `components[1:]`: the path without its first component
abbrev pub drop_first : List String → List String
drop_first [] = []
drop_first (c ∷ cs) = cs

-- where an embedded file goes
unfoldable pub destination : String → String → String
destination mgmt_path file_path =
    join_path (mgmt_path ∷ join_path (drop_first (split "/" file_path)) ∷ [])

module _ {api : Api} where
  unfoldable pub copy_file : String → String → String → String → Exec api Error (Unit {0})
  copy_file dir file_path text mgmt_path = do
    let dst_path = destination mgmt_path file_path
    created ← perform (file_create dir dst_path)
    must (sprint ("failed to create destination file " ∷ dst_path ∷ [])) created
    copied ← perform (file_write dir dst_path text)
    must "failed to copy embedded file" copied

  unfoldable mutual
    pub copy_entry : String → String → Entry → String → Exec api Error (Unit {0})
    copy_entry dir root (file name text) mgmt_path =
        copy_file dir (join_path (root ∷ name ∷ [])) text mgmt_path
    copy_entry dir root (folder name items) mgmt_path =
        copy_manifests dir (join_path (root ∷ name ∷ [])) items mgmt_path

    pub copy_manifests : String → String → Entries → String → Exec api Error (Unit {0})
    copy_manifests dir root end mgmt_path = pure tt
    copy_manifests dir root (entry_then item items) mgmt_path = do
      copy_entry dir root item mgmt_path
      copy_manifests dir root items mgmt_path
