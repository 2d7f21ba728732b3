-- ===== src/FileNames.antt =====
-- `FileInfo` of cpplint.py: a file's name below the root of its repository. What the program calls of
-- Python's `os` and `os.path` is a parameter; the file system does not change while it is asked.
pub mod Ends
use dyod_ws.Base.{
  ℕ, suc, ◌+◌, Bool, true, false, ◌||◌, Option, none, some, List, [], ◌∷◌, ◌++◌, length, take, drop,
  if◌then◌else◌,
}
use dyod_ws.Base.Loop.{Round, again, stop, iterate}
use dyod_ws.Base.Text.{Str, txt, str_eq, is_one_of, replace, join}

-- The functions of `os` and `os.path`; `common_prefix` is `commonprefix` of two paths.
pub record Os : Type 0 where
  pub abspath : Str → Str
  pub exists : Str → Bool
  pub dirname : Str → Str
  pub join_path : Str → Str → Str
  pub split : Str → Str × Str
  pub splitext : Str → Str × Str
  pub normpath : Str → Str
  pub common_prefix : Str → Str → Str
  pub sep : Str

-- `_IsSourceExtension`
unfoldable pub is_source_extension : Str → Bool
is_source_extension s = is_one_of s (txt "c" ∷ txt "cc" ∷ txt "cpp" ∷ txt "cxx" ∷ [])

-- The directories that the two loops hold: the root so far, and the one that is looked at.
pub record Climb : Type 0 where
  pub root_dir : Str
  pub dir : Str

module _ (os : Os) where
  unfoldable pub full_name : Str → Str
  full_name filename = replace (txt "\\") (txt "/") (os.abspath filename)

  unfoldable pub has_svn : Str → Bool
  has_svn dir = os.exists (os.join_path dir (txt ".svn"))

  unfoldable pub has_vcs : Str → Bool
  has_vcs dir =
      os.exists (os.join_path dir (txt ".git"))
      || os.exists (os.join_path dir (txt ".hg"))
      || os.exists (os.join_path dir (txt ".svn"))

  -- The loop over the parents that hold `.svn`.
  unfoldable pub svn_round : Climb → Round Climb Str
  unfolding has_svn
  svn_round s =
      if has_svn s.dir
      then again (record { root_dir = os.dirname s.root_dir; dir = os.dirname s.dir })
      else stop s.root_dir

  -- The loop over all parents.
  unfoldable pub vcs_round : Climb → Round Climb Str
  unfolding has_vcs
  vcs_round s =
      if str_eq s.dir (os.dirname s.dir)
      then stop s.root_dir
      else again (record {
        root_dir = if has_vcs s.dir then s.dir else s.root_dir;
        dir = os.dirname s.dir;
      })

  -- `fullname[len(prefix) + 1:]`
  below : Str → Str → Str → Str
  below root_dir project_dir fullname =
      drop (length (os.common_prefix root_dir project_dir) + 1) fullname

  svn_name : Str → Str → Option Str
  unfolding svn_round below
  svn_name project_dir fullname =
      elim (iterate svn_round (suc (length project_dir))
        (record { root_dir = project_dir; dir = os.dirname project_dir })) [
          | none ↦ none
          | some root_dir ↦ some (below root_dir project_dir fullname)
        ]

  vcs_name : Str → Str → Option Str
  unfolding vcs_round below has_vcs
  vcs_name project_dir fullname =
      elim (iterate vcs_round (suc (length project_dir))
        (record { root_dir = project_dir; dir = project_dir })) [
          | none ↦ none
          | some root_dir ↦
              some (if has_vcs root_dir then below root_dir project_dir fullname else fullname)
        ]

  -- `RepositoryName`; `none` where a loop has not come to its end within as many rounds as its
  -- directory has characters, and one.
  unfoldable pub repository_name : Str → Option Str
  unfolding full_name svn_name vcs_name has_svn
  repository_name filename =
      let fullname = full_name filename in
      let project_dir = os.dirname fullname in
      if os.exists fullname
      then if has_svn project_dir
        then svn_name project_dir fullname
        else vcs_name project_dir fullname
      else some fullname

  -- `Split`: the directory, the base name and the extension.
  unfoldable pub split_name : Str → Option (Str × Str × Str)
  split_name filename = elim (repository_name filename) [
    | none ↦ none
    | some googlename ↦
        let (project, rest) = os.split googlename in
        let (base, extension) = os.splitext rest in some (project, base, extension)
  ]

  unfoldable pub base_name : Str → Option Str
  base_name filename = elim (split_name filename) [ none ↦ none | some (d, b, e) ↦ some b ]

  unfoldable pub extension : Str → Option Str
  extension filename = elim (split_name filename) [ none ↦ none | some (d, b, e) ↦ some e ]

  unfoldable pub no_extension : Str → Option Str
  no_extension filename = elim (split_name filename) [
    | none ↦ none
    | some (d, b, e) ↦ some (join (txt "/") (d ∷ b ∷ []))
  ]

  unfoldable pub is_source : Str → Option Bool
  is_source filename = elim (extension filename) [
    | none ↦ none
    | some e ↦ some (is_source_extension (drop 1 e))
  ]
