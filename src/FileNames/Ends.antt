-- ===== src/FileNames/Ends.antt =====
-- When the search for the root of a repository comes to its end.
use dyod_ws.Base.{
  ℕ, zero, suc, ◌<◌, ◌≤◌, true, false, ◌≡◌, ◌∙◌, refl, ap, none, some, ◌⊎◌, if◌then◌else◌, inl, inr,
  arith, length, Bool-cases,
}
use dyod_ws.Base.Loop.{again, iterate, iterate_total, again-injective}
use dyod_ws.Base.Text.{Str, str_eq}
use dyod_ws.Base.TextLaws.{str_eq_refl}
use dyod_ws.FileNames.{
  Os, Climb, full_name, has_svn, has_vcs, svn_round, vcs_round, svn_name, vcs_name, below,
  repository_name,
}

-- `os.path.dirname` gives a shorter path, or the path itself, at a root.
abbrev pub Shortens : Os → Type 0
Shortens os = (p : Str) → (os.dirname p ≡ p) ⊎ (length (os.dirname p) < length p)

-- No root holds a directory `.svn`.
abbrev pub NoSvnAtRoot : Os → Type 0
NoSvnAtRoot os = (p : Str) → os.dirname p ≡ p → has_svn os p ≡ false

module _ (os : Os) (shortens : Shortens os) where
  dirname-le : (p : Str) → length (os.dirname p) ≤ length p
  dirname-le p = elim (shortens p) [ inl e ↦ omega (arith, ap length e) | inr h ↦ omega arith ]

  svn-shorter :
      NoSvnAtRoot os → (s s' : Climb) → svn_round os s ≡ again s' → length s'.dir < length s.dir
  unfolding svn_round
  svn-shorter bare s s' h = elim (Bool-cases (has_svn os s.dir)) [
    | inr n ↦ absurd (let h' = rw (svn_round, n) at h in cc)
    | inl y ↦
        let is_s' = again-injective _ _ (rw (svn_round, y) at h) in
        let at_dir = ap (λ (c : Climb). length c.dir) is_s' in
        elim (shortens s.dir) [
          | inl e ↦ absurd (let no = bare s.dir e in cc)
          | inr l ↦ omega (arith, at_dir)
        ]
  ]

  vcs-shorter : (s s' : Climb) → vcs_round os s ≡ again s' → length s'.dir < length s.dir
  unfolding vcs_round
  vcs-shorter s s' h = elim (Bool-cases (str_eq s.dir (os.dirname s.dir))) [
    | inl y ↦ absurd (let h' = rw (vcs_round, y) at h in cc)
    | inr n ↦
        let is_s' = again-injective _ _ (rw (vcs_round, n) at h) in
        let at_dir = ap (λ (c : Climb). length c.dir) is_s' in
        elim (shortens s.dir) [
          | inl e ↦ absurd (let same = ap (str_eq s.dir) e ∙ str_eq_refl s.dir in cc)
          | inr l ↦ omega (arith, at_dir)
        ]
  ]

  svn_ends :
      NoSvnAtRoot os
      → (project_dir : Str)
      → (root : Str) × (iterate
            (svn_round os)
            (suc (length project_dir))
            (record { root_dir = project_dir; dir = os.dirname project_dir })
          ≡ some root)
        × Unit {0}
  svn_ends bare project_dir =
      iterate_total (λ s. Unit) (λ a. Unit) (λ s. length s.dir) (svn_round os)
        (λ s s' k e. (tt, svn-shorter bare s s' e)) (λ s a k e. tt) (suc (length project_dir)) _
        (omega (arith, dirname-le project_dir)) tt

  vcs_ends :
      (project_dir : Str)
      → (root : Str) × (iterate
            (vcs_round os)
            (suc (length project_dir))
            (record { root_dir = project_dir; dir = project_dir })
          ≡ some root)
        × Unit {0}
  vcs_ends project_dir =
      iterate_total (λ s. Unit) (λ a. Unit) (λ s. length s.dir) (vcs_round os)
        (λ s s' k e. (tt, vcs-shorter s s' e)) (λ s a k e. tt) (suc (length project_dir)) _
        (omega arith) tt

-- Where `dirname` shortens every path but a root, and no root holds `.svn`, the search for the root of
-- the repository ends for every file, with a name.
pub repository_name_total :
    (os : Os) (filename : Str)
    → Shortens os
    → NoSvnAtRoot os
    → (name : Str) × (repository_name os filename ≡ some name)
unfolding repository_name svn_name vcs_name
repository_name_total os filename shortens bare =
    let fullname = full_name os filename in
    let project_dir = os.dirname fullname in
    elim (Bool-cases (os.exists fullname)) [
      | inr n ↦ (fullname, rw (repository_name, n))
      | inl y ↦ elim (Bool-cases (has_svn os project_dir)) [
        | inl v ↦
            let (root, e, _) = svn_ends os shortens bare project_dir in
            (below os root project_dir fullname, rw (repository_name, y, v, svn_name, e))
        | inr v ↦
            let (root, e, _) = vcs_ends os shortens project_dir in
            (
              if has_vcs os root then below os root project_dir fullname else fullname,
              rw (repository_name, y, v, vcs_name, e),
            )
      ]
    ]

-- From a root that holds `.svn` the loop over the parents never ends, whatever the number of rounds.
pub svn_loop_diverges :
    (os : Os) (root_dir root : Str) (fuel : ℕ)
    → os.dirname root ≡ root
    → has_svn os root ≡ true
    → iterate (svn_round os) fuel (record { root_dir = root_dir; dir = root }) ≡ none
unfolding svn_round iterate
svn_loop_diverges os root_dir root zero d h = refl
svn_loop_diverges os root_dir root (suc fuel) d h =
    rw (iterate, svn_round, h, d) (svn_loop_diverges os (os.dirname root_dir) root fuel d h)
