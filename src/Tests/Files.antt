-- ===== src/Tests/Files.antt =====
-- The theorems on file names and on calls of the error handler, for concrete file systems and states.
use dyod_ws.Base.{
  ℕ, ◌<◌, true, false, ◌||◌, ◌≡◌, ◌⊎◌, inl, inr, refl, All, none, some, [], ◌∷◌, ◌++◌, arith,
  length, Bool-cases, if◌then◌else◌, ◌==◌,
}
use dyod_ws.Base.Loop.{iterate}
use dyod_ws.Base.Text.{Str, txt, has, ends_with}
use dyod_ws.FileNames.{Os, svn_round, repository_name}
use dyod_ws.FileNames.Ends.{Shortens, NoSvnAtRoot, repository_name_total, svn_loop_diverges}
use dyod_ws.HeaderGuard.Variable.{is_macro_character, get_header_guard_cpp_variable-macro}

-- A path with slashes: what is in front of the last one, or the root.
abbrev up : Str → Str
up [] = []
up (c ∷ s) = if has b'/' s then c ∷ up s else []

abbrev parent : Str → Str
parent [] = []
parent (c ∷ s) = if has b'/' s then c ∷ up s else if c == b'/' then c ∷ [] else []

up-lt : (s : Str) → has b'/' s ≡ true → length (up s) < length s
unfolding has
up-lt [] h = absurd (let none : false ≡ true = h in cc)
up-lt (c ∷ s) h = elim (Bool-cases (has b'/' s)) [
  | inl y ↦ rw y (omega (arith, up-lt s y))
  | inr n ↦ rw n (omega arith)
]

parent-bare :
    (c : ℕ) (s : Str)
    → has b'/' s ≡ false
    → ((c ∷ s) ≡ b'/' ∷ []) ⊎ (length (parent (c ∷ s)) < length (c ∷ s))
parent-bare c [] n = elim (Bool-cases (c == b'/')) [
  | inl y ↦ inl (grind arith)
  | inr k ↦ inr (rw (n, k) (omega arith))
]
parent-bare c (d ∷ s) n = inr (elim (Bool-cases (c == b'/')) [
  | inl y ↦ rw (n, y) (omega arith)
  | inr k ↦ rw (n, k) (omega arith)
])

-- A path is empty, the root, or longer than its parent.
parent-cases : (p : Str) → (p ≡ []) ⊎ ((p ≡ b'/' ∷ []) ⊎ (length (parent p) < length p))
parent-cases [] = inl refl
parent-cases (c ∷ s) = elim (Bool-cases (has b'/' s)) [
  | inl y ↦ inr (inr (rw y (omega (arith, up-lt s y))))
  | inr n ↦ inr (parent-bare c s n)
]

-- A file system with one checkout, by git.
abbrev small : Os
small = record {
  abspath = λ p. p;
  exists = λ p. ends_with (txt ".git") p || ends_with (txt ".h") p;
  dirname = parent;
  join_path = λ p q. p ++ (b'/' ∷ q);
  split = λ p. (parent p, p);
  splitext = λ p. (p, []);
  normpath = λ p. p;
  common_prefix = λ p q. p;
  sep = txt "/";
}

small-Shortens : Shortens small
unfolding has
small-Shortens p = elim (parent-cases p) [
  | inl e ↦ inl (rw e refl)
  | inr (inl e) ↦ inl (rw e refl)
  | inr (inr l) ↦ inr l
]

small-NoSvnAtRoot : NoSvnAtRoot small
unfolding dyod_ws.FileNames.has_svn ends_with txt
small-NoSvnAtRoot p h = elim (parent-cases p) [
  | inl e ↦ rw e refl
  | inr (inl e) ↦ rw e refl
  | inr (inr l) ↦ absurd (let l' = rw h at l in omega arith)
]

repository_name_total_example : (name : Str) × (repository_name small (txt "/r/a/b.h") ≡ some name)
repository_name_total_example =
    repository_name_total small (txt "/r/a/b.h") small-Shortens small-NoSvnAtRoot

get_header_guard_cpp_variable-macro_example : All (λ c. is_macro_character c ≡ true) (txt "A_B_H_")
unfolding dyod_ws.HeaderGuard.get_header_guard_cpp_variable repository_name ends_with txt
    dyod_ws.Base.Text.replace dyod_ws.HeaderGuard.plain_name dyod_ws.Re.re_sub has iterate
    dyod_ws.HeaderGuard.guard_of dyod_ws.Base.Text.to_upper
get_header_guard_cpp_variable-macro_example =
    get_header_guard_cpp_variable-macro small (λ p. none) none (txt "/r/a/b.h") (txt "A_B_H_") refl

-- The same with a directory `.svn` everywhere.
abbrev versioned : Os
versioned = record small { exists = λ p. true }

svn_loop_diverges_example :
    iterate (svn_round versioned) 9 (record { root_dir = txt "/a"; dir = txt "/" }) ≡ none
unfolding txt has dyod_ws.FileNames.has_svn
svn_loop_diverges_example = svn_loop_diverges versioned (txt "/a") (txt "/") 9 refl refl
