-- ===== src/Includes/Sections.antt =====
-- The layout of a file's headers, and what a file that draws no message is like.
use dyod_ws.Base.{
  ℕ, ◌+◌, ◌≤◌, ◌<◌, Bool, true, false, ◌≡◌, refl, none, some, List, [], ◌∷◌, ◌++◌, arith, leb, ap,
  All, Option-cases, Bool-cases, inl, inr,
}
use dyod_ws.Includes.{
  HeaderType, c_sys_header, cpp_sys_header, likely_my_header, possible_my_header, other_header,
  IncludeState, next_section, check_next_include_order,
}

-- The headers of a file, in turn: the number of those that are out of order.
unfoldable pub refusals : List HeaderType → IncludeState → ℕ
refusals [] s = 0
refusals (h ∷ hs) s =
    let (s', answer) = check_next_include_order h s in
    (elim answer [ none ↦ 0 | some m ↦ 1 ]) + refusals hs s'

abbrev pub is_mine : HeaderType → Bool
is_mine likely_my_header = true
is_mine possible_my_header = true
is_mine _ = false

abbrev pub is_c : HeaderType → Bool
is_c c_sys_header = true
is_c _ = false

abbrev pub is_cpp : HeaderType → Bool
is_cpp cpp_sys_header = true
is_cpp _ = false

abbrev pub is_project : HeaderType → Bool
is_project c_sys_header = false
is_project cpp_sys_header = false
is_project _ = true

-- The file's own headers first, then those of C, then those of C++, then any of the project.
pub record Layout (hs : List HeaderType) : Type 0 where
  pub mine : List HeaderType
  pub c : List HeaderType
  pub cpp : List HeaderType
  pub rest : List HeaderType
  pub splits : hs ≡ mine ++ (c ++ (cpp ++ rest))
  pub all_mine : All (λ h. is_mine h ≡ true) mine
  pub all_c : All (λ h. is_c h ≡ true) c
  pub all_cpp : All (λ h. is_cpp h ≡ true) cpp
  pub all_project : All (λ h. is_project h ≡ true) rest

-- The same from a section on: what belongs before it is not there any more.
pub record LayoutFrom (section : ℕ) (hs : List HeaderType) : Type 0 where
  pub layout : Layout hs
  no_mine : 1 < section → layout.mine ≡ []
  no_c : 2 < section → layout.c ≡ []
  no_cpp : 3 < section → layout.cpp ≡ []

layout-nil : (section : ℕ) → LayoutFrom section []
layout-nil section = record {
  layout = record {
    mine = [];
    c = [];
    cpp = [];
    rest = [];
    splits = refl;
    all_mine = tt;
    all_c = tt;
    all_cpp = tt;
    all_project = tt;
  };
  no_mine = λ e. refl;
  no_c = λ e. refl;
  no_cpp = λ e. refl;
}

step-c :
    (section : ℕ) (hs : List HeaderType)
    → section ≤ 2
    → LayoutFrom 2 hs
    → LayoutFrom section (c_sys_header ∷ hs)
step-c section hs h l = record {
  layout = record {
    mine = [];
    c = c_sys_header ∷ l.layout.c;
    cpp = l.layout.cpp;
    rest = l.layout.rest;
    splits = ap (λ t. c_sys_header ∷ t) (rw (l.no_mine (omega arith)) at l.layout.splits);
    all_mine = tt;
    all_c = (refl, l.layout.all_c);
    all_cpp = l.layout.all_cpp;
    all_project = l.layout.all_project;
  };
  no_mine = λ e. refl;
  no_c = λ e. absurd (omega arith);
  no_cpp = λ e. absurd (omega arith);
}

step-cpp :
    (section : ℕ) (hs : List HeaderType)
    → section ≤ 3
    → LayoutFrom 3 hs
    → LayoutFrom section (cpp_sys_header ∷ hs)
step-cpp section hs h l = record {
  layout = record {
    mine = [];
    c = [];
    cpp = cpp_sys_header ∷ l.layout.cpp;
    rest = l.layout.rest;
    splits =
        ap (λ t. cpp_sys_header ∷ t)
          (rw (l.no_mine (omega arith), l.no_c (omega arith)) at l.layout.splits);
    all_mine = tt;
    all_c = tt;
    all_cpp = (refl, l.layout.all_cpp);
    all_project = l.layout.all_project;
  };
  no_mine = λ e. refl;
  no_c = λ e. refl;
  no_cpp = λ e. absurd (omega arith);
}

step-mine :
    (section : ℕ) (hs : List HeaderType) (x : HeaderType)
    → is_mine x ≡ true
    → section ≤ 1
    → LayoutFrom 1 hs
    → LayoutFrom section (x ∷ hs)
step-mine section hs x m h l = record {
  layout = record {
    mine = x ∷ l.layout.mine;
    c = l.layout.c;
    cpp = l.layout.cpp;
    rest = l.layout.rest;
    splits = ap (λ t. x ∷ t) l.layout.splits;
    all_mine = (m, l.layout.all_mine);
    all_c = l.layout.all_c;
    all_cpp = l.layout.all_cpp;
    all_project = l.layout.all_project;
  };
  no_mine = λ e. absurd (omega arith);
  no_c = λ e. absurd (omega arith);
  no_cpp = λ e. absurd (omega arith);
}

step-project :
    (section : ℕ) (hs : List HeaderType) (x : HeaderType)
    → is_project x ≡ true
    → LayoutFrom 4 hs
    → LayoutFrom section (x ∷ hs)
step-project section hs x m l = record {
  layout = record {
    mine = [];
    c = [];
    cpp = [];
    rest = x ∷ l.layout.rest;
    splits =
        ap (λ t. x ∷ t)
          (rw (l.no_mine (omega arith), l.no_c (omega arith), l.no_cpp (omega arith)) at
            l.layout.splits);
    all_mine = tt;
    all_c = tt;
    all_cpp = tt;
    all_project = (m, l.layout.all_project);
  };
  no_mine = λ e. refl;
  no_c = λ e. refl;
  no_cpp = λ e. refl;
}

-- The section that a header which is not refused leads to.
answered :
    (h : HeaderType) (s : IncludeState) (hs : List HeaderType)
    → refusals (h ∷ hs) s ≡ 0
    → (n : ℕ) × (next_section h s.section ≡ some n)
      × ((check_next_include_order h s).0.section ≡ n)
      × (refusals hs (check_next_include_order h s).0 ≡ 0)
unfolding refusals check_next_include_order
answered h s hs e = elim (Option-cases (next_section h s.section)) [
  | inl q ↦ absurd (ground (arith, q, e))
  | inr (n, q) ↦ (n, q, ground (arith, q), omega arith)
]

layout_step :
    (h : HeaderType) (section n : ℕ) (hs : List HeaderType)
    → next_section h section ≡ some n
    → LayoutFrom n hs
    → LayoutFrom section (h ∷ hs)
unfolding next_section
layout_step c_sys_header section n hs q l =
    step-c section hs (ground arith) (let e : n ≡ 2 = ground arith in rw e at l)
layout_step cpp_sys_header section n hs q l =
    step-cpp section hs (ground arith) (let e : n ≡ 3 = ground arith in rw e at l)
layout_step likely_my_header section n hs q l = elim (Bool-cases (leb section 1)) [
  | inl y ↦
      step-mine section hs likely_my_header refl (ground arith)
        (let e : n ≡ 1 = ground arith in rw e at l)
  | inr y ↦
      step-project section hs likely_my_header refl (let e : n ≡ 4 = ground arith in rw e at l)
]
layout_step possible_my_header section n hs q l = elim (Bool-cases (leb section 1)) [
  | inl y ↦
      step-mine section hs possible_my_header refl (ground arith)
        (let e : n ≡ 1 = ground arith in rw e at l)
  | inr y ↦
      step-project section hs possible_my_header refl (let e : n ≡ 4 = ground arith in rw e at l)
]
layout_step other_header section n hs q l =
    step-project section hs other_header refl (let e : n ≡ 4 = ground arith in rw e at l)

pub refusals-layout :
    (hs : List HeaderType) (s : IncludeState) → refusals hs s ≡ 0 → LayoutFrom s.section hs
refusals-layout [] s e = layout-nil s.section
refusals-layout (h ∷ hs) s e =
    let (n, q, at, later) = answered h s hs e in
    let l = refusals-layout hs (check_next_include_order h s).0 later in
    layout_step h s.section n hs q (rw at at l)
