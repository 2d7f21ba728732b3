-- ===== src/Includes/Order.antt =====
-- The order of headers that `CheckNextIncludeOrder` accepts.
use dyod_ws.Base.{ℕ, ◌≤◌, ◌<◌, ◌≡◌, ◌≢◌, ◌↔◌, Option, none, []}
use dyod_ws.Base.Text.{Str}
use dyod_ws.Includes.{HeaderType, c_sys_header, cpp_sys_header, IncludeState}

-- A header is refused exactly if it is a C system header behind the C section, or a C++ system
-- header behind the C++ section.
abbrev pub Refused : HeaderType → ℕ → Type 0
Refused c_sys_header section = 2 < section
Refused cpp_sys_header section = 3 < section
Refused _ section = ⊥

-- The section never moves backward and stays within the five, and a refused header leaves it as it
-- was and forgets the last header.
pub record Advances (header_type : HeaderType) (s s' : IncludeState) (answer : Option Str)
    : Type 0 where
  pub monotone : s.section ≤ s'.section
  pub bounded : s'.section ≤ 4
  pub includes_kept : s'.include_list ≡ s.include_list
  pub refused_iff : (answer ≢ none) ↔ Refused header_type s.section
  pub refused_stays : answer ≢ none → (s'.section ≡ s.section) × (s'.last_header ≡ [])
  pub last_header_kept : answer ≡ none → s'.section ≡ s.section → s'.last_header ≡ s.last_header
  pub last_header_reset : s'.section ≢ s.section → s'.last_header ≡ []
