-- ===== src/Nesting/Template.antt =====
-- `InTemplateArgumentList` of cpplint.py.
use dyod_ws.Base.{
  ℕ, suc, ◌+◌, ◌-◌, Bool, true, false, not, Option, none, some, List, [], ◌∷◌, length, get_or, drop,
  ltb, leb, ◌==◌, if◌then◌else◌,
}
use dyod_ws.Base.Loop.{Round, again, stop, iterate, joined}
use dyod_ws.Base.Text.{Str, txt, has}
use dyod_ws.Brackets.Forward.{Position, close_expression}
use dyod_ws.Cleanse.{CleansedLines}
use dyod_ws.Re.{Re, star, group, at_start, none_of, dot, re_match, group_text, ◌▹◌}

-- `^[^{};=\[\]\.<>]*(.)`
unfoldable pub first_mark : Re
unfolding none_of
first_mark = at_start ▹ star (none_of "{};=[].<>") ▹ group 1 dot

pub record Place : Type 0 where
  pub linenum : ℕ
  pub pos : ℕ

abbrev next_line : Place → Round Place (Option Bool)
next_line p = again (record { linenum = p.linenum + 1; pos = 0 })

-- Behind the `<` at `pos - 1`; an exception of the call ends the loop with `none`.
after_closing : Option Position → Round Place (Option Bool)
after_closing none = stop none
after_closing (some r) = elim r.pos [
  | none ↦ stop (some false)
  | some end_pos ↦ again (record { linenum = r.linenum; pos = end_pos })
]

-- The tests on the token, which stands at `pos - 1`.
on_token : CleansedLines → Str → Place → Str → Round Place (Option Bool)
unfolding after_closing
on_token clean_lines line p token =
    let c = get_or token 0 0 in
    if has c (txt "{};")
    then stop (some false)
    else if has c (txt ">=[].")
    then stop (some true)
    else if not (c == b'<')
    then (if leb (length line) (p.pos + 1)
        then next_line p
        else again (record p { pos = p.pos + 1 }))
    else after_closing (close_expression clean_lines p.linenum (p.pos - 1))

-- One round of the loop, on the rest of the line from `pos` on.
unfoldable pub template_round : CleansedLines → Place → Round Place (Option Bool)
unfolding on_token
template_round clean_lines p =
    let line = get_or clean_lines.elided p.linenum [] in
    if not (ltb p.linenum clean_lines.num_lines)
    then stop (some false)
    else elim (re_match first_mark (drop p.pos line)) [
      | none ↦ next_line p
      | some m ↦ on_token clean_lines line (record p { pos = p.pos + m.stop }) (group_text 1 m)
    ]

-- The characters and the ends of lines.
weight : List Str → ℕ
weight [] = 0
weight (line ∷ lines) = suc (length line) + weight lines

-- Each round goes forward, so fuel for each character and each line is enough; `none` is the exception
-- above.
unfoldable pub in_template_argument_list : CleansedLines → ℕ → ℕ → Option Bool
unfolding template_round weight joined
in_template_argument_list clean_lines linenum pos = joined (
    iterate (template_round clean_lines) (suc (suc (weight clean_lines.elided)))
      (record { linenum = linenum; pos = pos }))
