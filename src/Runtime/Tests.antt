-- ===== src/Runtime/Tests.antt =====
-- The sections of a context at a concrete run.
use icn_v.Base.{◌≡◌, ◌≤◌, [], none, err, length, string_eq}
use icn_v.Runtime.Sections.{
  HostAbiError, Sections, Outcome, begin_section, Step, began, Reachable, fresh, stepped,
  Reachable-sections,
}

abbrev active : Sections
active = (begin_section "proposal" none []).1

active-Reachable : Reachable active
active-Reachable = stepped fresh (began "proposal" none [])

Reachable-sections_example :
    (length active ≤ 1)
    × ((s : Sections) (r : Outcome) (e : HostAbiError) → Step active r s → r ≡ err e → s ≡ active)
Reachable-sections_example = Reachable-sections active active-Reachable
