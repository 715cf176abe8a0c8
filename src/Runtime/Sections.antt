-- ===== src/Runtime/Sections.antt =====
-- The sections of a `JobExecutionContext` (crates/runtime/icn-runtime/src/job_execution_context.rs): the
-- field `section_stack`, the top of the stack first, and the methods that use it, with the errors of
-- crates/runtime/host-abi/src/error.rs. The other methods of the context only print.
use icn_v.Base.{
  String, ◌≡◌, refl, List, [], ◌∷◌, Option, arith, Result, ok, err, string_eq, ◌≤◌, length,
}
use icn_v.HashMap.{HashMap, insert}

pub data HostAbiError : Type 0 where
  unknown_error memory_access_error buffer_too_small invalid_arguments : String → HostAbiError
  not_found timeout resource_limit_exceeded data_encoding_error : String → HostAbiError
  invalid_state network_error storage_error serialization_error : String → HostAbiError
  invalid_did_format invalid_cid_format queue_full channel_closed : String → HostAbiError
  invalid_did invalid_parameter resource_management_error : String → HostAbiError
  not_permitted not_supported insufficient_balance : HostAbiError

pub record SectionContext : Type 0 where
  pub kind : String
  pub title : Option String
  pub properties : HashMap String String

abbrev pub Sections : Type 0
Sections = List SectionContext

abbrev pub Outcome : Type 0
Outcome = Result (Unit {0}) HostAbiError

unfoldable pub begin_section : String → Option String → Sections → Outcome × Sections
begin_section kind title [] = (ok tt, record { kind = kind; title = title; properties = [] } ∷ [])
begin_section kind title (s ∷ ss) = (
  err (
      invalid_state
        "Cannot begin a new section while another is active (nested sections not supported)."),
  s ∷ ss,
)

-- Without a section, this only warns.
unfoldable pub end_section : Sections → Outcome × Sections
end_section [] = (ok tt, [])
end_section (s ∷ ss) = (ok tt, ss)

unfoldable pub set_property : String → String → Sections → Outcome × Sections
set_property key value_json [] = (err (invalid_state "No active section to set property on."), [])
set_property key value_json (s ∷ ss) =
    (ok tt, record s { properties = insert key value_json s.properties } ∷ ss)

unfoldable pub create_proposal : Sections → Outcome
create_proposal [] = ok tt
create_proposal (s ∷ ss) = err (invalid_state "Proposal creation requires an active section.")

unfoldable pub mint_token : Sections → Outcome
mint_token [] = ok tt
mint_token (s ∷ ss) =
    err (invalid_state "Mint token operation is not valid in the current context.")

-- One call on the context, with its outcome.
pub data Step : Sections → Outcome → Sections → Type 0 where
  began :
      (kind : String) (title : Option String) (s : Sections)
      → Step s (begin_section kind title s).0 (begin_section kind title s).1
  ended : (s : Sections) → Step s (end_section s).0 (end_section s).1
  property_set :
      (key value : String) (s : Sections)
      → Step s (set_property key value s).0 (set_property key value s).1
  proposed : (s : Sections) → Step s (create_proposal s) s
  minted : (s : Sections) → Step s (mint_token s) s

pub data Reachable : Sections → Type 0 where
  fresh : Reachable []
  stepped : {s s' : Sections} {r : Outcome} → Reachable s → Step s r s' → Reachable s'

-- A call that fails leaves the sections as they were.
Step-failed : {s s' : Sections} {r : Outcome} (e : HostAbiError) → Step s r s' → r ≡ err e → s' ≡ s
unfolding begin_section end_section set_property create_proposal mint_token
Step-failed e (began kind title []) h = ground arith
Step-failed e (began kind title (s ∷ ss)) h = refl
Step-failed e (ended []) h = ground arith
Step-failed e (ended (s ∷ ss)) h = ground arith
Step-failed e (property_set key value []) h = refl
Step-failed e (property_set key value (s ∷ ss)) h = ground arith
Step-failed e (proposed s) h = refl
Step-failed e (minted s) h = refl

-- Sections never nest.
Reachable-single : (s : Sections) → Reachable s → length s ≤ 1
unfolding begin_section end_section set_property
Reachable-single s fresh = omega arith
Reachable-single s (stepped r (began kind title [])) = omega arith
Reachable-single s (stepped r (began kind title (t ∷ ts))) = Reachable-single (t ∷ ts) r
Reachable-single s (stepped r (ended [])) = omega arith
Reachable-single s (stepped r (ended (t ∷ ts))) = omega (arith, Reachable-single (t ∷ ts) r)
Reachable-single s (stepped r (property_set key value [])) = omega arith
Reachable-single s (stepped r (property_set key value (t ∷ ts))) = Reachable-single (t ∷ ts) r
Reachable-single s (stepped r (proposed t)) = Reachable-single t r
Reachable-single s (stepped r (minted t)) = Reachable-single t r

-- In every reachable context at most one section is active, and a call that fails there leaves the sections as
-- they were.
pub Reachable-sections :
    (s : Sections)
    → Reachable s
    → (length s ≤ 1)
      × ((s' : Sections) (r : Outcome) (e : HostAbiError) → Step s r s' → r ≡ err e → s' ≡ s)
Reachable-sections s r = (Reachable-single s r, λ s' o e st h. Step-failed e st h)
