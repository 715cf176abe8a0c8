-- ===== src/Identity/Scope.antt =====
-- `ScopeKey` (icn-identity/src/scope_key.rs) and `IdentityIndex` (icn-identity/src/identity_index.rs).
use icn_v.Base.{
  String, ◌≡◌, ◌↔◌, Bool, true, false, [], none, some, arith, PartialEq, string_eq, eq_iff,
}
use icn_v.HashMap.{HashMap, get, insert}

pub data ScopeKey : Type 0 where
  federation cooperative community individual : String → ScopeKey

unfoldable pub scope_eqb : ScopeKey → ScopeKey → Bool
scope_eqb (ScopeKey.federation a) (ScopeKey.federation b) = string_eq.eqb a b
scope_eqb (ScopeKey.cooperative a) (ScopeKey.cooperative b) = string_eq.eqb a b
scope_eqb (ScopeKey.community a) (ScopeKey.community b) = string_eq.eqb a b
scope_eqb (ScopeKey.individual a) (ScopeKey.individual b) = string_eq.eqb a b
scope_eqb _ _ = false

pub scope_eqb_iff : (a b : ScopeKey) → (scope_eqb a b ≡ true) ↔ (a ≡ b)
unfolding scope_eqb
scope_eqb_iff (ScopeKey.federation a) (ScopeKey.federation b) = ground (arith, eq_iff a b)
scope_eqb_iff (ScopeKey.cooperative a) (ScopeKey.cooperative b) = ground (arith, eq_iff a b)
scope_eqb_iff (ScopeKey.community a) (ScopeKey.community b) = ground (arith, eq_iff a b)
scope_eqb_iff (ScopeKey.individual a) (ScopeKey.individual b) = ground (arith, eq_iff a b)
scope_eqb_iff _ _ = ground arith

instance unfoldable pub scope_eq : PartialEq ScopeKey
unfolding scope_eqb
scope_eq = record { eqb = scope_eqb; eqb_iff = scope_eqb_iff }

pub record IdentityIndex : Type 0 where
  pub did_to_coop : HashMap String String
  pub coop_to_community : HashMap String String
  pub community_to_federation : HashMap String String

-- `IdentityIndex::new`
abbrev pub empty_index : IdentityIndex
empty_index = record { did_to_coop = []; coop_to_community = []; community_to_federation = [] }

unfoldable pub insert_did_coop : String → String → IdentityIndex → IdentityIndex
insert_did_coop did coop i = record i { did_to_coop = insert did coop i.did_to_coop }

unfoldable pub insert_coop_community : String → String → IdentityIndex → IdentityIndex
insert_coop_community coop comm i = record i {
  coop_to_community = insert coop comm i.coop_to_community;
}

unfoldable pub insert_community_federation : String → String → IdentityIndex → IdentityIndex
insert_community_federation comm fed i = record i {
  community_to_federation = insert comm fed i.community_to_federation;
}

unfoldable pub resolve_scope_key : String → IdentityIndex → ScopeKey
resolve_scope_key did i = elim (get did i.did_to_coop) [
  | none ↦ ScopeKey.individual did
  | some coop ↦ elim (get coop i.coop_to_community) [
    | none ↦ ScopeKey.cooperative coop
    | some comm ↦ elim (get comm i.community_to_federation) [
      | none ↦ ScopeKey.community comm
      | some fid ↦ ScopeKey.federation fid
    ]
  ]
]
