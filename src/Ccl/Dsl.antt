-- ===== src/Ccl/Dsl.antt =====
-- The DSL of icn-ccl-dsl/src/lib.rs. `F` is the type `f64`, whose values this code only stores. A
-- `Uuid` and an `i64` time, which the generator only stores too, are numbers. The lists and options
-- of rules within rules are data types of their own.
use icn_v.Base.{ℕ, String, Bool, List, Option}
use icn_v.Economics.Key.{ResourceType}

mutual
  -- `Rule` is a key and a value in `Rules`; `range` and `if_expr` hold a `RangeRule` and an `IfExpr`.
  pub data RuleValue (F : Type 0) : Type 0 where
    string : String → RuleValue F
    number : F → RuleValue F
    boolean : Bool → RuleValue F
    list : Values F → RuleValue F
    map : Rules F → RuleValue F
    range : (start finish : F) → Rules F → RuleValue F
    if_expr : (condition_raw : String) → (then_rules : Rules F) → ElseRules F → RuleValue F

  pub data Values (F : Type 0) : Type 0 where
    no_values : Values F
    value : RuleValue F → Values F → Values F

  pub data Rules (F : Type 0) : Type 0 where
    no_rules : Rules F
    rule : (key : String) → RuleValue F → Rules F → Rules F

  pub data ElseRules (F : Type 0) : Type 0 where
    no_else : ElseRules F
    else_rules : Rules F → ElseRules F

pub record Proposal (F : Type 0) : Type 0 where
  pub id : ℕ
  pub title : String
  pub version : String
  pub body : String
  pub author : String
  pub created_at : ℕ
  pub rules : Rules F

pub data VoteStance : Type 0 where
  yes_stance no_stance abstain : VoteStance

pub record Vote : Type 0 where
  pub proposal_id : ℕ
  pub voter : String
  pub stance : VoteStance
  pub rationale : Option String
  pub signed_at : ℕ

pub record Anchor : Type 0 where
  pub data_reference : String
  pub path : Option String

pub record MeteredAction (F : Type 0) : Type 0 where
  pub resource_type : String
  pub amount : ℕ
  pub recipient : Option String
  pub payload : Option (Rules F)

pub record Role (F : Type 0) : Type 0 where
  pub name : String
  pub description : Option String
  pub attributes : Rules F

pub record GenericSection (F : Type 0) : Type 0 where
  pub kind : String
  pub title : Option String
  pub rules : Rules F

pub data ActionStep (F : Type 0) : Type 0 where
  metered : MeteredAction F → ActionStep F
  anchored : Anchor → ActionStep F
  perform_metered_action : (ident : String) → ResourceType → (amount : ℕ) → ActionStep F
  transfer_token :
      (token_type : String) → (amount : ℕ) → (sender : String) → (recipient : String) → ActionStep F

pub record ActionHandler (F : Type 0) : Type 0 where
  pub event : String
  pub steps : List (ActionStep F)

pub data DslModule (F : Type 0) : Type 0 where
  proposal : Proposal F → DslModule F
  vote : Vote → DslModule F
  anchor : Anchor → DslModule F
  metered_action : MeteredAction F → DslModule F
  role : Role F → DslModule F
  action_handler : ActionHandler F → DslModule F
  section : GenericSection F → DslModule F
