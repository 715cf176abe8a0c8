-- ===== src/Ccl/Brackets.antt =====
-- The sections and the conditionals of a program of icn-ccl-wasm-codegen are nested.
use icn_v.Base.{
  String, ◌≡◌, refl, ◌∙◌, List, [], ◌∷◌, ◌++◌, Option, none, some, arith, Bool-cases, Option-cases,
  inl, inr,
}
use icn_v.Ccl.Dsl.{
  RuleValue, Rules, no_rules, rule, ElseRules, no_else, else_rules, ActionStep, DslModule,
}
use icn_v.Ccl.Opcodes.{Opcode, Program}
use icn_v.Ccl.Generate.{
  Formats, is_function_call, walk_function_call, walk_value, walk_rules, walk_else, walk_step,
  walk_steps, describe, walk_module, generate,
}

-- What is open at a place of a program, the innermost first.
pub data Open : Type 0 where
  in_section in_then in_else : Open

-- An opcode opens or closes; nothing where it does not fit what is open.
unfoldable pub follow : {F : Type 0} → Opcode F → List Open → Option (List Open)
follow (Opcode.begin_section kind title) st = some (in_section ∷ st)
follow Opcode.end_section (in_section ∷ st) = some st
follow Opcode.end_section _ = none
follow (Opcode.if_op condition) st = some (in_then ∷ st)
follow Opcode.else_op (in_then ∷ st) = some (in_else ∷ st)
follow Opcode.else_op _ = none
follow Opcode.end_if (in_then ∷ st) = some st
follow Opcode.end_if (in_else ∷ st) = some st
follow Opcode.end_if _ = none
follow _ st = some st

module _ {F : Type 0} where
  unfoldable pub brackets : Program F → List Open → Option (List Open)
  brackets [] st = some st
  brackets (op ∷ ops) st = elim (follow op st) [ none ↦ none | some st' ↦ brackets ops st' ]

  -- Wherever it stands, the program closes what it opens, and nothing else.
  abbrev pub Nested : Program F → Type 0
  Nested ops = (st : List Open) → brackets ops st ≡ some st

  brackets-append :
      (ops rest : Program F) (st mid : List Open)
      → brackets ops st ≡ some mid
      → brackets (ops ++ rest) st ≡ brackets rest mid
  unfolding brackets
  brackets-append [] rest st mid h = ground arith
  brackets-append (op ∷ ops) rest st mid h = elim (Option-cases (follow op st)) [
    | inl stuck ↦ ground (arith, stuck, h)
    | inr (st', goes) ↦
        rw (goes, brackets) (brackets-append ops rest st' mid (ground (arith, goes, h)))
  ]

  append-Nested : (ops rest : Program F) → Nested ops → Nested rest → Nested (ops ++ rest)
  append-Nested ops rest h k st = brackets-append ops rest st st (h st) ∙ k st

  section-Nested :
      (kind : String) (title : Option String) (ops : Program F)
      → Nested ops
      → Nested (Opcode.begin_section kind title ∷ (ops ++ Opcode.end_section ∷ []))
  unfolding brackets follow
  section-Nested kind title ops h st =
      brackets-append ops (Opcode.end_section ∷ []) (in_section ∷ st) (in_section ∷ st)
        (h (in_section ∷ st))

module _ {F : Type 0} (formats : Formats F) where
  mutual
    unfolding walk_value walk_function_call brackets follow

    walk_value-Nested : (key : String) (v : RuleValue F) → Nested (walk_value formats key v)
    walk_value-Nested key (RuleValue.if_expr condition then_rules others) st =
        brackets-append (walk_rules formats then_rules)
          (walk_else formats others ++ Opcode.end_if ∷ []) (in_then ∷ st) (in_then ∷ st)
          (walk_rules-Nested then_rules (in_then ∷ st))
        ∙ walk_else-Nested others st
    walk_value-Nested key (RuleValue.range start finish rules) st =
        section-Nested "" (some key) (walk_rules formats rules) (walk_rules-Nested rules) st
    walk_value-Nested key (RuleValue.map kv) st = elim (Bool-cases (is_function_call kv)) [
      | inl call ↦ rw call refl
      | inr other ↦ rw other (walk_rules-Nested kv st)
    ]
    walk_value-Nested key (RuleValue.string s) st = refl
    walk_value-Nested key (RuleValue.number x) st = refl
    walk_value-Nested key (RuleValue.boolean b) st = refl
    walk_value-Nested key (RuleValue.list vs) st = refl

    walk_rules-Nested : (rs : Rules F) → Nested (walk_rules formats rs)
    walk_rules-Nested no_rules st = refl
    walk_rules-Nested (rule key v rs) st =
        append-Nested (walk_value formats key v) (walk_rules formats rs) (walk_value-Nested key v)
          (walk_rules-Nested rs) st

    walk_else-Nested :
        (e : ElseRules F) (st : List Open)
        → brackets (walk_else formats e ++ Opcode.end_if ∷ []) (in_then ∷ st) ≡ some st
    walk_else-Nested no_else st = refl
    walk_else-Nested (else_rules rs) st =
        brackets-append (walk_rules formats rs) (Opcode.end_if ∷ []) (in_else ∷ st) (in_else ∷ st)
          (walk_rules-Nested rs (in_else ∷ st))

  walk_steps-Nested : (steps : List (ActionStep F)) → Nested (walk_steps formats steps)
  unfolding walk_steps walk_step brackets follow
  walk_steps-Nested [] st = refl
  walk_steps-Nested (ActionStep.metered m ∷ steps) st = walk_steps-Nested steps st
  walk_steps-Nested (ActionStep.anchored a ∷ steps) st = walk_steps-Nested steps st
  walk_steps-Nested (ActionStep.perform_metered_action i r a ∷ steps) st =
      walk_steps-Nested steps st
  walk_steps-Nested (ActionStep.transfer_token t a s r ∷ steps) st = walk_steps-Nested steps st

  describe-Nested : (text : Option String) → Nested (describe formats text)
  unfolding brackets follow
  describe-Nested none st = refl
  describe-Nested (some text) st = refl

  walk_module-Nested : (m : DslModule F) → Nested (walk_module formats m)
  unfolding walk_module brackets follow
  walk_module-Nested (DslModule.proposal p) st = walk_rules-Nested p.rules st
  walk_module-Nested (DslModule.action_handler h) st = walk_steps-Nested h.steps st
  walk_module-Nested (DslModule.section s) st =
      section-Nested s.kind s.title (walk_rules formats s.rules) (walk_rules-Nested s.rules) st
  walk_module-Nested (DslModule.role r) st =
      brackets-append (describe formats r.description)
        (walk_rules formats r.attributes ++ Opcode.end_section ∷ []) (in_section ∷ st)
        (in_section ∷ st) (describe-Nested r.description (in_section ∷ st))
      ∙ section-Nested "role" (some r.name) (walk_rules formats r.attributes)
          (walk_rules-Nested r.attributes) st
  walk_module-Nested (DslModule.vote v) st = refl
  walk_module-Nested (DslModule.anchor a) st = refl
  walk_module-Nested (DslModule.metered_action m) st = refl

  -- Of any modules, the generator makes a program whose sections and conditionals are nested: each
  -- section ends, each conditional ends after at most one `else`, and neither crosses the other.
  pub generate-Nested : (ms : List (DslModule F)) → Nested (generate formats ms)
  unfolding generate brackets
  generate-Nested [] st = refl
  generate-Nested (m ∷ ms) st =
      append-Nested (walk_module formats m) (generate formats ms) (walk_module-Nested m)
        (generate-Nested ms) st
