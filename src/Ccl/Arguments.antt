-- ===== src/Ccl/Arguments.antt =====
-- The code that icn-ccl-wasm-codegen/src/emit.rs emits for the arguments of one call.
use icn_v.Base.{string_eq}
use icn_v.Ccl.Calls.{resource_names, resource_list, resources_asked, profile_asked, job_asked}
use icn_v.Ccl.Emit.{
  resource_named, known_resources, resources_of, qos_of, job_params, MeshJobParams,
  job_id_buffer_offset, job_id_buffer_size,
}
use icn_v.Economics.Key.{ResourceType}
use icn_v.HashMap.{HashMap, get}
use icn_v.Base.{String, Option, none, some, eq_iff}
use icn_v.Base.{
  ℕ, ◌+◌, ◌<◌, ◌≡◌, refl, sym, ap, subst, ◌∙◌, List, [], ◌∷◌, ◌++◌, arith, length, length-append,
  if◌then◌else◌, nat_beq, Bool-cases, inl, inr,
}
use mathlib.Core.List.{append_assoc, append-nil}
use icn_v.Ccl.Opcodes.{Opcode}
use icn_v.Ccl.Emit.{
  Instruction, Emitted, Codecs, instructions, after, push_bytes, push_i64, push_f64, emit_op,
}
use icn_v.Ccl.Memory.{StandsAt, image, image-append, Laid, Laid-append, push_bytes_lem}
use icn_v.Ccl.Calls.{
  Arg, bytes, num32, num64, float, Value, v32, v64, vf, expected, pushed_calls, Matches, arg_size,
  args_size,
}

resource_named-get : (name : String) → resource_named name ≡ get name resource_names
unfolding get
resource_named-get name = ground (
  arith,
  eq_iff name "cpu",
  eq_iff "cpu" name,
  eq_iff name "compute",
  eq_iff "compute" name,
  eq_iff name "memory",
  eq_iff "memory" name,
  eq_iff name "io",
  eq_iff "io" name,
  eq_iff name "token",
  eq_iff "token" name,
)

module _ {Stage Policy : Type 0} (codecs : Codecs Stage Policy) where
  known_resources-resource_list :
      (m : HashMap String ℕ) → known_resources codecs m ≡ resource_list codecs m
  unfolding known_resources
  known_resources-resource_list [] = refl
  known_resources-resource_list ((name, amount) ∷ m) =
      let rest = known_resources codecs m in
      ap
        (λ (o : Option ResourceType). elim o as (λ _. List (ResourceType × ℕ)) [
          | none ↦ rest
          | some kind ↦ (kind, amount) ∷ rest
        ])
        (resource_named-get (codecs.to_lowercase name))
      ∙ ap
          (λ (rs : List (ResourceType × ℕ)).
            elim (get (codecs.to_lowercase name) resource_names) as (λ _. List (ResourceType × ℕ)) [
              | none ↦ rs
              | some kind ↦ (kind, amount) ∷ rs
            ])
          (known_resources-resource_list m)

  parsed :
      (o : Option (HashMap String ℕ))
      → ◌≡◌ {A = List (ResourceType × ℕ)}
          (elim o [ none ↦ [] | some m ↦ known_resources codecs m ])
          (elim o [ none ↦ [] | some m ↦ resource_list codecs m ])
  parsed none = refl
  parsed (some m) = known_resources-resource_list m

  resources_of-resources_asked :
      (json : Option String) → resources_of codecs json ≡ resources_asked codecs json
  resources_of-resources_asked none = refl
  resources_of-resources_asked (some json) = parsed (codecs.parse_resources json)

  qos_of-profile_asked : (json : Option String) → qos_of codecs json ≡ profile_asked codecs json
  qos_of-profile_asked none = refl
  qos_of-profile_asked (some json) = refl

  job_params-job_asked :
      (cid : String) (text input resources qos : Option String) (bid deadline : Option ℕ)
      → job_params codecs cid text input resources qos bid deadline
        ≡ job_asked codecs cid text input resources qos bid deadline
  job_params-job_asked cid text input resources qos bid deadline =
      rw (resources_of-resources_asked resources, qos_of-profile_asked qos) refl

module _ {F : Type 0} where
  abbrev push_arg : Arg F → ℕ → Emitted F
  push_arg (bytes bs) = push_bytes bs
  push_arg (num32 n) = instructions (Instruction.i32_const n ∷ [])
  push_arg (num64 n) = push_i64 n
  push_arg (float x) = push_f64 x

  -- The call itself, and the store of its result for the submission of a job.
  abbrev closing : ℕ → List (Instruction F)
  closing k = Instruction.call k ∷ (if nat_beq k 16 then Instruction.local_set 0 ∷ [] else [])

  abbrev pub emit_call : ℕ → List (Arg F) → ℕ → Emitted F
  emit_call k [] o = instructions (closing k) o
  emit_call k (a ∷ args) o = after (push_arg a o) (emit_call k args)

  pub emit_op-emit_call :
      {Stage Policy : Type 0} (codecs : Codecs Stage Policy) (op : Opcode F) (o : ℕ)
      → emit_op codecs op o ≡ emit_call (expected codecs op).0 (expected codecs op).1 o
  unfolding emit_op expected
  emit_op-emit_call codecs (Opcode.create_proposal title version) o = refl
  emit_op-emit_call codecs (Opcode.submit_job cid text input entry resources qos bid deadline more)
        o =
      ap
        (λ (p : MeshJobParams _ _).
          emit_call 16
            (bytes (codecs.to_cbor p) ∷ num32 job_id_buffer_offset ∷ num32 job_id_buffer_size ∷ [])
            o)
        (job_params-job_asked codecs cid text input resources qos bid deadline)
  emit_op-emit_call codecs (Opcode.mint_token a b c d) o = refl
  emit_op-emit_call codecs op o = ground arith

  -- The call that the code makes, whatever is pushed before and follows after.
  pub record Makes (memory : List ℕ) (k : ℕ) (args : List (Arg F)) (body : List (Instruction F))
      : Type 0 where
    pub values : List (Value F)
    pub matches : Matches memory args values
    pub calls :
        (pushed : List (Value F)) (rest : List (Instruction F))
        → pushed_calls (body ++ rest) pushed ≡ (k, pushed ++ values) ∷ pushed_calls rest []

  -- The emission lays out its segments one after another from the free offset, and its code makes
  -- the call in any memory that holds them there.
  pub record Sound (k : ℕ) (args : List (Arg F)) (o : ℕ) (e : Emitted F) : Type 0 where
    pub laid : Laid e.segments o e.offset
    pub size : e.offset ≡ o + args_size args
    pub makes :
        (before after : List ℕ)
        → length before ≡ o
        → Makes (before ++ (image e.segments ++ after)) k args e.body

  closing-Makes : (memory : List ℕ) (k : ℕ) → Makes memory k [] (closing k)
  unfolding pushed_calls
  closing-Makes memory k = record {
    values = [];
    matches = tt;
    calls = λ pushed rest. elim (Bool-cases (nat_beq k 16)) [
      | inl job ↦ rw (job, append-nil pushed) refl
      | inr other ↦ rw (other, append-nil pushed) refl
    ];
  }

  -- A number is pushed without any data.
  number-Makes :
      (memory : List ℕ) (k : ℕ) (a : Arg F) (v : Value F) (i : Instruction F) (args : List (Arg F))
      (body : List (Instruction F))
      → ((vs : List (Value F)) → Matches memory args vs → Matches memory (a ∷ args) (v ∷ vs))
      → ((is : List (Instruction F)) (pushed : List (Value F))
          → pushed_calls (i ∷ is) pushed ≡ pushed_calls is (pushed ++ v ∷ []))
      → Makes memory k args body
      → Makes memory k (a ∷ args) (i ∷ body)
  number-Makes memory k a v i args body fit run m = record {
    values = v ∷ m.values;
    matches = fit m.values m.matches;
    calls = λ pushed rest.
        run (body ++ rest) pushed
        ∙ m.calls (pushed ++ v ∷ []) rest
        ∙ ap (λ (vs : List (Value F)). (k, vs) ∷ pushed_calls rest [])
            (append_assoc pushed (v ∷ []) m.values);
  }

  number-Sound :
      (k : ℕ) (a : Arg F) (v : Value F) (i : Instruction F) (args : List (Arg F)) (o : ℕ)
      (e : Emitted F)
      → arg_size a ≡ 0
      → ((memory : List ℕ) (vs : List (Value F))
          → Matches memory args vs
          → Matches memory (a ∷ args) (v ∷ vs))
      → ((is : List (Instruction F)) (pushed : List (Value F))
          → pushed_calls (i ∷ is) pushed ≡ pushed_calls is (pushed ++ v ∷ []))
      → Sound k args o e
      → Sound k (a ∷ args) o (record e { body = i ∷ e.body })
  number-Sound k a v i args o e nothing fit run s = record {
    laid = s.laid;
    size = omega (arith, s.size, nothing);
    makes =
        λ before after h. number-Makes _ k a v i args e.body (fit _) run (s.makes before after h);
  }

  bytes-Makes :
      (memory : List ℕ) (k : ℕ) (bs : List ℕ) (o : ℕ) (args : List (Arg F))
      (body : List (Instruction F))
      → StandsAt memory o bs
      → Makes memory k args body
      → Makes memory k
          (bytes bs ∷ args)
          (Instruction.i32_const o ∷ Instruction.i32_const (length bs) ∷ body)
  unfolding pushed_calls
  bytes-Makes memory k bs o args body at m = record {
    values = v32 o ∷ v32 (length bs) ∷ m.values;
    matches = (at, refl, m.matches);
    calls = λ pushed rest.
        m.calls ((pushed ++ v32 o ∷ []) ++ v32 (length bs) ∷ []) rest
        ∙ ap (λ (vs : List (Value F)). (k, vs) ∷ pushed_calls rest [])
            (append_assoc (pushed ++ v32 o ∷ []) (v32 (length bs) ∷ []) m.values
              ∙ append_assoc pushed (v32 o ∷ []) (v32 (length bs) ∷ m.values));
  }

  bytes-Sound :
      (k : ℕ) (bs : List ℕ) (args : List (Arg F)) (o : ℕ) (next : Emitted F)
      → o + length bs < 2147483648
      → Sound k args (push_bytes {F = F} bs o).offset next
      → Sound k (bytes bs ∷ args) o (after (push_bytes bs o) (λ _. next))
  bytes-Sound k bs args o next h s =
      let (offset, filled, laid, code) = push_bytes_lem {F = F} bs o h in
      record {
        laid = Laid-append _ next.segments o _ next.offset laid s.laid;
        size = omega (arith, s.size, offset);
        makes = λ before rest e.
            let i = image next.segments in
            let split : (bs ++ i) ++ rest ≡ bs ++ (i ++ rest) = append_assoc bs i rest in
            let memory = before ++ ((bs ++ i) ++ rest) in
            let regroup : (before ++ bs) ++ (i ++ rest) ≡ memory =
              append_assoc before bs (i ++ rest) ∙ ap (λ (x : List ℕ). before ++ x) (sym split) in
            rw (image-append (push_bytes {F = F} bs o).segments next.segments, filled, code)
              (bytes-Makes memory k bs o args next.body
                (before, i ++ rest, ap (λ (x : List ℕ). before ++ x) split, e)
                (subst (λ (m : List ℕ). Makes m k args next.body) regroup
                  (s.makes (before ++ bs) rest
                    (omega (arith, length-append before bs, offset, e)))));
      }

  pub emit_call-Sound :
      (k : ℕ) (args : List (Arg F)) (o : ℕ)
      → o + args_size args < 2147483648
      → Sound k args o (emit_call k args o)
  unfolding pushed_calls
  emit_call-Sound k [] o h = record {
    laid = refl;
    size = omega arith;
    makes = λ before after e. closing-Makes _ k;
  }
  emit_call-Sound k (bytes bs ∷ args) o h = bytes-Sound k bs args o _ (omega arith) (
      emit_call-Sound k args (push_bytes {F = F} bs o).offset
        (omega (arith, (push_bytes_lem {F = F} bs o (omega arith)).0)))
  emit_call-Sound k (num32 n ∷ args) o h =
      number-Sound k (num32 n) (v32 n) (Instruction.i32_const n) args o _ refl
        (λ memory vs m. (refl, m)) (λ is pushed. refl) (emit_call-Sound k args o (omega arith))
  emit_call-Sound k (num64 n ∷ args) o h =
      number-Sound k (num64 n) (v64 n) (Instruction.i64_const n) args o _ refl
        (λ memory vs m. (refl, m)) (λ is pushed. refl) (emit_call-Sound k args o (omega arith))
  emit_call-Sound k (float x ∷ args) o h =
      number-Sound k (float x) (vf x) (Instruction.f64_const x) args o _ refl
        (λ memory vs m. (refl, m)) (λ is pushed. refl) (emit_call-Sound k args o (omega arith))
