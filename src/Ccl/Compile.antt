-- ===== src/Ccl/Compile.antt =====
-- The calls and the data of the module that icn-ccl-wasm-codegen/src/emit.rs makes of a program.
use icn_v.Base.{◌≤◌, ◌*◌}
use icn_v.Base.{
  ℕ, ◌+◌, ◌<◌, ◌≡◌, refl, sym, ap, ◌∙◌, subst, List, [], ◌∷◌, ◌++◌, map, arith, length,
  length-append,
}
use mathlib.Core.List.{append_assoc, append-nil}
use icn_v.Ccl.Opcodes.{Opcode, Program}
use icn_v.Ccl.Emit.{Instruction, Emitted, Codecs, after, zeros, emit_op, emit_ops, program_to_wasm}
use icn_v.Ccl.Memory.{image, image-append, Laid, Laid-append, length-image}
use icn_v.Ccl.Calls.{Value, expected, pushed_calls, AllMatch, args_size}
use icn_v.Ccl.Arguments.{emit_op-emit_call, Makes, Sound, emit_call-Sound}

module _ {F Stage Policy : Type 0} (codecs : Codecs Stage Policy) where
  -- The bytes that the arguments of a program take.
  unfoldable pub data_size : Program F → ℕ
  data_size [] = 0
  data_size (op ∷ ops) = args_size (expected codecs op).1 + data_size ops

  record Faithful (ops : Program F) (o : ℕ) (e : Emitted F) : Type 0 where
    laid : Laid e.segments o e.offset
    size : e.offset ≡ o + data_size ops
    calls :
        (before rest : List ℕ) (code : List (Instruction F))
        → length before ≡ o
        → (made : List (ℕ × List (Value F))) × (pushed_calls (e.body ++ code) []
            ≡ made ++ pushed_calls code [])
          × AllMatch (before ++ (image e.segments ++ rest)) (map (expected codecs) ops) made

  op-Sound :
      (op : Opcode F) (o : ℕ)
      → o + args_size (expected codecs op).1 < 2147483648
      → Sound (expected codecs op).0 (expected codecs op).1 o (emit_op codecs op o)
  op-Sound op o h =
      rw (emit_op-emit_call codecs op o)
        (emit_call-Sound (expected codecs op).0 (expected codecs op).1 o h)

  after-Faithful :
      (op : Opcode F) (ops : Program F) (o : ℕ) (e next : Emitted F)
      → Sound (expected codecs op).0 (expected codecs op).1 o e
      → Faithful ops e.offset next
      → Faithful (op ∷ ops) o (after e (λ _. next))
  unfolding data_size
  after-Faithful op ops o e next s f = record {
    laid = Laid-append e.segments next.segments o e.offset next.offset s.laid f.laid;
    size = omega (arith, s.size, f.size);
    calls = λ before rest code h.
        let i = image e.segments in
        let j = image next.segments in
        let split : i ++ (j ++ rest) ≡ image (e.segments ++ next.segments) ++ rest =
          sym (append_assoc i j rest)
          ∙ ap (λ (x : List ℕ). x ++ rest) (sym (image-append e.segments next.segments)) in
        let m =
          subst
            (λ (x : List ℕ).
              Makes (before ++ x) (expected codecs op).0 (expected codecs op).1 e.body)
            split (s.makes before (j ++ rest) h) in
        let (made, runs, all) =
          f.calls (before ++ i) rest code
            (omega (arith, length-append before i, length-image e.segments o e.offset s.laid, h)) in
        (
          ((expected codecs op).0, m.values) ∷ made,
          ap (λ (is : List (Instruction F)). pushed_calls is [])
                (append_assoc e.body next.body code)
              ∙ m.calls [] (next.body ++ code)
              ∙ ap (λ (cs : List (ℕ × List (Value F))). ((expected codecs op).0, m.values) ∷ cs)
                  runs,
          (
            refl,
            m.matches,
            subst (λ (x : List ℕ). AllMatch x (map (expected codecs) ops) made)
                (append_assoc before i (j ++ rest) ∙ ap (λ (x : List ℕ). before ++ x) split) all,
          ),
        );
  }

  emit_ops-Faithful :
      (ops : Program F) (o : ℕ)
      → o + data_size ops < 2147483648
      → Faithful ops o (emit_ops codecs ops o)
  unfolding data_size emit_ops
  emit_ops-Faithful [] o h = record {
    laid = refl;
    size = omega arith;
    calls = λ before rest code e. ([], refl, tt);
  }
  emit_ops-Faithful (op ∷ ops) o h =
      let s = op-Sound op o (omega arith) in
      after-Faithful op ops o (emit_op codecs op o)
        (emit_ops codecs ops (emit_op codecs op o).offset) s
        (emit_ops-Faithful ops (emit_op codecs op o).offset (omega (arith, s.size)))

  -- The data segments of the module lie one after another from the start of the memory, behind the
  -- buffer for the identifier of a job, and do not overlap. The calls of the code are those of the
  -- program's opcodes, in their order, each of the function of the opcode, and between a call and the
  -- one before it the code pushes exactly the operands of the opcode: where a pointer and a length
  -- stand for a text, or for the encoded job of the opcode, the memory holds it there. This is as long
  -- as all this data fits in the memory that the module starts with, of one page of 64 KiB, and says
  -- nothing of the types that the module declares for the functions, nor of the order of its sections.
  pub program_to_wasm_lem :
      (ops : Program F)
      → 128 + data_size ops ≤ 65536 * (program_to_wasm codecs ops).memory_minimum
      → let w = program_to_wasm codecs ops in
        Laid w.segments 0 (128 + data_size ops)
        × AllMatch (image w.segments) (map (expected codecs) ops) (pushed_calls w.body [])
  unfolding program_to_wasm image zeros pushed_calls
  program_to_wasm_lem ops fits =
      let h : 128 + data_size ops < 2147483648 = omega (arith, fits) in
      let f = emit_ops-Faithful ops 128 h in
      let (made, runs, all) =
        f.calls (zeros 128) [] (Instruction.local_get 0 ∷ Instruction.end_code ∷ []) refl in
      let filled = append-nil (image (emit_ops codecs ops 128).segments) in
      (
        (refl, subst (λ (x : ℕ). Laid (emit_ops codecs ops 128).segments 128 x) f.size f.laid),
        subst
            (λ (cs : List (ℕ × List (Value F))).
              AllMatch (zeros 128 ++ image (emit_ops codecs ops 128).segments)
                (map (expected codecs) ops) cs)
            (sym (runs ∙ append-nil made))
            (subst (λ (x : List ℕ). AllMatch (zeros 128 ++ x) (map (expected codecs) ops) made)
              filled all),
      )
