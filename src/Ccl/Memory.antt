-- ===== src/Ccl/Memory.antt =====
-- The memory that the data segments of icn-ccl-wasm-codegen/src/emit.rs fill.
use icn_v.Base.{
  ℕ, suc, true, ◌+◌, ◌<◌, ◌≡◌, refl, sym, ap, ◌∙◌, List, [], ◌∷◌, ◌++◌, arith, length,
  length-append, wrap32,
}
use mathlib.Core.List.{append_assoc, append-nil}
use icn_v.Ccl.Emit.{Instruction, Segment, push_bytes, positive_i32}

-- The memory that the segments fill, when each starts where the one before it ends.
unfoldable pub image : List Segment → List ℕ
image [] = []
image (s ∷ ss) = s.bytes ++ image ss

abbrev pub Laid : List Segment → ℕ → ℕ → Type 0
Laid [] start end = start ≡ end
Laid (s ∷ ss) start end = (s.offset ≡ start) × Laid ss (start + length s.bytes) end

-- The bytes stand in the memory at a pointer.
abbrev pub StandsAt : List ℕ → ℕ → List ℕ → Type 0
StandsAt memory ptr bs =
    (before : List ℕ) × (after : List ℕ) × (memory ≡ before ++ (bs ++ after))
    × (length before ≡ ptr)

pub image-append : (ss ts : List Segment) → image (ss ++ ts) ≡ image ss ++ image ts
unfolding image
image-append [] ts = refl
image-append (s ∷ ss) ts =
    ap (λ (x : List ℕ). s.bytes ++ x) (image-append ss ts)
    ∙ sym (append_assoc s.bytes (image ss) (image ts))

pub Laid-append :
    (ss ts : List Segment) (a b c : ℕ) → Laid ss a b → Laid ts b c → Laid (ss ++ ts) a c
Laid-append [] ts a b c h k = rw h k
Laid-append (s ∷ ss) ts a b c h k = (h.0, Laid-append ss ts (a + length s.bytes) b c h.1 k)

pub length-image : (ss : List Segment) (a b : ℕ) → Laid ss a b → a + length (image ss) ≡ b
unfolding image
length-image [] a b h = omega (arith, h)
length-image (s ∷ ss) a b h =
    omega (arith, length-append s.bytes (image ss), length-image ss (a + length s.bytes) b h.1)

pub push_bytes_lem :
    {F : Type 0} (bs : List ℕ) (o : ℕ)
    → o + length bs < 2147483648
    → let e = push_bytes {F = F} bs o in
      (e.offset ≡ o + length bs)
      × (image e.segments ≡ bs)
      × Laid e.segments o e.offset
      × (e.body ≡ Instruction.i32_const o ∷ Instruction.i32_const (length bs) ∷ [])
unfolding push_bytes image
push_bytes_lem [] o h = (omega arith, refl, refl, refl)
push_bytes_lem (b ∷ bs) o h =
    let fits : wrap32 (suc (length bs)) ≡ suc (length bs) = omega arith in
    let whole : positive_i32 (suc (length bs)) ≡ true = ground arith in
    rw (fits, whole) (omega arith, append-nil (b ∷ bs), (refl, omega arith), refl)
