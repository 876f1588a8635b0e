-- ===== src/Machine/Assembler/Reads.antt =====
-- The bytes that the macros of bytecode.h write, and the interpreter at them.
use lilyvm.Base.{ℕ, ◌+◌, ◌^◌, ◌≤◌, ◌<◌, ◌≡◌, ◌≢◌, refl, sym, ap, ◌∙◌, inl, arith}
use lilyvm.Base.{List, [], ◌∷◌, length, get_elem?, some}
use lilyvm.Outcome.{Outcome, done, ◌>>=◌}
use lilyvm.Heap.Memory.{
  written, length-written, store_words_lem, get_elem?-written, get_elem?-written_ne,
}
use lilyvm.Machine.Op.{Op, opcode, decode}
use lilyvm.Machine.Op.Table.{decode-opcode}
use lilyvm.Machine.State.{Machine, byte_at, arg_b, arg_im}
use lilyvm.Machine.Assembler.{
  Program, emit, byte, high_byte, op, op_b, op_b_b, op_im, op_im_im, op_im_b,
}

-- An instruction: an operation and its arguments, bytes and words.
pub data Instruction : Type 0 where
  plain : Op → Instruction
  with_b : Op → ℕ → Instruction
  with_b_b : Op → ℕ → ℕ → Instruction
  with_im : Op → ℕ → Instruction
  with_im_im : Op → ℕ → ℕ → Instruction
  with_im_b : Op → ℕ → ℕ → Instruction

-- The operation is one of the machine's, and the arguments fit.
abbrev pub IsInstruction : Instruction → Type 0
IsInstruction (plain o) = o ≢ Op.invalid
IsInstruction (with_b o a) = (o ≢ Op.invalid) × (a < 2 ^ 8)
IsInstruction (with_b_b o a b) = (o ≢ Op.invalid) × (a < 2 ^ 8) × (b < 2 ^ 8)
IsInstruction (with_im o v) = (o ≢ Op.invalid) × (v < 2 ^ 16)
IsInstruction (with_im_im o v w) = (o ≢ Op.invalid) × (v < 2 ^ 16) × (w < 2 ^ 16)
IsInstruction (with_im_b o v b) = (o ≢ Op.invalid) × (v < 2 ^ 16) × (b < 2 ^ 8)

unfoldable pub assemble : Instruction → Program → Outcome Program
unfolding op op_b op_b_b op_im op_im_im op_im_b
assemble (plain o) = op o
assemble (with_b o a) = op_b o a
assemble (with_b_b o a b) = op_b_b o a b
assemble (with_im o v) = op_im o v
assemble (with_im_im o v w) = op_im_im o v w
assemble (with_im_b o v b) = op_im_b o v b

unfoldable pub assemble_all : List Instruction → Program → Outcome Program
unfolding assemble
assemble_all [] program = done program
assemble_all (i ∷ is) program = do program' ← assemble i program; assemble_all is program'

-- The machine dispatches on the operation.
abbrev Fetches : Op → List ℕ → Machine → Type 0
Fetches o code s = (byte_at code s 0 >>= λ b. done (decode b)) ≡ done o

-- At its program counter the machine reads the instruction.
abbrev pub Reads : Instruction → List ℕ → Machine → Type 0
Reads (plain o) code s = Fetches o code s
Reads (with_b o a) code s = Fetches o code s × (arg_b code s 1 ≡ done a)
Reads (with_b_b o a b) code s =
    Fetches o code s × (arg_b code s 1 ≡ done a) × (arg_b code s 2 ≡ done b)
Reads (with_im o v) code s = Fetches o code s × (arg_im code s 1 ≡ done v)
Reads (with_im_im o v w) code s =
    Fetches o code s × (arg_im code s 1 ≡ done v) × (arg_im code s 3 ≡ done w)
Reads (with_im_b o v b) code s =
    Fetches o code s × (arg_im code s 1 ≡ done v) × (arg_b code s 3 ≡ done b)

bytes_of : Instruction → List ℕ
bytes_of (plain o) = opcode o ∷ []
bytes_of (with_b o a) = opcode o ∷ byte a ∷ []
bytes_of (with_b_b o a b) = opcode o ∷ byte a ∷ byte b ∷ []
bytes_of (with_im o v) = opcode o ∷ byte v ∷ high_byte v ∷ []
bytes_of (with_im_im o v w) = opcode o ∷ byte v ∷ high_byte v ∷ byte w ∷ high_byte w ∷ []
bytes_of (with_im_b o v b) = opcode o ∷ byte v ∷ high_byte v ∷ byte b ∷ []

abbrev pub size : Instruction → ℕ
size (plain o) = 1
size (with_b o a) = 2
size (with_b_b o a b) = 3
size (with_im o v) = 3
size (with_im_im o v w) = 5
size (with_im_b o v b) = 4

length-bytes_of : (i : Instruction) → length (bytes_of i) ≡ size i
unfolding bytes_of
length-bytes_of (plain o) = refl
length-bytes_of (with_b o a) = refl
length-bytes_of (with_b_b o a b) = refl
length-bytes_of (with_im o v) = refl
length-bytes_of (with_im_im o v w) = refl
length-bytes_of (with_im_b o v b) = refl

assemble_lem :
    (i : Instruction) (program : Program) → assemble i program ≡ emit (bytes_of i) program
unfolding assemble op op_b op_b_b op_im op_im_im op_im_b bytes_of
assemble_lem (plain o) program = refl
assemble_lem (with_b o a) program = refl
assemble_lem (with_b_b o a b) program = refl
assemble_lem (with_im o v) program = refl
assemble_lem (with_im_im o v w) program = refl
assemble_lem (with_im_b o v b) program = refl

-- The bytes lie in the code from `pc` on.
abbrev HasBytes : List ℕ → ℕ → List ℕ → Type 0
HasBytes code pc bytes =
    (j k : ℕ) → k < length bytes → j ≡ pc + k → get_elem? code j ≡ get_elem? bytes k

module _ (code : List ℕ) (s : Machine) where
  fetch_lem :
      (o : Op) → o ≢ Op.invalid → get_elem? code (s.pc + 0) ≡ some (opcode o) → Fetches o code s
  fetch_lem o valid h = rw h (ap done (decode-opcode o valid))

  arg_b_lem :
      (i a : ℕ) → a < 2 ^ 8 → get_elem? code (s.pc + i) ≡ some (byte a) → arg_b code s i ≡ done a
  unfolding arg_b
  arg_b_lem i a small h = rw h (ap done (omega arith))

  arg_im_lem :
      (i v : ℕ)
      → v < 2 ^ 16
      → get_elem? code (s.pc + i) ≡ some (byte v)
      → get_elem? code (s.pc + (i + 1)) ≡ some (high_byte v)
      → arg_im code s i ≡ done v
  unfolding arg_im
  arg_im_lem i v small lo hi = rw (lo, hi) (ap done (omega arith))

  HasBytes-Reads :
      (i : Instruction) → IsInstruction i → HasBytes code s.pc (bytes_of i) → Reads i code s
  unfolding bytes_of
  HasBytes-Reads (plain o) valid h = fetch_lem o valid (h (s.pc + 0) 0 (omega arith) (omega arith))
  HasBytes-Reads (with_b o a) (valid, ha) h = (
    fetch_lem o valid (h (s.pc + 0) 0 (omega arith) (omega arith)),
    arg_b_lem 1 a ha (h (s.pc + 1) 1 (omega arith) (omega arith)),
  )
  HasBytes-Reads (with_b_b o a b) (valid, ha, hb) h = (
    fetch_lem o valid (h (s.pc + 0) 0 (omega arith) (omega arith)),
    arg_b_lem 1 a ha (h (s.pc + 1) 1 (omega arith) (omega arith)),
    arg_b_lem 2 b hb (h (s.pc + 2) 2 (omega arith) (omega arith)),
  )
  HasBytes-Reads (with_im o v) (valid, hv) h = (
    fetch_lem o valid (h (s.pc + 0) 0 (omega arith) (omega arith)),
    arg_im_lem 1 v hv (h (s.pc + 1) 1 (omega arith) (omega arith))
        (h (s.pc + 2) 2 (omega arith) (omega arith)),
  )
  HasBytes-Reads (with_im_im o v w) (valid, hv, hw) h = (
    fetch_lem o valid (h (s.pc + 0) 0 (omega arith) (omega arith)),
    arg_im_lem 1 v hv (h (s.pc + 1) 1 (omega arith) (omega arith))
        (h (s.pc + 2) 2 (omega arith) (omega arith)),
    arg_im_lem 3 w hw (h (s.pc + 3) 3 (omega arith) (omega arith))
        (h (s.pc + 4) 4 (omega arith) (omega arith)),
  )
  HasBytes-Reads (with_im_b o v b) (valid, hv, hb) h = (
    fetch_lem o valid (h (s.pc + 0) 0 (omega arith) (omega arith)),
    arg_im_lem 1 v hv (h (s.pc + 1) 1 (omega arith) (omega arith))
        (h (s.pc + 2) 2 (omega arith) (omega arith)),
    arg_b_lem 3 b hb (h (s.pc + 3) 3 (omega arith) (omega arith)),
  )

-- A list of instructions, each of them one of the machine's.
abbrev pub AreInstructions : List Instruction → Type 0
AreInstructions [] = Unit
AreInstructions (i ∷ is) = IsInstruction i × AreInstructions is

abbrev pub size_all : List Instruction → ℕ
size_all [] = 0
size_all (i ∷ is) = size i + size_all is

-- From `pc` on the code has the instructions: a machine reads each of them at its place.
abbrev pub Placed : List Instruction → ℕ → List ℕ → Type 0
Placed [] pc code = Unit
Placed (i ∷ is) pc code =
    ((s : Machine) → s.pc ≡ pc → Reads i code s) × Placed is (pc + size i) code

assemble_step :
    (i : Instruction) (code : List ℕ) (pc : ℕ)
    → pc + length (bytes_of i) ≤ length code
    → assemble i (record { code = code; pc = pc })
      ≡ done (record { code = written code pc (bytes_of i); pc = pc + size i })
unfolding emit
assemble_step i code pc fits =
    assemble_lem i (record { code = code; pc = pc })
    ∙ rw (store_words_lem code pc (bytes_of i) fits, length-bytes_of i) refl

-- Assembled into an array with room, a list of instructions lies there one behind the other: `pc`
-- ends behind the last, and a machine at the place of one of them dispatches on its operation and
-- reads its arguments; the bytes before are as they were.
pub assemble_all-Placed :
    (is : List Instruction) (code : List ℕ) (pc : ℕ)
    → AreInstructions is
    → pc + size_all is ≤ length code
    → (code' : List ℕ) × (assemble_all is (record { code = code; pc = pc })
        ≡ done (record { code = code'; pc = pc + size_all is }))
      × Placed is pc code'
      × (length code' ≡ length code)
      × ((j : ℕ) → j < pc → get_elem? code' j ≡ get_elem? code j)
unfolding assemble_all
assemble_all-Placed [] code pc valid room =
    let here : pc + 0 ≡ pc = omega arith in
    (code, ap (λ n. done (record { code = code; pc = n })) (sym here), tt, refl, λ j h. refl)
assemble_all-Placed (i ∷ is) code pc (valid, rest) room =
    let bytes = bytes_of i in
    let n = length-bytes_of i in
    let code1 = written code pc bytes in
    let fits : pc + length bytes ≤ length code = omega arith in
    let same = length-written code pc bytes in
    let (code', runs, placed, len, before) =
      assemble_all-Placed is code1 (pc + size i) rest (omega (arith, same)) in
    let has : HasBytes code' pc bytes =
      λ j k h e. before j (omega (arith, n)) ∙ get_elem?-written code pc bytes j k fits h e in
    let end : pc + size i + size_all is ≡ pc + size_all (i ∷ is) = omega arith in
    (
      code',
      rw (assemble_step i code pc fits) runs ∙ ap (λ m. done (record { code = code'; pc = m })) end,
      ((λ s e. HasBytes-Reads code' s i valid (rw e has)), placed),
      len ∙ same,
      λ j h. before j (omega arith) ∙ get_elem?-written_ne code pc bytes j (inl h),
    )
