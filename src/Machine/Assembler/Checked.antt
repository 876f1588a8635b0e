-- ===== src/Machine/Assembler/Checked.antt =====
-- A test that a list of instructions can be assembled.
use lilyvm.Base.{◌≡◌, ◌≢◌, ap, ◌∙◌, sym, arith, List, [], ◌∷◌, Bool, true, ltb, ◌&&◌}
use lilyvm.Base.{ltb→lt}
use lilyvm.Machine.Op.{Op, opcode}
use lilyvm.Machine.Assembler.Reads.{
  Instruction, plain, with_b, with_b_b, with_im, with_im_im, with_im_b, IsInstruction,
  AreInstructions,
}

unfoldable fits : Op → Bool
unfolding opcode
fits o = ltb (opcode o) 256

unfoldable pub is_instruction : Instruction → Bool
unfolding fits
is_instruction (plain o) = fits o
is_instruction (with_b o a) = fits o && ltb a 256
is_instruction (with_b_b o a b) = fits o && (ltb a 256 && ltb b 256)
is_instruction (with_im o v) = fits o && ltb v 65536
is_instruction (with_im_im o v w) = fits o && (ltb v 65536 && ltb w 65536)
is_instruction (with_im_b o v b) = fits o && (ltb v 65536 && ltb b 256)

unfoldable pub are_instructions : List Instruction → Bool
unfolding is_instruction
are_instructions [] = true
are_instructions (i ∷ is) = is_instruction i && are_instructions is

fits-valid : (o : Op) → fits o ≡ true → o ≢ Op.invalid
unfolding fits
fits-valid o h e = let bad = sym h ∙ ap fits e in cc

&&-split : (a b : Bool) → (a && b) ≡ true → (a ≡ true) × (b ≡ true)
&&-split a b h = ground arith

pub is_instruction-IsInstruction : (i : Instruction) → is_instruction i ≡ true → IsInstruction i
unfolding is_instruction
is_instruction-IsInstruction (plain o) h = fits-valid o h
is_instruction-IsInstruction (with_b o a) h =
    let (f, x) = &&-split (fits o) (ltb a 256) h in (fits-valid o f, ltb→lt a 256 x)
is_instruction-IsInstruction (with_b_b o a b) h =
    let (f, xy) = &&-split (fits o) (ltb a 256 && ltb b 256) h in
    let (x, y) = &&-split (ltb a 256) (ltb b 256) xy in
    (fits-valid o f, ltb→lt a 256 x, ltb→lt b 256 y)
is_instruction-IsInstruction (with_im o v) h =
    let (f, x) = &&-split (fits o) (ltb v 65536) h in (fits-valid o f, ltb→lt v 65536 x)
is_instruction-IsInstruction (with_im_im o v w) h =
    let (f, xy) = &&-split (fits o) (ltb v 65536 && ltb w 65536) h in
    let (x, y) = &&-split (ltb v 65536) (ltb w 65536) xy in
    (fits-valid o f, ltb→lt v 65536 x, ltb→lt w 65536 y)
is_instruction-IsInstruction (with_im_b o v b) h =
    let (f, xy) = &&-split (fits o) (ltb v 65536 && ltb b 256) h in
    let (x, y) = &&-split (ltb v 65536) (ltb b 256) xy in
    (fits-valid o f, ltb→lt v 65536 x, ltb→lt b 256 y)

pub are_instructions-AreInstructions :
    (is : List Instruction) → are_instructions is ≡ true → AreInstructions is
unfolding are_instructions
are_instructions-AreInstructions [] h = tt
are_instructions-AreInstructions (i ∷ is) h =
    let (x, y) = &&-split (is_instruction i) (are_instructions is) h in
    (is_instruction-IsInstruction i x, are_instructions-AreInstructions is y)
