-- ===== src/Machine/Trace.antt =====
-- Runs of the interpreter's loop as chains of operations, and what a stretch of code does to the
-- registers and the stack of a machine.
use lilyvm.Base.{ℕ, suc, ◌+◌, ◌==◌, ◌||◌, ◌≡◌, refl, ap, ◌∙◌, arith, List}
use lilyvm.Outcome.{done, assert, ◌>>=◌, >>=-eq-done}
use lilyvm.Heap.{load}
use lilyvm.Machine.Op.{Op, decode}
use lilyvm.Machine.State.{Machine, store_all, byte_at}
use lilyvm.Machine.Stack.Contents.{contents, rest, IsValid, IsAfter}
use lilyvm.Machine.Run.{Native, Next, running, exec, step, run}

-- The interpreter gets from one state to another by operations that do not halt.
pub data Reaches (native : Native) (code : List ℕ) : Machine → Machine → Type 0 where
  here : {s : Machine} → Reaches native code s s
  next :
      {s s1 s2 : Machine}
      → step native code s ≡ done (running s1)
      → Reaches native code s1 s2
      → Reaches native code s s2

-- All but the stack and `pc`, with the process as it is once the registers are saved.
unfoldable pub others : Machine → Machine
unfolding store_all
others s = record (rest (store_all s)) { pc = 0 }

-- The word at the start of the area is as the dispatch wants it.
abbrev pub IsVerified : Machine → Type 0
IsVerified s =
    (do w ← load s.process.heap s.process.alloc_area; assert ((w == 0xAAAA) || (w == 0xBBBB)))
    ≡ done tt

-- A machine at `pc` with `xs` on its stack and all else as in `base`.
pub record At (base : Machine) (pc : ℕ) (xs : List ℕ) (s : Machine) : Type 0 where
  pub valid : IsValid s
  pub at : s.pc ≡ pc
  pub holds : contents s ≡ xs
  pub frame : others s ≡ others base

pub At-len :
    {base : Machine} {pc : ℕ} {xs : List ℕ} {s : Machine}
    → At base pc xs s
    → s.process.stack.len ≡ base.process.stack.len
unfolding others
At-len h = ap (λ t. t.process.stack.len) h.frame

pub At-IsVerified :
    {base : Machine} {pc : ℕ} {xs : List ℕ} {s : Machine}
    → At base pc xs s
    → IsVerified base
    → IsVerified s
unfolding others
At-IsVerified h v =
    ap
      (λ t. (do
        w ← load t.process.heap t.process.alloc_area
        assert ((w == 0xAAAA) || (w == 0xBBBB))))
      h.frame
    ∙ v

-- After a stack operation.
pub stay-At :
    {base : Machine} {pc : ℕ} {xs ys : List ℕ} {s s' : Machine}
    → At base pc xs s
    → IsAfter s s' ys
    → At base pc ys s'
unfolding others
stay-At h a = record {
  valid = a.valid;
  at = ap (λ t. t.pc) a.frame ∙ h.at;
  holds = a.holds;
  frame = ap others a.frame ∙ h.frame;
}

-- After a stack operation and a jump.
pub after-At :
    {base : Machine} {pc pc' : ℕ} {xs ys : List ℕ} {s s' : Machine}
    → At base pc xs s
    → IsAfter s s' ys
    → (target : ℕ) → target ≡ pc'
    → At base pc' ys (record s' { pc = target })
unfolding others
after-At h a target e = record {
  valid = record { full = a.valid.full; within = a.valid.within; narrow = a.valid.narrow };
  at = e;
  holds = a.holds;
  frame = ap others a.frame ∙ h.frame;
}

module _ (native : Native) (code : List ℕ) where
  -- Code at `pc` with `xs` on the stack runs on to `pc'` with `xs'` on the stack, and makes `base'`
  -- of `base`.
  pub record Leads (base : Machine) (pc : ℕ) (xs : List ℕ) (base' : Machine) (pc' : ℕ)
      (xs' : List ℕ) : Type 0 where
    pub goes :
        (s : Machine)
        → At base pc xs s
        → (s' : Machine) × Reaches native code s s' × At base' pc' xs' s'

  pub trans-Reaches :
      {s s1 s2 : Machine}
      → Reaches native code s s1
      → Reaches native code s1 s2
      → Reaches native code s s2
  trans-Reaches here h = h
  trans-Reaches (next e r) h = next e (trans-Reaches r h)

  -- With enough fuel for the chain, the loop goes on from its end.
  pub run-Reaches :
      {s s' : Machine}
      → Reaches native code s s'
      → (k : ℕ) × ((fuel : ℕ) → run native code (k + fuel) s ≡ run native code fuel s')
  unfolding run
  run-Reaches here = (0, λ fuel. let e : 0 + fuel ≡ fuel = omega arith in rw e refl)
  run-Reaches (next e r) =
      let (k, h) = run-Reaches r in
      (suc k, λ fuel. let f : suc k + fuel ≡ suc (k + fuel) = omega arith in rw (f, e) (h fuel))

  -- One operation.
  pub step_lem :
      (s : Machine) (o : Op) {out : Next}
      → IsVerified s
      → (byte_at code s 0 >>= λ b. done (decode b)) ≡ done o
      → exec native code o s ≡ done out
      → step native code s ≡ done out
  unfolding step
  step_lem s o v f e =
      let (b, got, named) = >>=-eq-done (byte_at code s 0) (λ b. done (decode b)) f in
      rw (v, got) (ap (λ m. m >>= λ o'. exec native code o' s) named ∙ e)

  -- A known operation, whatever it does to the registers.
  pub Leads-exec :
      {base : Machine} {pc : ℕ} {xs : List ℕ} {base' : Machine} {pc' : ℕ} {xs' : List ℕ}
      → IsVerified base
      → (o : Op)
      → ((s : Machine) → s.pc ≡ pc → (byte_at code s 0 >>= λ b. done (decode b)) ≡ done o)
      → ((s : Machine)
          → At base pc xs s
          → (s' : Machine) × (exec native code o s ≡ done (running s')) × At base' pc' xs' s')
      → Leads base pc xs base' pc' xs'
  Leads-exec v o fetches effect = record {
    goes = λ s h.
        let (s', e, h') = effect s h in
        (s', next (step_lem s o (At-IsVerified h v) (fetches s h.at) e) here, h');
  }

module _ {native : Native} {code : List ℕ} where
  -- One stretch of code after the other.
  infixr 5 ◌▹◌
  pub ◌▹◌ :
      {base : Machine} {pc : ℕ} {xs : List ℕ} {base1 : Machine} {pc1 : ℕ} {ys : List ℕ}
      {base2 : Machine} {pc2 : ℕ} {zs : List ℕ}
      → Leads native code base pc xs base1 pc1 ys
      → Leads native code base1 pc1 ys base2 pc2 zs
      → Leads native code base pc xs base2 pc2 zs
  f ▹ g = record {
    goes = λ s h.
        let (s1, r, h1) = f.goes s h in
        let (s2, r', h2) = g.goes s1 h1 in (s2, trans-Reaches native code r r', h2);
  }
