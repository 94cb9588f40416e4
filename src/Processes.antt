-- ===== src/Processes.antt =====
-- Programs that share one state with others, one access at a time. Between two accesses the state
-- may have been changed by the others: what an access does, and what comes next, depends on the
-- state that it finds.
pub mod Guarantees
pub mod Running
pub mod Traces
use cascader.Common.{List, ◌∷◌}

-- An access changes the state by `write`, and `next` goes on from what it has found.
pub data Process (S A : Type 0) : Type 0 where
  done : A → Process S A
  access : (write : S → S) → (next : S → Process S A) → Process S A

infixl 5 ◌>>=◌ ◌>>◌
abbrev pub ◌>>=◌ : {S A B : Type 0} → Process S A → (A → Process S B) → Process S B
done a >>= f = f a
access write next >>= f = access write (λ s. next s >>= f)

abbrev pub ◌>>◌ : {S B : Type 0} → Process S (Unit {0}) → Process S B → Process S B
p >> q = p >>= λ _. q

-- One access.
abbrev pub act : {S A : Type 0} → (S → S × A) → Process S A
act f = access (λ s. (f s).0) (λ s. done (f s).1)

-- One access that changes nothing.
abbrev pub ask : {S A : Type 0} → (S → A) → Process S A
ask f = access (λ s. s) (λ s. done (f s))

-- The run in which nobody else has a turn.
unfoldable pub run_alone : {S A : Type 0} → Process S A → S → S × A
run_alone (done a) s = (s, a)
run_alone (access write next) s = run_alone (next s) (write s)

-- One access of one of the processes.
pub data Turn {S A : Type 0} (s : S) : List (Process S A) → S → List (Process S A) → Type 0 where
  head_turn :
      {write : S → S} {next : S → Process S A} {ps : List (Process S A)}
      → Turn s (access write next ∷ ps) (write s) (next s ∷ ps)
  tail_turn :
      {p : Process S A} {s' : S} {ps ps' : List (Process S A)}
      → Turn s ps s' ps'
      → Turn s (p ∷ ps) s' (p ∷ ps')
