-- ===== src/Processes/Running.antt =====
-- What a process does by itself.
use cascader.Common.{◌≡◌, refl, ap, ◌∙◌}
use cascader.Processes.{Process, done, access, ◌>>=◌, run_alone}
use cascader.Processes.Guarantees.{Gives}

pub run_alone-bind :
    {S A B : Type 0} (p : Process S A) (f : A → Process S B) (s : S)
    → run_alone (p >>= f) s ≡ run_alone (f (run_alone p s).1) (run_alone p s).0
unfolding run_alone
run_alone-bind (done a) f s = refl
run_alone-bind (access write next) f s = run_alone-bind (next s) f (write s)

pub run_alone_then :
    {S A B : Type 0} (p : Process S A) (f : A → Process S B) (s : S) {end : S × A}
    → run_alone p s ≡ end
    → run_alone (p >>= f) s ≡ run_alone (f end.1) end.0
run_alone_then p f s h = run_alone-bind p f s ∙ ap (λ x. run_alone (f x.1) x.0) h

-- It ends as it says, in a state with the property.
pub run_alone-Gives :
    {S A : Type 0} {I : S → Type 0} {R : S → S → Type 0} {Q : A → Type 0} (p : Process S A) (s : S)
    → Gives I R Q p
    → I s
    → I (run_alone p s).0 × Q (run_alone p s).1
unfolding run_alone
run_alone-Gives (done a) s (Gives.at_end h) i = (i, h)
run_alone-Gives (access write next) s (Gives.at_access kept allowed rest) i =
    run_alone-Gives (next s) (write s) (rest s i) (kept s i)
