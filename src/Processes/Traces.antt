-- ===== src/Processes/Traces.antt =====
-- What the accesses of a process and its end have to do with each other.
use cascader.Common.{List, [], ◌∷◌, ◌++◌, ◌⊎◌, inl, inr}
use cascader.Processes.{Process, done, access, ◌>>=◌}
use cascader.Processes.Guarantees.{Within, Gives}

-- In states with the property `I`, which the accesses keep, the accesses that the process makes,
-- each with the state before and after, and its end are as `Q` says.
pub data Traced {S A : Type 0} (I : S → Type 0)
    : (List (S × S) → A → Type 0) → Process S A → Type 1 where
  at_end : {Q : List (S × S) → A → Type 0} {a : A} → Q [] a → Traced I Q (done a)
  at_access :
      {Q : List (S × S) → A → Type 0} {write : S → S} {next : S → Process S A}
      → ((s : S) → I s → I (write s))
      → ((s : S) → I s → Traced I (λ own a. Q ((s, write s) ∷ own) a) (next s))
      → Traced I Q (access write next)

-- One of the accesses.
abbrev pub SomeOf : {S : Type 0} → (S → S → Type 0) → List (S × S) → Type 0
SomeOf R [] = ⊥
SomeOf R ((s, s') ∷ own) = R s s' ⊎ SomeOf R own

module _ {S : Type 0} (R : S → S → Type 0) where
  pub SomeOf-append_left : (own own' : List (S × S)) → SomeOf R own → SomeOf R (own ++ own')
  SomeOf-append_left [] own' h = absurd h
  SomeOf-append_left ((s, s') ∷ own) own' (inl h) = inl h
  SomeOf-append_left ((s, s') ∷ own) own' (inr h) = inr (SomeOf-append_left own own' h)

  pub SomeOf-append_right : (own own' : List (S × S)) → SomeOf R own' → SomeOf R (own ++ own')
  SomeOf-append_right [] own' h = h
  SomeOf-append_right ((s, s') ∷ own) own' h = inr (SomeOf-append_right own own' h)

pub Traced-bind :
    {S A B : Type 0} {I : S → Type 0} {P : List (S × S) → A → Type 0}
    {Q : List (S × S) → B → Type 0} (p : Process S A) (f : A → Process S B)
    → Traced I P p
    → ((own : List (S × S)) (a : A) → P own a → Traced I (λ own' b. Q (own ++ own') b) (f a))
    → Traced I Q (p >>= f)
Traced-bind (done a) f (Traced.at_end h) k = k [] a h
Traced-bind (access write next) f (Traced.at_access kept rest) k =
    Traced.at_access kept
      (λ s i. Traced-bind (next s) f (rest s i) (λ own a h. k ((s, write s) ∷ own) a h))

pub Traced-weaken :
    {S A : Type 0} {I : S → Type 0} {P Q : List (S × S) → A → Type 0} (p : Process S A)
    → ((own : List (S × S)) (a : A) → P own a → Q own a)
    → Traced I P p
    → Traced I Q p
Traced-weaken (done a) weaker (Traced.at_end h) = Traced.at_end (weaker [] a h)
Traced-weaken (access write next) weaker (Traced.at_access kept rest) =
    Traced.at_access kept
      (λ s i. Traced-weaken (next s) (λ own a. weaker ((s, write s) ∷ own) a) (rest s i))

pub Gives-Traced :
    {S A : Type 0} {I : S → Type 0} {R : S → S → Type 0} {Q : A → Type 0} (p : Process S A)
    → Gives I R Q p
    → Traced I (λ own a. Q a) p
Gives-Traced (done a) (Gives.at_end h) = Traced.at_end h
Gives-Traced (access write next) (Gives.at_access kept allowed rest) =
    Traced.at_access kept (λ s i. Gives-Traced (next s) (rest s i))

-- What holds of the trace in any state holds where a property is kept.
pub Within-Traced :
    {S A : Type 0} {R : S → S → Type 0} {I : S → Type 0} {Q : List (S × S) → A → Type 0}
    (p : Process S A)
    → ((s s' : S) → R s s' → I s → I s')
    → Within R p
    → Traced (λ _. Unit) Q p
    → Traced I Q p
Within-Traced (done a) keeps Within.at_end (Traced.at_end h) = Traced.at_end h
Within-Traced (access write next) keeps (Within.at_access allowed within)
      (Traced.at_access _ rest) =
    Traced.at_access (λ s i. keeps s (write s) (allowed s) i)
      (λ s i. Within-Traced (next s) keeps (within s) (rest s tt))

-- What it gives, and what else holds of its trace.
pub Gives-also :
    {S A : Type 0} {I : S → Type 0} {R : S → S → Type 0} {P : A → Type 0}
    {Q : List (S × S) → A → Type 0} (p : Process S A)
    → Gives I R P p
    → Traced (λ _. Unit) Q p
    → Traced I (λ own a. P a × Q own a) p
Gives-also (done a) (Gives.at_end h) (Traced.at_end k) = Traced.at_end (h, k)
Gives-also (access write next) (Gives.at_access kept allowed rest) (Traced.at_access _ also) =
    Traced.at_access kept (λ s i. Gives-also (next s) (rest s i) (also s tt))
