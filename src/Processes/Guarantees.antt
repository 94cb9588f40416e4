-- ===== src/Processes/Guarantees.antt =====
-- What a process guarantees, whatever others do between its accesses.
use cascader.Common.{List, [], ◌∷◌, Bool, true, false, if◌then◌else◌}
use cascader.Processes.{Process, done, access, ◌>>=◌, act, ask, Turn, head_turn, tail_turn}

-- Each access changes the state as `R` allows.
pub data Within {S A : Type 0} (R : S → S → Type 0) : Process S A → Type 0 where
  at_end : {a : A} → Within R (done a)
  at_access :
      {write : S → S} {next : S → Process S A}
      → ((s : S) → R s (write s))
      → ((s : S) → Within R (next s))
      → Within R (access write next)

-- In states with the property `I`, which the accesses keep, each access changes the state as `R`
-- allows, and the process can only end in what `Q` allows.
pub data Gives {S A : Type 0} (I : S → Type 0) (R : S → S → Type 0) (Q : A → Type 0)
    : Process S A → Type 0 where
  at_end : {a : A} → Q a → Gives I R Q (done a)
  at_access :
      {write : S → S} {next : S → Process S A}
      → ((s : S) → I s → I (write s))
      → ((s : S) → I s → R s (write s))
      → ((s : S) → I s → Gives I R Q (next s))
      → Gives I R Q (access write next)

module _ {S A : Type 0} {R : S → S → Type 0} where
  pub Within-done : (a : A) → Within R (done a)
  Within-done a = Within.at_end

  pub Within-act : (f : S → S × A) → ((s : S) → R s (f s).0) → Within R (act f)
  Within-act f h = Within.at_access h (λ s. Within.at_end)

  pub Within-ask : (f : S → A) → ((s : S) → R s s) → Within R (ask f)
  Within-ask f h = Within.at_access h (λ s. Within.at_end)

  pub Within-if :
      (b : Bool) (p q : Process S A) → Within R p → Within R q → Within R (if b then p else q)
  Within-if true p q h k = h
  Within-if false p q h k = k

pub Within-bind :
    {S A B : Type 0} {R : S → S → Type 0} (p : Process S A) (f : A → Process S B)
    → Within R p
    → ((a : A) → Within R (f a))
    → Within R (p >>= f)
Within-bind (done a) f h k = k a
Within-bind (access write next) f (Within.at_access allowed rest) k =
    Within.at_access allowed (λ s. Within-bind (next s) f (rest s) k)

pub Gives-bind :
    {S A B : Type 0} {I : S → Type 0} {R : S → S → Type 0} {P : A → Type 0} {Q : B → Type 0}
    (p : Process S A) (f : A → Process S B)
    → Gives I R P p
    → ((a : A) → P a → Gives I R Q (f a))
    → Gives I R Q (p >>= f)
Gives-bind (done a) f (Gives.at_end h) k = k a h
Gives-bind (access write next) f (Gives.at_access kept allowed rest) k =
    Gives.at_access kept allowed (λ s i. Gives-bind (next s) f (rest s i) k)

pub Within-weaken :
    {S A : Type 0} {R R' : S → S → Type 0} (p : Process S A)
    → ((s s' : S) → R s s' → R' s s')
    → Within R p
    → Within R' p
Within-weaken (done a) weaker Within.at_end = Within.at_end
Within-weaken (access write next) weaker (Within.at_access allowed rest) =
    Within.at_access (λ s. weaker s (write s) (allowed s))
      (λ s. Within-weaken (next s) weaker (rest s))

pub Gives-weaken :
    {S A : Type 0} {I : S → Type 0} {R R' : S → S → Type 0} {Q : A → Type 0} (p : Process S A)
    → ((s s' : S) → R s s' → R' s s')
    → Gives I R Q p
    → Gives I R' Q p
Gives-weaken (done a) weaker (Gives.at_end h) = Gives.at_end h
Gives-weaken (access write next) weaker (Gives.at_access kept allowed rest) =
    Gives.at_access kept (λ s i. weaker s (write s) (allowed s i))
      (λ s i. Gives-weaken (next s) weaker (rest s i))

-- What each access respects keeps a property that it does not leave.
pub Within-Gives :
    {S A : Type 0} {R : S → S → Type 0} {I : S → Type 0} (p : Process S A)
    → ((s s' : S) → R s s' → I s → I s')
    → Within R p
    → Gives I (λ _ _. Unit) (λ _. Unit) p
Within-Gives (done a) keeps Within.at_end = Gives.at_end tt
Within-Gives (access write next) keeps (Within.at_access allowed rest) =
    Gives.at_access (λ s i. keeps s (write s) (allowed s) i) (λ s i. tt)
      (λ s i. Within-Gives (next s) keeps (rest s))

-- Every process of a pool.
pub data AllWithin {S A : Type 0} (R : S → S → Type 0) : List (Process S A) → Type 0 where
  no_process : AllWithin R []
  one_more :
      {p : Process S A} {ps : List (Process S A)}
      → Within R p
      → AllWithin R ps
      → AllWithin R (p ∷ ps)

-- A turn of one of them changes the state as `R` allows, and they go on guaranteeing it.
pub Turn-Within :
    {S A : Type 0} {R : S → S → Type 0} {s s' : S} {ps ps' : List (Process S A)}
    → Turn s ps s' ps'
    → AllWithin R ps
    → R s s' × AllWithin R ps'
Turn-Within {s} head_turn (one_more (Within.at_access allowed rest) others) =
    (allowed s, one_more (rest s) others)
Turn-Within (tail_turn turn) (one_more h others) =
    let (allowed, others') = Turn-Within turn others in (allowed, one_more h others')

pub ruleset within_rules = (Within-done, Within-act, Within-ask, Within-if, Within-bind)
