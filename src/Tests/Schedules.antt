-- ===== src/Tests/Schedules.antt =====
-- Overlapping calls by evaluation: given schedules, and the moments that they lead to.
use cascader.Common.{ℕ, zero, suc, ℤ, ◌≡◌, refl, Text, Option, none, some, List, [], ◌∷◌}
use cascader.Client.{Client}
use cascader.Processes.{Process, done, access, Turn, head_turn, tail_turn}
use cascader.Controller.{BaseReconciler}
use cascader.Controller.Reconcile.{World}
use cascader.Stepwise.Requests.{Request, reconcile_program}
use cascader.Overlap.{
  Moment, accept, turn, elsewhere, Reach, start, later, Amid, finish, proceed, Makes, makes_next,
  makes_later,
}

-- A request arrives, a call makes its next access, or another writer writes.
pub data Move : Type 0 where
  arrive : Request → Move
  go : ℕ → Move
  write : Move

-- The turn of one call, if it is not over.
abbrev NextTurn : {S A : Type 0} → S → List (Process S A) → Type 0
NextTurn {S} {A} s ps = Option ((s' : S) × (ps' : List (Process S A)) × Turn s ps s' ps')

unfoldable next_turn : {S A : Type 0} (s : S) (ps : List (Process S A)) → ℕ → NextTurn s ps
next_turn s [] i = none
next_turn s (done a ∷ ps) zero = none
next_turn s (access f next ∷ ps) zero = some (f s, next s ∷ ps, head_turn)
next_turn s (p ∷ ps) (suc i) = elim (next_turn s ps i) [
  | none ↦ none
  | some (s', ps', t) ↦ some (s', p ∷ ps', tail_turn t)
]

module _ (parse_duration : Text → Option ℤ) (b : BaseReconciler) (c : Client) (fuel : ℕ)
    (other : c.State → c.State) where
  abbrev pub Other : c.State → c.State → Type 0
  Other s s' = s' ≡ other s

  pub record Run (m : Moment c) : Type 0 where
    pub last : Moment c
    pub reach : Reach parse_duration b c fuel Other m last

  unfoldable move : {m : Moment c} → Run m → Move → Run m
  unfolding next_turn
  move r (arrive request) = record {
    last = record (r.last) {
      calls = reconcile_program parse_duration b c fuel request ∷ r.last.calls;
    };
    reach = later r.reach (accept request);
  }
  move r (go i) = elim (next_turn r.last.world r.last.calls i) [
    | none ↦ r
    | some (world, calls, t) ↦ record {
      last = record { world = world; calls = calls };
      reach = later r.reach (turn t);
    }
  ]
  move r write = record {
    last = record (r.last) { world = record (r.last.world) { state = other r.last.world.state } };
    reach = later r.reach (elsewhere refl);
  }

  unfoldable pub moves : {m : Moment c} → Run m → List Move → Run m
  unfolding move
  moves r [] = r
  moves r (x ∷ xs) = moves (move r x) xs

  unfoldable pub run : (m : Moment c) → List Move → Run m
  unfolding moves
  run m = moves (record { last = m; reach = start })

  -- A process with the moves before each of its accesses.
  pub record AmidRun {A : Type 0} (p : Process (World c.State) A) (m : Moment c) : Type 0 where
    pub own : List (World c.State × World c.State)
    pub answer : A
    pub last : Moment c
    pub amid : Amid parse_duration b c fuel Other p m own answer last

  abbrev first : List (List Move) → List Move
  first [] = []
  first (x ∷ xs) = x

  abbrev rest : List (List Move) → List (List Move)
  rest [] = []
  rest (x ∷ xs) = xs

  unfoldable pub amid_run :
      {A : Type 0} (p : Process (World c.State) A) (m : Moment c) → List (List Move) → AmidRun p m
  unfolding run
  amid_run (done a) m gaps = record { own = []; answer = a; last = m; amid = finish start }
  amid_run (access f next) m gaps =
      let r = run m (first gaps) in
      let after = record (r.last) { world = f r.last.world } in
      let a = amid_run (next r.last.world) after (rest gaps) in
      record {
        own = (r.last.world, f r.last.world) ∷ a.own;
        answer = a.answer;
        last = a.last;
        amid = proceed r.reach a.amid;
      }

  -- An access of a process, with the moves before it and before each of the earlier ones.
  pub record MadeRun {A : Type 0} (p : Process (World c.State) A) (m : Moment c) : Type 0 where
    pub before : World c.State
    pub after : World c.State
    pub last : Moment c
    pub makes : Makes parse_duration b c fuel Other p m before after last

  unfoldable pub made_run :
      {A : Type 0} (p : Process (World c.State) A) (m : Moment c)
      → List Move
      → List (List Move)
      → Option (MadeRun p m)
  unfolding run
  made_run (done a) m gap gaps = none
  made_run (access f next) m gap [] =
      let r = run m gap in
      some (record {
        before = r.last.world;
        after = f r.last.world;
        last = record (r.last) { world = f r.last.world };
        makes = makes_next r.reach;
      })
  made_run (access f next) m gap (gap' ∷ gaps) =
      let r = run m gap in
      elim (made_run (next r.last.world) (record (r.last) { world = f r.last.world }) gap' gaps) [
        | none ↦ none
        | some a ↦ some (record {
          before = a.before;
          after = a.after;
          last = a.last;
          makes = makes_later r.reach a.makes;
        })
      ]
