-- ===== src/Store/Runs.antt =====
-- internal/postgres/tx.go: what a call that answered has run, read back from its answer, and what
-- makes a call answer.
use eve_online_mcp.Prelude.{
  ℕ, suc, ◌≡◌, refl, ap, ◌∙◌, true, false, Option, none, some, arith, Bool-cases, inl, inr,
}
use eve_online_mcp.Domain.{Error}
use eve_online_mcp.Store.{
  Db, World, Result, ok, err, M, Statement, sql, settle, within_tx, ◌>>=◌, resume, or_raise, finish,
}

-- The clock, the context's transaction, the failures to come and the tokens in memory.
pub record SameContext (w w' : World) : Type 0 where
  pub clock : w'.now ≡ w.now
  pub tx : w'.in_tx ≡ w.in_tx
  pub faults : w'.fault ≡ w.fault
  pub memory : w'.grant ≡ w.grant

-- A statement that answered `a`, from `w` to `w'`.
pub record Ran {A : Type 0} (f : Statement A) (a : A) (w w' : World) : Type 0 where
  pub rows : f w.now w.db ≡ some (a, w'.db)
  pub context : SameContext w w'

module _ {A B : Type 0} where
  -- The first half of a sequence that answered has answered, and the second went on from there.
  pub resume-ok :
      (r : Result A × World) (f : A → M B) (b : B) (w' : World)
      → resume r f ≡ (ok b, w')
      → (a : A) × (v : World) × ((r ≡ (ok a, v)) × (f a v ≡ (ok b, w')))
  resume-ok (ok a, v) f b w' h = (a, v, (refl, h))
  resume-ok (err e, v) f b w' h = ground arith

  pub resume-runs :
      (r : Result A × World) (f : A → M B) (a : A) (v : World) → r ≡ (ok a, v) → resume r f ≡ f a v
  resume-runs r f a v h = ap (λ q. resume q f) h

module _ {A : Type 0} where
  settle-ok :
      (o : Option (A × Db)) (a : A) (w w' : World)
      → settle o w ≡ (ok a, w')
      → (o ≡ some (a, w'.db)) × SameContext w w'
  settle-ok none a w w' h = ground arith
  settle-ok (some (b, d)) a w w' h = (
    ground arith,
    record {
      clock = ground arith;
      tx = ground arith;
      faults = ground arith;
      memory = ground arith;
    },
  )

  pub sql-ok : (f : Statement A) (a : A) (w w' : World) → sql f w ≡ (ok a, w') → Ran f a w w'
  unfolding sql
  sql-ok f a w w' h = elim (Bool-cases (w.fault w.calls)) [
    | inl fails ↦ ground arith
    | inr runs ↦
        let (rows, context) =
          settle-ok (f w.now w.db) a (record w { calls = suc w.calls }) w' (ground arith) in
        record {
          rows = rows;
          context = record {
            clock = context.clock;
            tx = context.tx;
            faults = context.faults;
            memory = context.memory;
          };
        }
  ]

  pub or_raise-ok :
      (o : Option A) (e : Error) (a : A) (w w' : World)
      → or_raise o e w ≡ (ok a, w')
      → (o ≡ some a) × (w ≡ w')
  or_raise-ok none e a w w' h = ground arith
  or_raise-ok (some b) e a w w' h = ground arith

  finish-ok :
      (begun : World) (r : Result A × World) (a : A) (w' : World)
      → finish begun r ≡ (ok a, w')
      → (v : World) × ((r ≡ (ok a, v)) × ((w'.db ≡ v.db) × (w'.grant ≡ v.grant)))
  finish-ok begun (ok b, v) a w' h = (v, (ground arith, (ground arith, ground arith)))
  finish-ok begun (err e, v) a w' h = ground arith

  -- Outside a transaction the function has run in one, which was committed.
  pub within_tx-ok :
      (m : M A) (a : A) (w w' : World)
      → w.in_tx ≡ false
      → within_tx m w ≡ (ok a, w')
      → (v : World) × ((m (record w { calls = suc w.calls; in_tx = true }) ≡ (ok a, v))
          × ((w'.db ≡ v.db) × (w'.grant ≡ v.grant)))
  unfolding within_tx
  within_tx-ok m a w w' h e = elim (Bool-cases (w.fault w.calls)) [
    | inl fails ↦ ground arith
    | inr runs ↦
        finish-ok (record w { calls = suc w.calls })
          (m (record w { calls = suc w.calls; in_tx = true })) a w' (ground arith)
  ]

-- No exchange with the database fails.
abbrev pub Quiet : World → Type 0
Quiet w = (n : ℕ) → w.fault n ≡ false

pub stay-Quiet : {w w' : World} → SameContext w w' → Quiet w → Quiet w'
stay-Quiet c q n = ap (λ f. f n) c.faults ∙ q n

-- A call that answers `a` and leaves the rows `d`.
pub record Answers {A : Type 0} (m : M A) (w : World) (a : A) (d : Db) : Type 0 where
  pub after : World
  pub answered : m w ≡ (ok a, after)
  pub rows : after.db ≡ d
  pub context : SameContext w after

module _ {A : Type 0} where
  pub sql-Answers :
      (f : Statement A) (w : World) (a : A) (d : Db)
      → Quiet w
      → f w.now w.db ≡ some (a, d)
      → Answers (sql f) w a d
  unfolding sql
  sql-Answers f w a d q h = record {
    after = record w { calls = suc w.calls; db = d };
    answered = ground (arith, q w.calls, h);
    rows = refl;
    context = record { clock = refl; tx = refl; faults = refl; memory = refl };
  }

pub bind-Answers :
    {A B : Type 0} (m : M A) (f : A → M B) (w : World) (a : A) (d : Db) (b : B) (e : Db)
    → (h : Answers m w a d) → Answers (f a) h.after b e
    → Answers (m >>= f) w b e
bind-Answers m f w a d b e h g = record {
  after = g.after;
  answered = resume-runs (m w) f a h.after h.answered ∙ g.answered;
  rows = g.rows;
  context = record {
    clock = g.context.clock ∙ h.context.clock;
    tx = g.context.tx ∙ h.context.tx;
    faults = g.context.faults ∙ h.context.faults;
    memory = g.context.memory ∙ h.context.memory;
  };
}
