-- ===== src/Store.antt =====
-- internal/postgres/tx.go: the database of one service, the statements that a repository runs on
-- it, and transactions. A call of the program is a function on `World`; the calls that reach
-- CCP's sign-on service to revoke a token are kept in a log, and the counter
-- `MailCapRejections` is part of the world, and so is the memory of the session that is served: its
-- tokens, and how often CCP was asked for new ones.
pub mod Laws
pub mod Runs
use eve_online_mcp.Prelude.{
  ℕ, suc, ◌+◌, String, Bool, true, false, Option, none, some, List, [], ◌∷◌, if◌then◌else◌,
}
use eve_online_mcp.Domain.{
  Error, driver, Confirm, MutationRow, SessionRow, Code, Login, Client, Character, GrantState,
}

pub record Db : Type 0 where
  pub confirms : List Confirm
  pub mutations : List MutationRow
  pub sessions : List SessionRow
  pub next_session : ℕ
  pub codes : List Code
  pub logins : List Login
  pub clients : List Client
  pub characters : List Character

-- `fault n` says whether the n-th exchange with the database fails, and `calls` counts them; a
-- `COMMIT` that fails has been applied all the same, its answer lost on the way, when `kept n` says so.
-- `in_tx` says whether the context carries a transaction.
pub record World : Type 0 where
  pub db : Db
  pub now : ℕ
  pub in_tx : Bool
  pub fault : ℕ → Bool
  pub kept : ℕ → Bool
  pub calls : ℕ
  pub revoked_at_ccp : List String
  pub mail_cap_rejections : ℕ
  pub grant : GrantState
  pub tokens_asked : ℕ

pub data Result (A : Type 0) : Type 0 where
  ok : A → Result A
  err : Error → Result A

abbrev pub M : Type 0 → Type 0
M A = World → Result A × World

module _ {A : Type 0} where
  abbrev pub pure : A → M A
  pure a w = (ok a, w)

  abbrev pub raise : Error → M A
  raise e w = (err e, w)

  -- A value that is missing is an error.
  abbrev pub or_raise : Option A → Error → M A
  or_raise none e = raise e
  or_raise (some a) e = pure a

  abbrev pub handle : M A → (Error → M A) → M A
  handle m h w = let (r, w') = m w in elim r [ ok a ↦ (ok a, w') | err e ↦ h e w' ]

abbrev pub skip : M (Unit {0})
skip = pure tt

abbrev pub resume : {A B : Type 0} → Result A × World → (A → M B) → Result B × World
resume (ok a, w) f = f a w
resume (err e, w) f = (err e, w)

infixl 5 ◌>>=◌ ◌>>◌
abbrev pub ◌>>=◌ : {A B : Type 0} → M A → (A → M B) → M B
◌>>=◌ m f w = resume (m w) f

abbrev pub ◌>>◌ : {A B : Type 0} → M A → M B → M B
m >> k = m >>= λ _. k

-- A statement reads the clock `now()`; `none` is a violated constraint of the schema.
abbrev pub Statement : Type 0 → Type 0
Statement A = ℕ → Db → Option (A × Db)

abbrev pub settle : {A : Type 0} → Option (A × Db) → World → Result A × World
settle none w = (err driver, w)
settle (some (a, d)) w = (ok a, record w { db = d })

-- One exchange with the database, which fails or runs the statement.
unfoldable pub sql : {A : Type 0} → Statement A → M A
sql f w =
    let w' = record w { calls = suc w.calls } in
    if w.fault w.calls then (err driver, w') else settle (f w.now w.db) w'

-- A `COMMIT` of changes that are pending: one that fails may have been applied.
unfoldable pub sql_commit : (Db → Db) → M (Unit {0})
sql_commit f w =
    let w' = record w { calls = suc w.calls } in
    let applied = record w' { db = f w.db } in
    if w.fault w.calls
    then (err driver, if w.kept w.calls then applied else w')
    else (ok tt, applied)

-- `BEGIN`, `SELECT pg_advisory_xact_lock(...)`: an exchange that changes no row.
abbrev pub touch_db : Statement (Unit {0})
touch_db now d = some (tt, d)

-- A rollback gives the rows back as they were at the start; what it answers is of no account.
abbrev pub roll_back : {A : Type 0} → World → Error → World → Result A × World
roll_back begun e w = (err e, record w { db = begun.db; in_tx = begun.in_tx; calls = suc w.calls })

abbrev pub commit : {A : Type 0} → World → A → World → Result A × World
commit begun a w =
    if w.fault w.calls
    then (
      err driver,
      record w {
        db = if w.kept w.calls then w.db else begun.db;
        in_tx = begun.in_tx;
        calls = suc w.calls;
      },
    )
    else (ok a, record w { in_tx = begun.in_tx; calls = suc w.calls })

abbrev pub finish : {A : Type 0} → World → Result A × World → Result A × World
finish begun (ok a, w) = commit begun a w
finish begun (err e, w) = roll_back begun e w

-- `postgres.WithinTx`: inside a transaction the function just runs.
unfoldable pub within_tx : {A : Type 0} → M A → M A
within_tx m w =
    if w.in_tx
    then m w
    else let begun = record w { calls = suc w.calls } in
      if w.fault w.calls
      then (err driver, begun)
      else finish begun (m (record begun { in_tx = true }))

-- `SSO.Revoke` for each token in turn. What CCP answers is not looked at.
unfoldable pub revoke_at_ccp : List String → M (Unit {0})
revoke_at_ccp [] w = (ok tt, w)
revoke_at_ccp (t ∷ ts) w = revoke_at_ccp ts (record w { revoked_at_ccp = t ∷ w.revoked_at_ccp })
