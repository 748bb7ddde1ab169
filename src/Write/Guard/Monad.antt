-- ===== src/Write/Guard/Monad.antt =====
-- The state of a guard beside the world, and failure.
use eve_online_mcp.Prelude.{ℕ, Option, none}
use eve_online_mcp.Domain.{Error}
use eve_online_mcp.Store.{World, Result, ok, err, M}
use eve_online_mcp.Repo.Mutations.{MailCapHold}

-- write.Guard
pub record Guard : Type 0 where
  pub character_id : ℕ
  pub session_id : ℕ
  pub mail_hold : Option MailCapHold

-- write.NewGuard
abbrev pub new_guard : ℕ → ℕ → Guard
new_guard character session = record {
  character_id = character;
  session_id = session;
  mail_hold = none;
}

abbrev pub G : Type 0 → Type 0
G A = Guard × World → Result A × (Guard × World)

abbrev pub g_resume :
    {A B : Type 0} → Result A × (Guard × World) → (A → G B) → Result B × (Guard × World)
g_resume (ok a, s) f = f a s
g_resume (err e, s) f = (err e, s)

infixl 5 ◌>>=◌ ◌>>◌
abbrev pub ◌>>=◌ : {A B : Type 0} → G A → (A → G B) → G B
◌>>=◌ m f s = g_resume (m s) f

abbrev pub ◌>>◌ : {A B : Type 0} → G A → G B → G B
m >> k = m >>= λ _. k

module _ {A : Type 0} where
  abbrev pub g_pure : A → G A
  g_pure a s = (ok a, s)

  abbrev pub g_raise : Error → G A
  g_raise e s = (err e, s)

  abbrev pub lift : M A → G A
  lift m (g, w) = let (r, w') = m w in (r, (g, w'))

  -- A call whose error the caller looks at.
  abbrev pub attempt : G A → G (Result A)
  attempt m s = let (r, s') = m s in (ok r, s')

abbrev pub get_hold : G (Option MailCapHold)
get_hold (g, w) = (ok g.mail_hold, (g, w))

abbrev pub set_hold : Option MailCapHold → G (Unit {0})
set_hold h (g, w) = (ok tt, (record g { mail_hold = h }, w))
