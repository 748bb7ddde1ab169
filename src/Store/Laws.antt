-- ===== src/Store/Laws.antt =====
-- What an exchange with the database and a transaction leave behind.
use eve_online_mcp.Prelude.{
  ℕ, suc, ◌≡◌, refl, sym, ap, subst, ◌∙◌, true, false, Option, none, some, arith, Bool-cases, inl,
  inr, ◌⊎◌, String, List, [], ◌∷◌,
}
use eve_online_mcp.Domain.{Error}
use eve_online_mcp.Store.{
  finish, Db, World, Result, ok, err, M, Statement, sql, settle, within_tx, ◌>>=◌, resume,
  revoke_at_ccp,
}

-- A transaction that failed has changed no row, or else its calls had all answered and it was
-- committed without an answer.
finish-failed :
    {A : Type 0} (begun : World) (r : Result A × World) (e : Error)
    → (finish begun r).0 ≡ err e
    → ((finish begun r).1.db ≡ begun.db)
      ⊎ ((a : A) × ((v : World) × ((r ≡ (ok a, v)) × ((finish begun r).1.db ≡ v.db))))
finish-failed begun (err x, w) e h = inl refl
finish-failed begun (ok a, w) e h = elim (Bool-cases (w.fault w.calls)) [
  | inr runs ↦ ground (arith, h, runs)
  | inl fails ↦ elim (Bool-cases (w.kept w.calls)) [
    | inl stays ↦ inr (a, (w, (refl, ground (arith, fails, stays))))
    | inr goes ↦ inl (ground (arith, fails, goes))
  ]
]

pub within_tx-failed :
    {A : Type 0} (m : M A) (w : World) (e : Error)
    → w.in_tx ≡ false
    → (within_tx m w).0 ≡ err e
    → ((within_tx m w).1.db ≡ w.db)
      ⊎ ((a : A) × ((v : World) × ((m (record w { calls = suc w.calls; in_tx = true }) ≡ (ok a, v))
              × ((within_tx m w).1.db ≡ v.db))))
unfolding within_tx
within_tx-failed {A} m w e outside h = elim (Bool-cases (w.fault w.calls)) [
  | inl fails ↦ inl (ground (arith, outside, fails))
  | inr runs ↦
      let begun : World = record w { calls = suc w.calls } in
      let inner = m (record w { calls = suc w.calls; in_tx = true }) in
      let same : within_tx m w ≡ finish begun inner = ground (arith, outside, runs) in
      subst
        (λ (r : Result A × World).
          (r.1.db ≡ w.db) ⊎ ((a : A) × ((v : World) × ((inner ≡ (ok a, v)) × (r.1.db ≡ v.db)))))
        (sym same) (finish-failed begun inner e (ap (λ (r : Result A × World). r.0) (sym same) ∙ h))
]

-- The audit log, the clock and the context's transaction are as they were.
pub record SameLog (w w' : World) : Type 0 where
  pub log : w'.db.mutations ≡ w.db.mutations
  pub tx : w'.in_tx ≡ w.in_tx
  pub clock : w'.now ≡ w.now

abbrev pub Inert : {A : Type 0} → M A → Type 0
Inert m = (w : World) → SameLog w (m w).1

pub SameLog-refl : (w : World) → SameLog w w
SameLog-refl w = record { log = refl; tx = refl; clock = refl }

pub SameLog-trans : {u v w : World} → SameLog u v → SameLog v w → SameLog u w
SameLog-trans p q = record { log = q.log ∙ p.log; tx = q.tx ∙ p.tx; clock = q.clock ∙ p.clock }

-- A statement that leaves the audit log alone.
abbrev pub Spares : {A : Type 0} → Db → Option (A × Db) → Type 0
Spares d none = Unit {0}
Spares d (some (a, d')) = d'.mutations ≡ d.mutations

settle-SameLog :
    {A : Type 0} (o : Option (A × Db)) (w : World) → Spares w.db o → SameLog w (settle o w).1
settle-SameLog none w h = SameLog-refl w
settle-SameLog (some (a, d)) w h = record { log = h; tx = refl; clock = refl }

pub sql-Inert :
    {A : Type 0} (f : Statement A) → ((now : ℕ) (d : Db) → Spares d (f now d)) → Inert (sql f)
unfolding sql
sql-Inert f h w = elim (Bool-cases (w.fault w.calls)) [
  | inl fails ↦ rw fails (record { log = refl; tx = refl; clock = refl })
  | inr runs ↦ rw runs (
      let p = settle-SameLog (f w.now w.db) (record w { calls = suc w.calls }) (h w.now w.db) in
      record { log = p.log; tx = p.tx; clock = p.clock })
]

resume-SameLog :
    {A B : Type 0} (u : World) (r : Result A × World) (f : A → M B)
    → SameLog u r.1
    → ((a : A) → Inert (f a))
    → SameLog u (resume r f).1
resume-SameLog u (ok a, v) f p h = SameLog-trans p (h a v)
resume-SameLog u (err e, v) f p h = p

pub bind-Inert :
    {A B : Type 0} (m : M A) (f : A → M B) → Inert m → ((a : A) → Inert (f a)) → Inert (m >>= f)
bind-Inert m f hm hf w = resume-SameLog w (m w) f (hm w) hf

pub within_tx-Inert : {A : Type 0} (m : M A) → Inert m → Inert (within_tx m)
unfolding within_tx
within_tx-Inert m h w = ground (arith, h w, h (record w { calls = suc w.calls; in_tx = true }))

-- Asking CCP to revoke tokens leaves the tables and the clock alone.
pub revoke_at_ccp-rows : (ts : List String) (w : World) → (revoke_at_ccp ts w).1.db ≡ w.db
unfolding revoke_at_ccp
revoke_at_ccp-rows [] w = refl
revoke_at_ccp-rows (t ∷ ts) w =
    revoke_at_ccp-rows ts (record w { revoked_at_ccp = t ∷ w.revoked_at_ccp })

pub revoke_at_ccp-clock : (ts : List String) (w : World) → (revoke_at_ccp ts w).1.now ≡ w.now
unfolding revoke_at_ccp
revoke_at_ccp-clock [] w = refl
revoke_at_ccp-clock (t ∷ ts) w =
    revoke_at_ccp-clock ts (record w { revoked_at_ccp = t ∷ w.revoked_at_ccp })
