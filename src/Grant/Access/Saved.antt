-- ===== src/Grant/Access/Saved.antt =====
-- internal/usecase/session/grant.go, `eveAccess`: the refresh token that CCP has given out last is
-- the one in the session's row.
use eve_online_mcp.Prelude.{
  ℕ, suc, ◌+◌, ◌≡◌, refl, ap, sym, ◌∙◌, subst, String, true, false, Option, List, [], ◌∷◌, map,
  arith, Bool-cases, inl, inr, All, ◌==◌,
}
use eve_online_mcp.Domain.{Error, CharacterToken, SessionRow, session_not_found}
use eve_online_mcp.Store.{World, Result, ok, err, M, sql, or_raise, ◌>>=◌}
use eve_online_mcp.Store.Runs.{sql-ok, resume-ok, within_tx-ok}
use eve_online_mcp.Repo.Mutations.{null_if_empty}
use eve_online_mcp.Repo.Sessions.{
  deref, live_by_id_sql, reread_sql, write_refresh, write_refresh_sql, refresh_locked,
  lock_for_refresh, live_by_id,
}
use eve_online_mcp.Grant.Access.{
  live, has_live, has_moved, expect, expected, keep, ask, refresh_row, is_invalid_grant, conclude,
  locked_access, eve_access,
}

-- Every row of the session, and there is at most one, holds this token.
abbrev pub Holds : ℕ → String → List SessionRow → Type 0
Holds session token = All (λ s. (s.id == session) ≡ true → s.refresh_token ≡ null_if_empty token)

write_refresh-Holds :
    (session : ℕ) (token : String) (rows : List SessionRow)
    → Holds session token (map (write_refresh session token) rows)
unfolding write_refresh
write_refresh-Holds session token [] = tt
write_refresh-Holds session token (s ∷ rows) =
    ((λ h. ground (arith, h)), write_refresh-Holds session token rows)

-- The steps of `LockForRefresh` after the row is locked, read again, and judged.
abbrev written : ℕ → String → M (Unit {0})
written id next = sql (write_refresh_sql id next)

abbrev with_current : ℕ → (String → M String) → SessionRow → M (Unit {0})
with_current id fn current = fn (deref current.refresh_token) >>= written id

abbrev with_row : ℕ → (String → M String) → Option SessionRow → M (Unit {0})
with_row id fn row = or_raise row Error.driver >>= with_current id fn

abbrev with_held : ℕ → (String → M String) → SessionRow → M (Unit {0})
with_held id fn held = sql (reread_sql id) >>= with_row id fn

abbrev with_locked : ℕ → (String → M String) → Option SessionRow → M (Unit {0})
with_locked id fn locked = or_raise locked session_not_found >>= with_held id fn

-- What a function that keeps its answer in memory leaves in the row.
refresh_locked-ok :
    (id : ℕ) (fn : String → M String) (a : Unit {0}) (w w' : World)
    → ((row next : String) (u v : World) → fn row u ≡ (ok next, v) → next ≡ v.grant.refresh)
    → refresh_locked id fn w ≡ (ok a, w')
    → Holds id w'.grant.refresh w'.db.sessions
unfolding refresh_locked write_refresh_sql
refresh_locked-ok id fn a w w' kept h =
    let (locked, w1, (e1, r1)) = resume-ok (sql (live_by_id_sql id) w) (with_locked id fn) a w' h in
    let (held, w2, (e2, r2)) =
      resume-ok (or_raise locked session_not_found w1) (with_held id fn) a w' r1 in
    let (row, w3, (e3, r3)) = resume-ok (sql (reread_sql id) w2) (with_row id fn) a w' r2 in
    let (current, w4, (e4, r4)) =
      resume-ok (or_raise row Error.driver w3) (with_current id fn) a w' r3 in
    let (next, w5, (e5, r5)) =
      resume-ok (fn (deref current.refresh_token) w4) (written id) a w' r4 in
    let ran = sql-ok (write_refresh_sql id next) a w5 w' r5 in
    let same : next ≡ w'.grant.refresh =
      kept (deref current.refresh_token) next w4 w5 e5
      ∙ ap (λ g. g.refresh) (sym ran.context.memory) in
    let rows : w'.db.sessions ≡ map (write_refresh id next) w5.db.sessions =
      ground (arith, ran.rows) in
    subst (Holds id w'.grant.refresh) (sym rows) (
      subst (λ t. Holds id t (map (write_refresh id next) w5.db.sessions)) same
        (write_refresh-Holds id next w5.db.sessions))

expect-world : (r : Result SessionRow × World) → (expect r).1 ≡ r.1
unfolding expect
expect-world (ok row, w) = refl
expect-world (err e, w) = refl

live_by_id-tx : (session : ℕ) (w : World) → (live_by_id session w).1.in_tx ≡ w.in_tx
unfolding live_by_id live_by_id_sql sql
live_by_id-tx session w = ground arith

expected-tx : (session : ℕ) (w : World) → (expected session w).1.in_tx ≡ w.in_tx
unfolding expected
expected-tx session w = ground (
  arith,
  ap (λ (x : World). x.in_tx) (expect-world (live_by_id session w)),
  live_by_id-tx session w,
)

-- What a call that answered has behind it: with a live token in memory, that token and no change;
-- without one, the token that memory holds now, and its refresh token in the row.
abbrev pub Kept : ℕ → String → World → World → Type 0
Kept session a w w' =
    (has_live w ≡ true → (w' ≡ w) × (a ≡ live w.now w.grant))
    × (has_live w ≡ false → (a ≡ w'.grant.access) × Holds session w'.grant.refresh w'.db.sessions)

module _ (sso : ℕ → String → Result CharacterToken) where
  keep-kept :
      (r : Result CharacterToken) (next : String) (w v : World)
      → keep sso r w ≡ (ok next, v)
      → next ≡ v.grant.refresh
  unfolding keep
  keep-kept (ok tok) next w v h = ground arith
  keep-kept (err e) next w v h = ground arith

  refresh_row-kept :
      (want row next : String) (w v : World)
      → refresh_row sso want row w ≡ (ok next, v)
      → next ≡ v.grant.refresh
  unfolding refresh_row ask
  refresh_row-kept want row next w v h =
      let adopted : World = record w { grant = record w.grant { refresh = row } } in
      let asked = λ (u : World).
        keep-kept (sso u.tokens_asked row) next (record u { tokens_asked = u.tokens_asked + 1 })
          v in
      elim (Bool-cases (has_moved want row)) [
        | inr unmoved ↦ asked w (rw unmoved at h)
        | inl moved ↦ elim (Bool-cases (has_live adopted)) [
          | inr stale ↦ asked adopted (rw (moved, stale) at h)
          | inl lives ↦ ground (arith, h, moved, lives)
        ]
      ]

  conclude-ok :
      (session : ℕ) (r : Result (Unit {0})) (a : String) (w w' : World)
      → conclude sso session r w ≡ (ok a, w')
      → (r ≡ ok tt) × ((w ≡ w') × (a ≡ w'.grant.access))
  unfolding conclude
  conclude-ok session (ok tt) a w w' h = (refl, (ground arith, ground arith))
  conclude-ok session (err e) a w w' h = elim (Bool-cases (is_invalid_grant e)) [
    | inl gone ↦ ground (arith, h, gone)
    | inr other ↦ ground (arith, h, other)
  ]

  locked_access-ok :
      (session : ℕ) (want a : String) (w w' : World)
      → w.in_tx ≡ false
      → locked_access sso session want w ≡ (ok a, w')
      → (a ≡ w'.grant.access) × Holds session w'.grant.refresh w'.db.sessions
  unfolding locked_access lock_for_refresh
  locked_access-ok session want a w w' outside h =
      let r = lock_for_refresh session (refresh_row sso want) w in
      let (done, (same, token)) = conclude-ok session r.0 a r.1 w' h in
      let (v, (run, (db, memory))) =
        within_tx-ok (refresh_locked session (refresh_row sso want)) tt w r.1 outside
          (ap (λ q. (q, r.1)) done) in
      let held =
        refresh_locked-ok session (refresh_row sso want) tt
          (record w { calls = suc w.calls; in_tx = true }) v
          (λ row next u z. refresh_row-kept want row next u z) run in
      let path = sym memory ∙ ap (λ (x : World). x.grant) same in
      (
        token,
        subst (λ d. Holds session w'.grant.refresh d.sessions)
            (sym db ∙ ap (λ (x : World). x.db) same)
            (subst (λ g. Holds session g.refresh v.db.sessions) path held),
      )

  -- Outside a transaction, `eveAccess` answers the access token of its memory and changes nothing
  -- while that token lasts; where it does not and a token is answered, it is the access token of
  -- the memory afterwards, and the session's row holds the refresh token of that memory.
  pub eve_access-Kept :
      (session : ℕ) (a : String) (w w' : World)
      → w.in_tx ≡ false
      → eve_access sso session w ≡ (ok a, w')
      → Kept session a w w'
  unfolding eve_access
  eve_access-Kept session a w w' outside h = (
    (λ lives. (ground (arith, h, lives), ground (arith, h, lives))),
    (λ stale.
        let (want, v, (e, r)) =
          resume-ok (expected session w) (locked_access sso session) a w' (rw stale at h) in
        locked_access-ok session want a v w'
          (ap (λ q. q.1.in_tx) (sym e) ∙ expected-tx session w ∙ outside) r),
  )
