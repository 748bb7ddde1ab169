-- ===== src/Sweep/Tokens.antt =====
-- internal/usecase/sweep/rules.go: a refresh token that a round takes off the tables has been sent to
-- CCP to be revoked, whichever exchanges with the database fail.
pub mod Grants
pub mod Rounds
use eve_online_mcp.Prelude.{
  ℕ, suc, ◌≡◌, ◌≢◌, refl, sym, ap, ◌∙◌, subst, arith, String, Bool, true, false, not, ◌&&◌, ◌||◌,
  ◌⊎◌, inl, inr, Option, none, some, List, [], ◌∷◌, map, any, filter, take, sort_by, remove_if,
  contains, str_eq, str_eq_refl, ◌==◌, ltb, if◌then◌else◌, Bool-cases, In, Keyed, In-any, In-filter,
  In-remove_if, In-take, In-sort_by, In-map,
}
use eve_online_mcp.Domain.{Code, SessionRow, Swept, Revoked}
use eve_online_mcp.Store.{Db, World, Result, ok, err, sql, settle, revoke_at_ccp}
use eve_online_mcp.Store.Laws.{revoke_at_ccp-rows}
use eve_online_mcp.Repo.Logins
use eve_online_mcp.Repo.Codes
use eve_online_mcp.Repo.Confirms
use eve_online_mcp.Repo.Sessions
use eve_online_mcp.Repo.Sessions.{is_unrevoked, deref, close_row, revoke_ceiling}
use eve_online_mcp.Repo.Mutations
use eve_online_mcp.Repo.Clients
use eve_online_mcp.Sweep.{
  expire_login_states, expire_confirm_tokens, purge_mutations, purge_clients,
}

-- The token is on a parked grant, on an open session, or among those sent to CCP.
abbrev pub Parked : String → Db → Type 0
Parked t d = (c : Code) × (In c d.codes × (c.refresh_token ≡ t))

abbrev pub Signed : String → Db → Type 0
Signed t d =
    (s : SessionRow) × (In s d.sessions × ((is_unrevoked s ≡ true) × (deref s.refresh_token ≡ t)))

abbrev pub Held : String → World → Type 0
Held t w = (Parked t w.db ⊎ Signed t w.db) ⊎ (contains w.revoked_at_ccp t ≡ true)

-- The token is on no row that this one loses, and the log of revocations keeps what it has.
pub record Spared (w v : World) : Type 0 where
  pub codes : v.db.codes ≡ w.db.codes
  pub sessions : v.db.sessions ≡ w.db.sessions
  pub log : v.revoked_at_ccp ≡ w.revoked_at_ccp

pub Spared-Held : (t : String) (w v : World) → Spared w v → Held t w → Held t v
Spared-Held t w v p (inl (inl (c, (i, e)))) = inl (inl (c, (subst (In c) (sym p.codes) i, e)))
Spared-Held t w v p (inl (inr (s, (i, e)))) = inl (inr (s, (subst (In s) (sym p.sessions) i, e)))
Spared-Held t w v p (inr h) = inr (ap (λ l. contains l t) p.log ∙ h)

pub expire_login_states-Spared : (w : World) → Spared w (expire_login_states w).1
unfolding expire_login_states Logins.delete_expired Logins.delete_expired_sql sql
expire_login_states-Spared w = record {
  codes = ground arith;
  sessions = ground arith;
  log = ground arith;
}

pub expire_confirm_tokens-Spared : (w : World) → Spared w (expire_confirm_tokens w).1
unfolding expire_confirm_tokens Confirms.delete_expired Confirms.delete_expired_sql sql
expire_confirm_tokens-Spared w = record {
  codes = ground arith;
  sessions = ground arith;
  log = ground arith;
}

pub purge_mutations-Spared : (w : World) → Spared w (purge_mutations w).1
unfolding purge_mutations Mutations.delete_old Mutations.delete_old_sql sql
purge_mutations-Spared w = record {
  codes = ground arith;
  sessions = ground arith;
  log = ground arith;
}

pub purge_clients-Spared : (w : World) → Spared w (purge_clients w).1
unfolding purge_clients Clients.soft_delete_abandoned Clients.soft_delete_abandoned_sql
    Clients.delete_long_soft_deleted Clients.delete_long_soft_deleted_sql sql
purge_clients-Spared w = record {
  codes = ground arith;
  sessions = ground arith;
  log = ground arith;
}

-- What was sent to CCP stays in the log, and every token of a list gets there.
pub revoke_at_ccp-keeps :
    (ts : List String) (t : String) (w : World)
    → contains w.revoked_at_ccp t ≡ true
    → contains (revoke_at_ccp ts w).1.revoked_at_ccp t ≡ true
unfolding revoke_at_ccp contains
revoke_at_ccp-keeps [] t w h = h
revoke_at_ccp-keeps (x ∷ ts) t w h =
    revoke_at_ccp-keeps ts t (record w { revoked_at_ccp = x ∷ w.revoked_at_ccp })
      (ground (arith, h))

pub revoke_at_ccp-sends :
    (ts : List String) (t : String) (w : World)
    → contains ts t ≡ true
    → contains (revoke_at_ccp ts w).1.revoked_at_ccp t ≡ true
unfolding revoke_at_ccp contains
revoke_at_ccp-sends [] t w h = ground (arith, h)
revoke_at_ccp-sends (x ∷ ts) t w h =
    let v : World = record w { revoked_at_ccp = x ∷ w.revoked_at_ccp } in
    elim (Bool-cases (str_eq x t)) [
      | inl same ↦ revoke_at_ccp-keeps ts t v (ground (arith, same))
      | inr other ↦ revoke_at_ccp-sends ts t v (ground (arith, h, other))
    ]

abbrev pub same_code : Code → Code → Bool
same_code a b = str_eq a.value b.value

abbrev pub same_session : SessionRow → SessionRow → Bool
same_session a b = a.id == b.id

-- A row that is taken off by its key is one of those that were selected.
pub doomed-In :
    {A : Type 0} (same : A → A → Bool) (key : A → ℕ) (q : A → Bool) (a : A) (rows : List A)
    → Keyed same rows
    → In a rows
    → any (λ e. same e a) (take revoke_ceiling (sort_by key (filter q rows))) ≡ true
    → In a (take revoke_ceiling (sort_by key (filter q rows)))
doomed-In same key q a rows keyed i h =
    let doomed = take revoke_ceiling (sort_by key (filter q rows)) in
    let (e, (j, like)) = In-any (λ e. same e a) doomed h in
    let from = In-filter q e rows (
      In-sort_by key e (filter q rows)
        (In-take revoke_ceiling e (sort_by key (filter q rows)) j)) in
    subst (λ x. In x doomed) (keyed e a from i like) j

pub after_revoke-Held :
    (t : String) (ts : List String) (w : World) → Held t w → Held t (revoke_at_ccp ts w).1
after_revoke-Held t ts w (inl (inl (c, (i, e)))) =
    inl (inl (c, (subst (λ d. In c d.codes) (sym (revoke_at_ccp-rows ts w)) i, e)))
after_revoke-Held t ts w (inl (inr (s, (i, e)))) =
    inl (inr (s, (subst (λ d. In s d.sessions) (sym (revoke_at_ccp-rows ts w)) i, e)))
after_revoke-Held t ts w (inr h) = inr (revoke_at_ccp-keeps ts t w h)
