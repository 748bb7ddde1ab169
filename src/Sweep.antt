-- ===== src/Sweep.antt =====
-- internal/usecase/sweep: what is past its time is taken off the tables, every five minutes, by one
-- process at a time. A round is `once`; the ticker that starts it is left out.
pub mod Tokens
use eve_online_mcp.Prelude.{ℕ, Bool, true, false, Option, none, some, List, [], ◌∷◌, length}
use eve_online_mcp.Domain.{Error, Swept, Revoked}
use eve_online_mcp.Store.{World, Result, ok, err, M, revoke_at_ccp}
use eve_online_mcp.Repo.Logins
use eve_online_mcp.Repo.Codes
use eve_online_mcp.Repo.Confirms
use eve_online_mcp.Repo.Sessions
use eve_online_mcp.Repo.Mutations
use eve_online_mcp.Repo.Clients

-- The lines of a rule that counts: an error is logged and counts for none.
abbrev pub counted : Result ℕ × World → ℕ × World
counted (ok n, w) = (n, w)
counted (err e, w) = (0, w)

unfoldable pub expire_login_states : World → ℕ × World
expire_login_states w = counted (Logins.delete_expired w)

-- The grants of the codes that were taken off are revoked at CCP.
unfoldable pub revoked_codes : Result Swept × World → ℕ × World
revoked_codes (ok swept, w) = (swept.count, (revoke_at_ccp swept.tokens w).1)
revoked_codes (err e, w) = (0, w)

unfoldable pub expire_auth_codes : World → ℕ × World
unfolding revoked_codes
expire_auth_codes w = revoked_codes (Codes.sweep_expired w)

unfoldable pub expire_confirm_tokens : World → ℕ × World
expire_confirm_tokens w = counted (Confirms.delete_expired w)

unfoldable pub revoked_sessions : Result Revoked × World → ℕ × World
revoked_sessions (ok revoked, w) = (length revoked.ids, (revoke_at_ccp revoked.tokens w).1)
revoked_sessions (err e, w) = (0, w)

unfoldable pub expire_sessions : World → ℕ × World
unfolding revoked_sessions
expire_sessions w = revoked_sessions (Sessions.expire_valid_til w)

unfoldable pub purge_sessions : World → ℕ × World
purge_sessions w = counted (Sessions.purge_revoked w)

unfoldable pub purge_mutations : World → ℕ × World
purge_mutations w = counted (Mutations.delete_old w)

pub record ClientPurge : Type 0 where
  pub soft : ℕ
  pub hard : ℕ

unfoldable pub purge_clients : World → ClientPurge × World
purge_clients w =
    let (soft, v) = counted (Clients.soft_delete_abandoned w) in
    let (hard, u) = counted (Clients.delete_long_soft_deleted v) in
    (record { soft = soft; hard = hard }, u)

pub record Counts : Type 0 where
  pub login_states : ℕ
  pub auth_codes : ℕ
  pub confirm_tokens : ℕ
  pub sessions_expired : ℕ
  pub sessions_purged : ℕ
  pub mutations : ℕ
  pub clients_soft : ℕ
  pub clients_hard : ℕ

-- What runs under the lock.
unfoldable pub sweep_all : World → Counts × World
unfolding expire_login_states expire_auth_codes expire_confirm_tokens expire_sessions purge_sessions
    purge_mutations purge_clients
sweep_all w =
    let (logins, w1) = expire_login_states w in
    let (codes, w2) = expire_auth_codes w1 in
    let (confirms, w3) = expire_confirm_tokens w2 in
    let (expired, w4) = expire_sessions w3 in
    let (purged, w5) = purge_sessions w4 in
    let (mutations, w6) = purge_mutations w5 in
    let (clients, w7) = purge_clients w6 in
    (
      record {
        login_states = logins;
        auth_codes = codes;
        confirm_tokens = confirms;
        sessions_expired = expired;
        sessions_purged = purged;
        mutations = mutations;
        clients_soft = clients.soft;
        clients_hard = clients.hard;
      },
      w7,
    )

-- `cancelled` is the context's, `held` what `lock.Try` answers: an error, or whether the lock is had.
unfoldable pub once : Bool → Result Bool → World → Option Counts × World
unfolding sweep_all
once true held w = (none, w)
once false (err e) w = (none, w)
once false (ok false) w = (none, w)
once false (ok true) w = let (c, v) = sweep_all w in (some c, v)
