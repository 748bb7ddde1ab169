-- ===== src/Oauth/Callback/Kept.antt =====
-- internal/usecase/oauth/callback.go and the repositories it calls: what they leave of the logins.
use eve_online_mcp.Prelude.{
  ℕ, ◌≡◌, refl, sym, ap, ◌∙◌, subst, arith, String, Bool, true, false, not, Option, none, some,
  List, [], ◌∷◌, Bool-cases, inl, inr, All, All-filter, find?, if◌then◌else◌, str_eq, filter, ◌==◌,
}
use eve_online_mcp.Write.Policy.{missing_scopes}
use eve_online_mcp.Domain.{Client, Code, Login, CharacterToken, Character, Revoked}
use eve_online_mcp.Store.{World, Result, ok, err, sql}
use eve_online_mcp.Store.Laws.{revoke_at_ccp-rows}
use eve_online_mcp.Repo.Logins
use eve_online_mcp.Repo.Clients
use eve_online_mcp.Repo.Codes
use eve_online_mcp.Repo.Characters
use eve_online_mcp.Repo.Sessions
use eve_online_mcp.Oauth.Callback
use eve_online_mcp.Oauth.Callback.{
  Location, Failure, Callback, authorized, refused, complete_callback, code_of,
}

put-logins : (c : Code) (w : World) → (Codes.put c w).1.db.logins ≡ w.db.logins
unfolding Codes.put Codes.put_sql sql
put-logins c w = ground arith

upsert-logins : (c : Character) (w : World) → (Characters.upsert c w).1.db.logins ≡ w.db.logins
unfolding Characters.upsert Characters.upsert_sql sql
upsert-logins c w = ground arith

get-logins : (id : ℕ) (w : World) → (Characters.get id w).1.db.logins ≡ w.db.logins
unfolding Characters.get Characters.get_sql sql
get-logins id w = ground arith

revoke-logins :
    (id : ℕ) (w : World) → (Sessions.revoke_all_for_character id w).1.db.logins ≡ w.db.logins
unfolding Sessions.revoke_all_for_character Sessions.revoke_all_sql Sessions.revoke_rows sql
revoke-logins id w = ground arith

evicted-logins : (r : Result Revoked × World) → (Callback.evicted r).1.db.logins ≡ r.1.db.logins
unfolding Callback.evicted
evicted-logins (ok revoked, w) = ap (λ d. d.logins) (revoke_at_ccp-rows revoked.tokens w)
evicted-logins (err e, w) = refl

owner_known-logins :
    (token : CharacterToken) (r : Result Character × World)
    → (Callback.owner_known token r).1.db.logins ≡ r.1.db.logins
unfolding Callback.owner_known
owner_known-logins token (ok existing, w) =
    elim (Bool-cases (str_eq existing.owner_hash token.owner_hash)) [
      | inl same ↦ rw same refl
      | inr sold ↦ rw sold (
          evicted-logins (Sessions.revoke_all_for_character token.character_id w)
          ∙ revoke-logins token.character_id w)
    ]
owner_known-logins token (err e, w) = ground arith

module _ (exchange : String → String → Result CharacterToken) (parses : String → Bool)
    (fresh : String) where
  parked-logins :
      (p : Login) (r : Result (Unit {0}) × World)
      → (Callback.parked exchange parses fresh p r).1.db.logins ≡ r.1.db.logins
  unfolding Callback.parked
  parked-logins p (ok _, w) = ground arith
  parked-logins p (err e, w) = refl

  upserted-logins :
      (p : Login) (token : CharacterToken) (r : Result (Unit {0}) × World)
      → (Callback.upserted exchange parses fresh p token r).1.db.logins ≡ r.1.db.logins
  unfolding Callback.upserted
  upserted-logins p token (ok _, w) =
      parked-logins p (Codes.put (code_of p token fresh w.now) w)
      ∙ put-logins (code_of p token fresh w.now) w
  upserted-logins p token (err e, w) = refl

  owner_checked-logins :
      (p : Login) (token : CharacterToken) (r : Option Failure × World)
      → (Callback.owner_checked exchange parses fresh p token r).1.db.logins ≡ r.1.db.logins
  unfolding Callback.owner_checked
  owner_checked-logins p token (none, w) =
      upserted-logins p token (Characters.upsert (Callback.character_of token) w)
      ∙ upsert-logins (Callback.character_of token) w
  owner_checked-logins p token (some f, w) = refl

  finish_mcp-logins :
      (p : Login) (token : CharacterToken) (missing : List String) (w : World)
      → (Callback.finish_mcp exchange parses fresh p token missing w).1.db.logins ≡ w.db.logins
  unfolding Callback.finish_mcp Callback.revoke_on_owner_hash_change
  finish_mcp-logins p token [] w =
      owner_checked-logins p token (Callback.revoke_on_owner_hash_change token w)
      ∙ owner_known-logins token (Characters.get token.character_id w)
      ∙ get-logins token.character_id w
  finish_mcp-logins p token (s ∷ missing) w = refl

  exchanged_token-logins :
      (p : Login) (r : Result CharacterToken) (w : World)
      → (Callback.exchanged_token exchange parses fresh p r w).1.db.logins ≡ w.db.logins
  unfolding Callback.exchanged_token
  exchanged_token-logins p (ok token) w = finish_mcp-logins p token (missing_scopes token.scopes) w
  exchanged_token-logins p (err e) w = refl

  pub login_taken-logins :
      (code : String) (r : Result Login × World)
      → (Callback.login_taken exchange parses fresh code r).1.db.logins ≡ r.1.db.logins
  unfolding Callback.login_taken
  login_taken-logins code (ok p, w) = exchanged_token-logins p (exchange code p.pkce_verifier) w
  login_taken-logins code (err e, w) = refl

pub take-All :
    (P : Login → Type 0) (state : String) (w : World)
    → All P w.db.logins
    → All P (Logins.take state w).1.db.logins
unfolding Logins.take Logins.take_sql Logins.check_unexpired sql
take-All P state w h = elim (Bool-cases (w.fault w.calls)) [
  | inl fails ↦ rw fails h
  | inr runs ↦
      let kept = All-filter P (λ l. not (Logins.has_state state l)) w.db.logins h in
      let same : (Logins.take state w).1.db.logins
          ≡ filter (λ l. not (Logins.has_state state l)) w.db.logins =
        ground (arith, runs) in
      subst (All P) (sym same) kept
]

put_sql-All :
    (P : Login → Type 0) (l : Login) (w : World)
    → P l
    → All P w.db.logins
    → All P (sql (Logins.put_sql l) w).1.db.logins
unfolding Logins.put_sql sql
put_sql-All P l w this h = elim (Bool-cases (w.fault w.calls)) [
  | inl fails ↦ rw fails h
  | inr runs ↦ rw runs (this, All-filter P (λ x. not (Logins.has_state l.state x)) w.db.logins h)
]

either-holds : (P : Login → Type 0) (b : Bool) (x y : Login) → P x → P y → P (if b then x else y)
either-holds P true x y p q = p
either-holds P false x y p q = q

pub put-All :
    (P : Login → Type 0) (l : Login) (w : World)
    → ((t : ℕ) → P (record l { created_at = t }))
    → All P w.db.logins
    → All P (Logins.put l w).1.db.logins
unfolding Logins.put
put-All P l w this h =
    put_sql-All P (if l.created_at == 0 then record l { created_at = w.now } else l) w
      (either-holds P (l.created_at == 0) (record l { created_at = w.now }) l (this w.now)
        (this l.created_at))
      h

pub All-find? :
    (P : Login → Type 0) (p : Login → Bool) (l : Login) (rows : List Login)
    → All P rows
    → find? p rows ≡ some l
    → P l
All-find? P p l [] h e = ground (arith, e)
All-find? P p l (x ∷ rows) h e = elim (Bool-cases (p x)) [
  | inl here ↦ subst P (ap (λ o. elim o [ none ↦ l | some y ↦ y ]) (rw here at e)) h.0
  | inr later ↦ All-find? P p l rows h.1 (rw later at e)
]

pub clients-logins : (id : String) (w : World) → (Clients.get id w).1.db.logins ≡ w.db.logins
unfolding Clients.get Clients.get_sql sql
clients-logins id w = ground arith

pub upsert_client-logins : (c : Client) (w : World) → (Clients.upsert c w).1.db.logins ≡ w.db.logins
unfolding Clients.upsert Clients.upsert_sql sql
upsert_client-logins c w = ground arith
