-- ===== src/Oauth/Callback/Parked.antt =====
-- internal/usecase/oauth/callback.go: what stands behind a callback that sends the player back with
-- a code.
use eve_online_mcp.Prelude.{
  ◌≡◌, refl, ap, sym, ◌∙◌, String, Bool, true, false, Option, none, some, List, [], ◌∷◌, arith,
  Bool-cases, inl, inr, find?, count, remove_if, str_eq, contains, ◌==◌,
}
use eve_online_mcp.Domain.{Login, CharacterToken, Character}
use eve_online_mcp.Store.{World, Result, ok, err}
use eve_online_mcp.Repo.Logins
use eve_online_mcp.Repo.Logins.{has_state, is_expired}
use eve_online_mcp.Repo.Codes
use eve_online_mcp.Repo.Codes.{has_value}
use eve_online_mcp.Repo.Characters
use eve_online_mcp.Repo.Sessions.{is_open_for}
use eve_online_mcp.Write.Policy.{missing_scopes, requested_scopes}
use eve_online_mcp.Write.Policy.Scopes.{missing_scopes-nil_iff}
use eve_online_mcp.Oauth.Callback.{
  Location, Failure, authorized, character_of, code_of, location_of, revoke_on_owner_hash_change,
  parked, upserted, owner_checked, finish_mcp, exchanged_token, login_taken, complete_callback,
}
use eve_online_mcp.Oauth.Callback.Steps.{take-ok, upsert-ok, put-ok, owner_known-none, Cleared}

-- The login that the state names, what CCP answered for it, and the rows that came of them.
pub record Parked (exchange : String → String → Result CharacterToken) (fresh code state : String)
    (loc : Location) (w w' : World) : Type 0 where
  pub login : Login
  pub stood : find? (has_state state) w.db.logins ≡ some login
  pub in_time : is_expired w.now login ≡ false
  pub token : CharacterToken
  pub answered : exchange code login.pkce_verifier ≡ ok token
  pub granted : (s : String) → contains requested_scopes s ≡ true → contains token.scopes s ≡ true
  pub location : loc ≡ location_of login fresh
  pub codes : w'.db.codes ≡ code_of login token fresh w.now ∷ w.db.codes
  pub logins : w'.db.logins ≡ remove_if (has_state state) w.db.logins
  pub former :
      (c : Character)
      → find? (λ x. x.id == token.character_id) w.db.characters ≡ some c
      → str_eq c.owner_hash token.owner_hash ≡ false
      → count (is_open_for token.character_id) w'.db.sessions ≡ 0

module _ (exchange : String → String → Result CharacterToken) (parses : String → Bool)
    (fresh : String) where
  -- The rows that `finish_mcp` leaves, and where it sends the player.
  record Finished (p : Login) (token : CharacterToken) (loc : Location) (w w' : World)
      : Type 0 where
    location : loc ≡ location_of p fresh
    codes : w'.db.codes ≡ code_of p token fresh w.now ∷ w.db.codes
    logins : w'.db.logins ≡ w.db.logins
    sessions : w'.db.sessions ≡ w.db.sessions

  parked-authorized :
      (p : Login) (token : CharacterToken) (loc : Location) (r : Result (Unit {0}) × World)
      (w w' : World)
      → Codes.put (code_of p token fresh w.now) w ≡ r
      → parked exchange parses fresh p r ≡ (authorized loc, w')
      → Finished p token loc w w'
  unfolding parked
  parked-authorized p token loc (ok a, v) w w' e h =
      let (codes, (logins, sessions)) = put-ok (code_of p token fresh w.now) a w v e in
      elim (Bool-cases (parses p.redirect_uri)) [
        | inl good ↦
            let end : v ≡ w' = ground (arith, h, good) in
            record {
              location = ground (arith, h, good);
              codes = ap (λ (x : World). x.db.codes) (sym end) ∙ codes;
              logins = ap (λ (x : World). x.db.logins) (sym end) ∙ logins;
              sessions = ap (λ (x : World). x.db.sessions) (sym end) ∙ sessions;
            }
        | inr bad ↦ ground (arith, h, bad)
      ]
  parked-authorized p token loc (err x, v) w w' e h = ground (arith, h)

  upserted-authorized :
      (p : Login) (token : CharacterToken) (loc : Location) (r : Result (Unit {0}) × World)
      (w w' : World)
      → Characters.upsert (character_of token) w ≡ r
      → upserted exchange parses fresh p token r ≡ (authorized loc, w')
      → Finished p token loc w w'
  unfolding upserted
  upserted-authorized p token loc (ok a, v) w w' e h =
      let (aside, sessions) = upsert-ok (character_of token) a w v e in
      let q =
        parked-authorized p token loc (Codes.put (code_of p token fresh v.now) v) v w' refl h in
      record {
        location = q.location;
        codes =
            q.codes
            ∙ ap (λ c. code_of p token fresh v.now ∷ c) aside.codes
            ∙ ap (λ t. code_of p token fresh t ∷ w.db.codes) aside.clock;
        logins = q.logins ∙ aside.logins;
        sessions = q.sessions ∙ sessions;
      }
  upserted-authorized p token loc (err x, v) w w' e h = ground (arith, h)

  owner_checked-authorized :
      (p : Login) (token : CharacterToken) (loc : Location) (r : Option Failure × World)
      (w w' : World)
      → revoke_on_owner_hash_change token w ≡ r
      → owner_checked exchange parses fresh p token r ≡ (authorized loc, w')
      → (v : World) × (Cleared token w v × Finished p token loc v w')
  unfolding owner_checked revoke_on_owner_hash_change
  owner_checked-authorized p token loc (none, v) w w' e h = (
    v,
    (
      owner_known-none token (Characters.get token.character_id w) w v refl e,
      upserted-authorized p token loc (Characters.upsert (character_of token) v) v w' refl h,
    ),
  )
  owner_checked-authorized p token loc (some f, v) w w' e h = ground (arith, h)

  finish_mcp-authorized :
      (p : Login) (token : CharacterToken) (loc : Location) (missing : List String) (w w' : World)
      → finish_mcp exchange parses fresh p token missing w ≡ (authorized loc, w')
      → (missing ≡ []) × ((v : World) × (Cleared token w v × Finished p token loc v w'))
  unfolding finish_mcp
  finish_mcp-authorized p token loc [] w w' h =
      (refl, owner_checked-authorized p token loc (revoke_on_owner_hash_change token w) w w' refl h)
  finish_mcp-authorized p token loc (s ∷ missing) w w' h = ground (arith, h)

  exchanged_token-authorized :
      (code : String) (p : Login) (loc : Location) (r : Result CharacterToken) (w w' : World)
      → exchange code p.pkce_verifier ≡ r
      → exchanged_token exchange parses fresh p r w ≡ (authorized loc, w')
      → (token : CharacterToken) × ((exchange code p.pkce_verifier ≡ ok token)
          × ((missing_scopes token.scopes ≡ [])
              × ((v : World) × (Cleared token w v × Finished p token loc v w'))))
  unfolding exchanged_token
  exchanged_token-authorized code p loc (ok token) w w' e h =
      (token, (e, finish_mcp-authorized p token loc (missing_scopes token.scopes) w w' h))
  exchanged_token-authorized code p loc (err x) w w' e h = ground (arith, h)

  login_taken-authorized :
      (code state : String) (loc : Location) (r : Result Login × World) (w w' : World)
      → Logins.take state w ≡ r
      → login_taken exchange parses fresh code r ≡ (authorized loc, w')
      → Parked exchange fresh code state loc w w'
  unfolding login_taken
  login_taken-authorized code state loc (ok p, u) w w' e h =
      let took = take-ok state p w u e in
      let (token, (answered, (complete, (v, (cleared, done))))) =
        exchanged_token-authorized code p loc (exchange code p.pkce_verifier) u w' refl h in
      record {
        login = p;
        stood = took.stood;
        in_time = took.in_time;
        token = token;
        answered = answered;
        granted = (missing_scopes-nil_iff token.scopes).0 complete;
        location = done.location;
        codes =
            done.codes
            ∙ ap (λ c. code_of p token fresh v.now ∷ c)
                (cleared.aside.codes ∙ ap (λ d. d.codes) took.rows)
            ∙ ap (λ t. code_of p token fresh t ∷ w.db.codes) (cleared.aside.clock ∙ took.clock);
        logins = done.logins ∙ cleared.aside.logins ∙ ap (λ d. d.logins) took.rows;
        former = λ c found differs.
            ap (count (is_open_for token.character_id)) done.sessions
            ∙ cleared.former c
                (ap (λ d. find? (λ x. x.id == token.character_id) d.characters) took.rows ∙ found)
                differs;
      }
  login_taken-authorized code state loc (err x, u) w w' e h = ground (arith, h)

  -- A callback sends the player back with a code only for a login that stood in the table in time,
  -- and whose code and verifier CCP took for a token with every requested scope. The login is then out
  -- of the table, the code stands in it with the challenge of the login's client, and if the
  -- character had another owner before, it has no open session left.
  pub complete_callback-Parked :
      (code state : String) (loc : Location) (w w' : World)
      → complete_callback exchange parses fresh code state w ≡ (authorized loc, w')
      → Parked exchange fresh code state loc w w'
  unfolding complete_callback
  complete_callback-Parked code state loc w w' h =
      login_taken-authorized code state loc (Logins.take state w) w w' refl h
