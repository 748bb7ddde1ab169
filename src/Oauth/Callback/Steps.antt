-- ===== src/Oauth/Callback/Steps.antt =====
-- internal/usecase/oauth/callback.go: what the steps of a callback have run when they answered.
use eve_online_mcp.Prelude.{
  ℕ, ◌≡◌, refl, ap, sym, ◌∙◌, String, true, false, none, some, ◌∷◌, arith, Bool-cases, Option-cases,
  inl, inr, find?, count, remove_if, str_eq, ◌==◌, if◌then◌else◌,
}
use eve_online_mcp.Domain.{Error, Login, CharacterToken, Character, Code, Revoked, login_not_found}
use eve_online_mcp.Store.{World, Result, ok, err, sql, or_raise, ◌>>=◌}
use eve_online_mcp.Store.Laws.{revoke_at_ccp-rows, revoke_at_ccp-clock}
use eve_online_mcp.Store.Runs.{sql-ok, resume-ok, or_raise-ok}
use eve_online_mcp.Repo.Logins
use eve_online_mcp.Repo.Logins.{has_state, is_expired}
use eve_online_mcp.Repo.Codes
use eve_online_mcp.Repo.Codes.{has_value}
use eve_online_mcp.Repo.Characters
use eve_online_mcp.Repo.Reads.{get-ok}
use eve_online_mcp.Repo.Sessions.{is_open_for, revoke_all_for_character}
use eve_online_mcp.Grant.Redeem.{revoke_all-ok}
use eve_online_mcp.Grant.Spent.{count-close_row}
use eve_online_mcp.Oauth.Callback.{is_no_character, evicted, owner_known}

-- The tables that a step leaves alone, and the clock.
pub record Aside (w v : World) : Type 0 where
  pub codes : v.db.codes ≡ w.db.codes
  pub logins : v.db.logins ≡ w.db.logins
  pub clock : v.now ≡ w.now

Aside-trans : {u v w : World} → Aside u v → Aside v w → Aside u w
Aside-trans p q = record {
  codes = q.codes ∙ p.codes;
  logins = q.logins ∙ p.logins;
  clock = q.clock ∙ p.clock;
}

check_unexpired-ok :
    (l login : Login) (w w' : World)
    → Logins.check_unexpired l w ≡ (ok login, w')
    → (l ≡ login) × ((is_expired w.now l ≡ false) × (w ≡ w'))
unfolding Logins.check_unexpired
check_unexpired-ok l login w w' h = elim (Bool-cases (is_expired w.now l)) [
  | inl late ↦ ground (arith, h, late)
  | inr live ↦ (ground (arith, h, live), (live, ground (arith, h, live)))
]

-- A login that was taken stood in the table, was in time, and is gone.
pub record Took (state : String) (login : Login) (w v : World) : Type 0 where
  pub stood : find? (has_state state) w.db.logins ≡ some login
  pub in_time : is_expired w.now login ≡ false
  pub rows : v.db ≡ record w.db { logins = remove_if (has_state state) w.db.logins }
  pub clock : v.now ≡ w.now

pub take-ok :
    (state : String) (login : Login) (w v : World)
    → Logins.take state w ≡ (ok login, v)
    → Took state login w v
unfolding Logins.take Logins.take_sql
take-ok state login w v h =
    let (row, u, (run, rest)) =
      resume-ok (sql (Logins.take_sql state) w)
        (λ row. or_raise row login_not_found >>= Logins.check_unexpired) login v h in
    let (found, z, (is_some, checked)) =
      resume-ok (or_raise row login_not_found u) Logins.check_unexpired login v rest in
    let ran = sql-ok (Logins.take_sql state) row w u run in
    let (some_found, same) = or_raise-ok row login_not_found found u z is_some in
    let (same_login, (live, end)) = check_unexpired-ok found login z v checked in
    let path = same ∙ end in
    record {
      stood = ground (arith, ran.rows, some_found, same_login);
      in_time =
          ap (λ l. is_expired w.now l) (sym same_login)
          ∙ ap (λ t. is_expired t found)
              (sym (ap (λ (x : World). x.now) (sym same) ∙ ran.context.clock))
          ∙ live;
      rows = ap (λ (x : World). x.db) (sym path) ∙ ground (arith, ran.rows);
      clock = ap (λ (x : World). x.now) (sym path) ∙ ran.context.clock;
    }

pub upsert-ok :
    (c : Character) (a : Unit {0}) (w v : World)
    → Characters.upsert c w ≡ (ok a, v)
    → Aside w v × (v.db.sessions ≡ w.db.sessions)
unfolding Characters.upsert Characters.upsert_sql
upsert-ok c a w v h =
    let dated = if c.created_at == 0 then record c { created_at = w.now } else c in
    let ran = sql-ok (Characters.upsert_sql dated) a w v h in
    (
      record {
        codes = ground (arith, ran.rows);
        logins = ground (arith, ran.rows);
        clock = ran.context.clock;
      },
      ground (arith, ran.rows),
    )

pub put-ok :
    (c : Code) (a : Unit {0}) (w v : World)
    → Codes.put c w ≡ (ok a, v)
    → (v.db.codes ≡ c ∷ w.db.codes)
      × ((v.db.logins ≡ w.db.logins) × (v.db.sessions ≡ w.db.sessions))
unfolding Codes.put Codes.put_sql
put-ok c a w v h =
    let ran = sql-ok (Codes.put_sql c) a w v h in
    (ground (arith, ran.rows), (ground (arith, ran.rows), ground (arith, ran.rows)))

-- Whoever owned the character before has no open session left.
abbrev Former : CharacterToken → World → World → Type 0
Former token w v =
    (c : Character)
    → find? (λ x. x.id == token.character_id) w.db.characters ≡ some c
    → str_eq c.owner_hash token.owner_hash ≡ false
    → count (is_open_for token.character_id) v.db.sessions ≡ 0

pub record Cleared (token : CharacterToken) (w v : World) : Type 0 where
  pub aside : Aside w v
  pub former : Former token w v

evicted-none :
    (token : CharacterToken) (r : Result Revoked × World) (w v : World)
    → revoke_all_for_character token.character_id w ≡ r
    → evicted r ≡ (none, v)
    → Cleared token w v
unfolding evicted
evicted-none token (ok revoked, u) w v e h =
    let (rows, context) = revoke_all-ok token.character_id revoked w u e in
    let end = ap (λ q. q.1) (sym h) in
    let same = ap (λ (x : World). x.db) end ∙ revoke_at_ccp-rows revoked.tokens u ∙ rows in
    record {
      aside = record {
        codes = ap (λ d. d.codes) same;
        logins = ap (λ d. d.logins) same;
        clock =
            ap (λ (x : World). x.now) end ∙ revoke_at_ccp-clock revoked.tokens u ∙ context.clock;
      };
      former = λ c found differs.
          ap (λ d. count (is_open_for token.character_id) d.sessions) same
          ∙ count-close_row token.character_id w.now w.db.sessions;
    }
evicted-none token (err x, u) w v e h = ground (arith, h)

get-missing :
    (id : ℕ) (x : Error) (w u : World)
    → Characters.get id w ≡ (err x, u)
    → is_no_character x ≡ true
    → (find? (λ c. c.id == id) w.db.characters ≡ none) × ((u.db ≡ w.db) × (u.now ≡ w.now))
unfolding Characters.get Characters.get_sql sql is_no_character
get-missing id x w u h m = elim (Bool-cases (w.fault w.calls)) [
  | inl fails ↦ ground (arith, h, m, fails)
  | inr runs ↦ elim (Option-cases (find? (λ c. c.id == id) w.db.characters)) [
    | inl none_there ↦
        (none_there, (ground (arith, h, runs, none_there), ground (arith, h, runs, none_there)))
    | inr (c, found) ↦ ground (arith, h, runs, found)
  ]
]

pub owner_known-none :
    (token : CharacterToken) (r : Result Character × World) (w v : World)
    → Characters.get token.character_id w ≡ r
    → owner_known token r ≡ (none, v)
    → Cleared token w v
unfolding owner_known
owner_known-none token (ok c, u) w v e h =
    let (found, (same, clock)) = get-ok token.character_id c w u e in
    elim (Bool-cases (str_eq c.owner_hash token.owner_hash)) [
      | inl alike ↦
          let end : u ≡ v = ground (arith, h, alike) in
          let path = ap (λ (x : World). x.db) (sym end) ∙ same in
          record {
            aside = record {
              codes = ap (λ d. d.codes) path;
              logins = ap (λ d. d.logins) path;
              clock = ap (λ (x : World). x.now) (sym end) ∙ clock;
            };
            former = λ c' found' differs. ground (arith, found, found', differs, alike);
          }
      | inr other ↦
          let q =
            evicted-none token (revoke_all_for_character token.character_id u) u v refl
              (rw other at h) in
          record {
            aside = record {
              codes = q.aside.codes ∙ ap (λ d. d.codes) same;
              logins = q.aside.logins ∙ ap (λ d. d.logins) same;
              clock = q.aside.clock ∙ clock;
            };
            former = λ c' found' differs.
                q.former c'
                  (ap (λ d. find? (λ x. x.id == token.character_id) d.characters) same ∙ found')
                  differs;
          }
    ]
owner_known-none token (err x, u) w v e h = elim (Bool-cases (is_no_character x)) [
  | inl missing ↦
      let (none_there, (same, clock)) = get-missing token.character_id x w u e missing in
      let end : u ≡ v = ground (arith, h, missing) in
      let path = ap (λ (y : World). y.db) (sym end) ∙ same in
      record {
        aside = record {
          codes = ap (λ d. d.codes) path;
          logins = ap (λ d. d.logins) path;
          clock = ap (λ (y : World). y.now) (sym end) ∙ clock;
        };
        former = λ c found differs. ground (arith, none_there, found);
      }
  | inr other ↦ ground (arith, h, other)
]
