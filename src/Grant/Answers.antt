-- ===== src/Grant/Answers.antt =====
-- internal/usecase/session/grant.go, `Redeem`: nothing but the database can fail it. In particular
-- the unique index on open sessions never does, since the character's are closed first.
use eve_online_mcp.Prelude.{
  ℕ, suc, String, ◌≡◌, refl, ap, ◌∙◌, true, false, some, List, [], ◌∷◌, map, arith, find?, any, ltb,
  remove_if, filter,
}
use eve_online_mcp.Domain.{SessionRow, Code, Revoked, authcode_not_found}
use eve_online_mcp.Store.{
  Db, World, Result, ok, M, sql, touch_db, or_raise, pure, ◌>>=◌, within_tx, finish,
}
use eve_online_mcp.Store.Runs.{
  Answers, Quiet, SameContext, stay-Quiet, sql-Answers, bind-Answers, resume-runs,
}
use eve_online_mcp.Repo.Mutations.{character_exists}
use eve_online_mcp.Repo.Sessions.{
  NewSession, tokens_of, new_row, close_row, is_open_for, create, create_sql,
  revoke_all_for_character, revoke_all_sql, revoke_rows, lock_character,
}
use eve_online_mcp.Repo.Codes.{take_code, take_sql, has_value, check_unexpired}
use eve_online_mcp.Grant.{ParkedGrant, session_of, redeem_rows, redeem}
use eve_online_mcp.Grant.Redeem.{made, after_revoke, after_take, after_lock}

pure-Answers : {A : Type 0} (a : A) (w : World) → Answers (pure a) w a w.db
pure-Answers a w = record {
  after = w;
  answered = refl;
  rows = refl;
  context = record { clock = refl; tx = refl; faults = refl; memory = refl };
}

lock-Answers : (c : ℕ) (w : World) → Quiet w → w.in_tx ≡ true → Answers (lock_character c) w tt w.db
unfolding lock_character
lock-Answers c w q inside =
    let run = sql-Answers touch_db w tt w.db q refl in
    record {
      after = run.after;
      answered = ground (arith, inside, run.answered);
      rows = run.rows;
      context = run.context;
    }

abbrev spent : String → Db → Db
spent value d = record d { codes = remove_if (has_value value) d.codes }

checked-Answers :
    (value : String) (code : Code) (w : World)
    → ltb code.expires_at w.now ≡ false
    → Answers (or_raise (some code) authcode_not_found >>= check_unexpired) w code w.db
unfolding check_unexpired
checked-Answers value code w live = record {
  after = w;
  answered = ground (arith, live);
  rows = refl;
  context = record { clock = refl; tx = refl; faults = refl; memory = refl };
}

-- The rows that are left, said in another way.
relabel :
    {A : Type 0} {m : M A} {w : World} {a : A} (d e : Db)
    → d ≡ e
    → Answers m w a d
    → Answers m w a e
relabel d e h v = record {
  after = v.after;
  answered = v.answered;
  rows = v.rows ∙ h;
  context = v.context;
}

take-Answers :
    (value : String) (code : Code) (w : World)
    → Quiet w
    → find? (has_value value) w.db.codes ≡ some code
    → ltb code.expires_at w.now ≡ false
    → Answers (take_code value) w code (spent value w.db)
unfolding take_code take_sql
take-Answers value code w q stood live =
    let run =
      sql-Answers (take_sql value) w (some code) (spent value w.db) q (ground (arith, stood)) in
    let rest = checked-Answers value code run.after (ground (arith, live, run.context.clock)) in
    bind-Answers (sql (take_sql value)) (λ row. or_raise row authcode_not_found >>= check_unexpired)
      w (some code) (spent value w.db) code (spent value w.db) run
      (relabel run.after.db (spent value w.db) run.rows rest)

closed-none :
    (c now : ℕ) (rows : List SessionRow)
    → any (is_open_for c) (map (close_row (is_open_for c) now) rows) ≡ false
unfolding close_row
closed-none c now [] = refl
closed-none c now (s ∷ rows) = ground (arith, closed-none c now rows)

abbrev closed : ℕ → ℕ → Db → Db
closed c now d = record d { sessions = map (close_row (is_open_for c) now) d.sessions }

abbrev doomed : ℕ → Db → Revoked
doomed c d =
    let rows = filter (is_open_for c) d.sessions in
    record { ids = map (λ s. s.id) rows; tokens = tokens_of rows }

revoke-Answers :
    (c : ℕ) (w : World)
    → Quiet w
    → Answers (revoke_all_for_character c) w (doomed c w.db) (closed c w.now w.db)
unfolding revoke_all_for_character revoke_all_sql revoke_rows
revoke-Answers c w q = sql-Answers (revoke_all_sql c) w (doomed c w.db) (closed c w.now w.db) q refl

abbrev opened : NewSession → ℕ → Db → Db
opened s now d = record d {
  sessions = new_row d.next_session now s ∷ d.sessions;
  next_session = suc d.next_session;
}

create-Answers :
    (s : NewSession) (w : World)
    → Quiet w
    → character_exists s.character_id w.db.characters ≡ true
    → any (is_open_for s.character_id) w.db.sessions ≡ false
    → Answers (create s) w (new_row w.db.next_session w.now s) (opened s w.now w.db)
unfolding create create_sql
create-Answers s w q exists none_open =
    sql-Answers (create_sql s) w (new_row w.db.next_session w.now s) (opened s w.now w.db) q
      (ground (arith, exists, none_open))

pub record Ends {A : Type 0} (r : Result A × World) : Type 0 where
  pub answer : A
  pub after : World
  pub answered : r ≡ (ok answer, after)
  pub faults : Quiet after

bind-Ends :
    {A B : Type 0} (m : M A) (f : A → M B) (w : World) (a : A) (d : Db)
    → Answers m w a d
    → ((v : World) → v.db ≡ d → SameContext w v → Ends (f a v))
    → Ends ((m >>= f) w)
bind-Ends m f w a d h k =
    let e = k h.after h.rows h.context in
    record {
      answer = e.answer;
      after = e.after;
      answered = resume-runs (m w) f a h.after h.answered ∙ e.answered;
      faults = e.faults;
    }

within_tx-Ends :
    {A : Type 0} (m : M A) (w : World)
    → Quiet w
    → w.in_tx ≡ false
    → Ends (m (record w { calls = suc w.calls; in_tx = true }))
    → Ends (within_tx m w)
unfolding within_tx
within_tx-Ends m w q outside e = record {
  answer = e.answer;
  after = record e.after { in_tx = w.in_tx; calls = suc e.after.calls };
  answered = ground (
    arith,
    outside,
    q w.calls,
    ap (finish (record w { calls = suc w.calls })) e.answered,
    e.faults e.after.calls,
  );
  faults = e.faults;
}

create-Ends :
    (p : ParkedGrant) (revoked : Revoked) (w : World)
    → Quiet w
    → character_exists p.character_id w.db.characters ≡ true
    → any (is_open_for p.character_id) w.db.sessions ≡ false
    → Ends (after_revoke p revoked w)
create-Ends p revoked w q exists none_open =
    let row = new_row w.db.next_session w.now (session_of p) in
    bind-Ends (create (session_of p)) (made p revoked) w row (opened (session_of p) w.now w.db)
      (create-Answers (session_of p) w q exists none_open)
      (λ v rows context. record {
        answer = record { session = row; revoked = revoked };
        after = v;
        answered = refl;
        faults = stay-Quiet context q;
      })

revoke-Ends :
    (p : ParkedGrant) (code : Code) (w : World)
    → Quiet w
    → character_exists p.character_id w.db.characters ≡ true
    → Ends (after_take p code w)
revoke-Ends p code w q exists =
    bind-Ends (revoke_all_for_character p.character_id) (after_revoke p) w
      (doomed p.character_id w.db) (closed p.character_id w.now w.db)
      (revoke-Answers p.character_id w q)
      (λ v rows context.
        create-Ends p (doomed p.character_id w.db) v (stay-Quiet context q)
          (ap (λ d. character_exists p.character_id d.characters) rows ∙ exists)
          (ap (λ d. any (is_open_for p.character_id) d.sessions) rows
            ∙ closed-none p.character_id w.now w.db.sessions))

take-Ends :
    (p : ParkedGrant) (code : Code) (w : World)
    → Quiet w
    → find? (has_value p.code) w.db.codes ≡ some code
    → ltb code.expires_at w.now ≡ false
    → character_exists p.character_id w.db.characters ≡ true
    → Ends (after_lock p tt w)
take-Ends p code w q stood live exists =
    bind-Ends (take_code p.code) (after_take p) w code (spent p.code w.db)
      (take-Answers p.code code w q stood live)
      (λ v rows context.
        revoke-Ends p code v (stay-Quiet context q)
          (ap (λ d. character_exists p.character_id d.characters) rows ∙ exists))

-- Outside a transaction, a grant whose code stands in the table unexpired, and whose character is
-- known, is redeemed when no exchange with the database fails.
pub redeem-Ends :
    (p : ParkedGrant) (code : Code) (w : World)
    → Quiet w
    → w.in_tx ≡ false
    → find? (has_value p.code) w.db.codes ≡ some code
    → ltb code.expires_at w.now ≡ false
    → character_exists p.character_id w.db.characters ≡ true
    → Ends (redeem p w)
unfolding redeem redeem_rows
redeem-Ends p code w q outside stood live exists =
    let begun : World = record w { calls = suc w.calls; in_tx = true } in
    within_tx-Ends (redeem_rows p) w q outside (
      bind-Ends (lock_character p.character_id) (after_lock p) begun tt w.db
        (lock-Answers p.character_id begun q refl)
        (λ v rows context.
          take-Ends p code v (stay-Quiet context q)
            (ap (λ d. find? (has_value p.code) d.codes) rows ∙ stood)
            (ap (λ t. ltb code.expires_at t) context.clock ∙ live)
            (ap (λ d. character_exists p.character_id d.characters) rows ∙ exists)))
