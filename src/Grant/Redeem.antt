-- ===== src/Grant/Redeem.antt =====
-- internal/usecase/session/grant.go, `Redeem`: a code is spent once, for the only session of its
-- character.
use eve_online_mcp.Prelude.{
  ℕ, suc, String, ◌≡◌, ap, sym, ◌∙◌, true, false, Option, some, ◌∷◌, map, subst, arith, Bool-cases,
  inl, inr, find?, ltb, remove_if,
}
use eve_online_mcp.Domain.{SessionRow, Code, Revoked, authcode_not_found}
use eve_online_mcp.Store.{Db, World, ok, M, sql, touch_db, ◌>>=◌, pure, or_raise}
use eve_online_mcp.Store.Runs.{Ran, SameContext, sql-ok, resume-ok, or_raise-ok, within_tx-ok}
use eve_online_mcp.Repo.Sessions.{
  NewSession, new_row, close_row, is_open_for, create, create_sql, revoke_all_for_character,
  revoke_all_sql, revoke_rows, lock_character,
}
use eve_online_mcp.Repo.Codes.{take_code, take_sql, has_value, check_unexpired}
use eve_online_mcp.Grant.{ParkedGrant, Exchanged, session_of, redeem_rows, redeem}

lock_character-ok :
    (c : ℕ) (a : Unit {0}) (w w' : World)
    → lock_character c w ≡ (ok a, w')
    → (w'.db ≡ w.db) × SameContext w w'
unfolding lock_character
lock_character-ok c a w w' h = elim (Bool-cases w.in_tx) [
  | inl inside ↦
      let ran = sql-ok touch_db a w w' (ground (arith, h)) in
      (ground (arith, ran.rows), ran.context)
  | inr outside ↦ ground arith
]

-- A code that was taken stood in the table, was not expired, and is gone.
record Took (value : String) (code : Code) (w w' : World) : Type 0 where
  stood : find? (has_value value) w.db.codes ≡ some code
  unexpired : ltb code.expires_at w.now ≡ false
  rows : w'.db ≡ record w.db { codes = remove_if (has_value value) w.db.codes }
  context : SameContext w w'

pub check_unexpired-ok :
    (c code : Code) (w w' : World)
    → check_unexpired c w ≡ (ok code, w')
    → (c ≡ code) × ((ltb c.expires_at w.now ≡ false) × (w ≡ w'))
unfolding check_unexpired
check_unexpired-ok c code w w' h = elim (Bool-cases (ltb c.expires_at w.now)) [
  | inl late ↦ ground arith
  | inr live ↦ (ground arith, (live, ground arith))
]

took_sql :
    (value : String) (row : Option Code) (w w' : World)
    → Ran (take_sql value) row w w'
    → (find? (has_value value) w.db.codes ≡ row)
      × (w'.db ≡ record w.db { codes = remove_if (has_value value) w.db.codes })
unfolding take_sql
took_sql value row w w' ran = (ground (arith, ran.rows), ground (arith, ran.rows))

take_code-ok :
    (value : String) (code : Code) (w w' : World)
    → take_code value w ≡ (ok code, w')
    → Took value code w w'
unfolding take_code
take_code-ok value code w w' h =
    let (row, v, (run, rest)) =
      resume-ok (sql (take_sql value) w)
        (λ row. or_raise row authcode_not_found >>= check_unexpired) code w' h in
    let (found, u, (is_some, checked)) =
      resume-ok (or_raise row authcode_not_found v) check_unexpired code w' rest in
    let ran = sql-ok (take_sql value) row w v run in
    let (some_found, same) = or_raise-ok row authcode_not_found found v u is_some in
    let (same_code, (live, end)) = check_unexpired-ok found code u w' checked in
    let (stood, left) = took_sql value row w v ran in
    record {
      stood = stood ∙ some_found ∙ ap some same_code;
      unexpired = ground (arith, same_code, live, same, ran.context.clock);
      rows = ap (λ z. z.db) (sym (same ∙ end)) ∙ left;
      context = subst (SameContext w) (same ∙ end) ran.context;
    }

pub revoke_all-ok :
    (c : ℕ) (a : Revoked) (w w' : World)
    → revoke_all_for_character c w ≡ (ok a, w')
    → (w'.db ≡ record w.db { sessions = map (close_row (is_open_for c) w.now) w.db.sessions })
      × SameContext w w'
unfolding revoke_all_for_character revoke_all_sql revoke_rows
revoke_all-ok c a w w' h =
    let ran = sql-ok (revoke_all_sql c) a w w' h in (ground (arith, ran.rows), ran.context)

-- What a call that answered has done to the rows, between `w` and `w'`.
pub record Redeemed (p : ParkedGrant) (out : Exchanged) (w w' : World) : Type 0 where
  -- The code stood there and was not expired; now it is gone.
  pub stood :
      (code : Code) × ((find? (has_value p.code) w.db.codes ≡ some code)
        × (ltb code.expires_at w.now ≡ false))
  pub codes : w'.db.codes ≡ remove_if (has_value p.code) w.db.codes
  -- The other sessions of the character are closed, and the new one stands before them.
  pub created : out.session ≡ new_row w.db.next_session w.now (session_of p)
  pub sessions :
      w'.db.sessions
      ≡ out.session ∷ map (close_row (is_open_for p.character_id) w.now) w.db.sessions

create-ok :
    (s : NewSession) (row : SessionRow) (w w' : World)
    → create s w ≡ (ok row, w')
    → (row ≡ new_row w.db.next_session w.now s)
      × ((w'.db.sessions ≡ row ∷ w.db.sessions) × (w'.db.codes ≡ w.db.codes))
unfolding create create_sql
create-ok s row w w' h =
    let ran = sql-ok (create_sql s) row w w' h in
    (ground (arith, ran.rows), (ground (arith, ran.rows), ground (arith, ran.rows)))

abbrev spend : String → Db → Db
spend value d = record d { codes = remove_if (has_value value) d.codes }

-- The rest of the function after each of its steps.
abbrev pub made : ParkedGrant → Revoked → SessionRow → M Exchanged
made p revoked created = pure (record { session = created; revoked = revoked })

abbrev pub after_revoke : ParkedGrant → Revoked → M Exchanged
after_revoke p revoked = create (session_of p) >>= made p revoked

abbrev pub after_take : ParkedGrant → Code → M Exchanged
after_take p taken = revoke_all_for_character p.character_id >>= after_revoke p

abbrev pub after_lock : ParkedGrant → Unit {0} → M Exchanged
after_lock p locked = take_code p.code >>= after_take p

pub redeem_rows-ok :
    (p : ParkedGrant) (out : Exchanged) (w w' : World)
    → redeem_rows p w ≡ (ok out, w')
    → Redeemed p out w w'
unfolding redeem_rows
redeem_rows-ok p out w w' h =
    let (a, w1, (e1, r1)) = resume-ok (lock_character p.character_id w) (after_lock p) out w' h in
    let (code, w2, (e2, r2)) = resume-ok (take_code p.code w1) (after_take p) out w' r1 in
    let (revoked, w3, (e3, r3)) =
      resume-ok (revoke_all_for_character p.character_id w2) (after_revoke p) out w' r2 in
    let (row, w4, (e4, r4)) = resume-ok (create (session_of p) w3) (made p revoked) out w' r3 in
    let (d1, c1) = lock_character-ok p.character_id a w w1 e1 in
    let took = take_code-ok p.code code w1 w2 e2 in
    let (d3, c3) = revoke_all-ok p.character_id revoked w2 w3 e3 in
    let (made_row, (rows, codes)) = create-ok (session_of p) row w3 w4 e4 in
    let end : w'.db ≡ w4.db = ground (arith, r4) in
    let same_row : out.session ≡ row = ground (arith, r4) in
    let d2 : w2.db ≡ spend p.code w.db = took.rows ∙ ap (spend p.code) d1 in
    let t2 : w2.now ≡ w.now = took.context.clock ∙ c1.clock in
    let t3 : w3.now ≡ w.now = c3.clock ∙ t2 in
    let n3 : w3.db.next_session ≡ w.db.next_session =
      ap (λ d. d.next_session) d3 ∙ ap (λ d. d.next_session) d2 in
    record {
      stood = (code, (ground (arith, d1, took.stood), ground (arith, took.unexpired, c1.clock)));
      codes = ap (λ d. d.codes) end ∙ codes ∙ ap (λ d. d.codes) d3 ∙ ap (λ d. d.codes) d2;
      created =
          same_row
          ∙ made_row
          ∙ ap (λ n. new_row n w3.now (session_of p)) n3
          ∙ ap (λ t. new_row w.db.next_session t (session_of p)) t3;
      sessions =
          ap (λ d. d.sessions) end
          ∙ rows
          ∙ ap (λ r. r ∷ w3.db.sessions) (sym same_row)
          ∙ ap (λ l. out.session ∷ l)
              (ap (λ d. d.sessions) d3
                ∙ ap (λ d. map (close_row (is_open_for p.character_id) w2.now) d.sessions) d2
                ∙ ap (λ t. map (close_row (is_open_for p.character_id) t) w.db.sessions) t2);
    }

-- Outside a transaction, a call of `Redeem` that answered found its code in the table and not
-- expired, and took it out; it closed every open session of the character and made the one it
-- answers, from the parked grant.
pub redeem-Redeemed :
    (p : ParkedGrant) (out : Exchanged) (w w' : World)
    → w.in_tx ≡ false
    → redeem p w ≡ (ok out, w')
    → Redeemed p out w w'
unfolding redeem
redeem-Redeemed p out w w' outside h =
    let (v, (run, (same, memory))) = within_tx-ok (redeem_rows p) out w w' outside h in
    let done = redeem_rows-ok p out (record w { calls = suc w.calls; in_tx = true }) v run in
    record {
      stood = done.stood;
      codes = ap (λ d. d.codes) same ∙ done.codes;
      created = done.created;
      sessions = ap (λ d. d.sessions) same ∙ done.sessions;
    }
