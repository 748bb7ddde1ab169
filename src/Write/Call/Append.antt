-- ===== src/Write/Call/Append.antt =====
-- The append of a record, in a hold and outside one: `Record` and `appendRecord` of write/guard.go.
use eve_online_mcp.Prelude.{
  ◌≡◌, refl, sym, ◌∙◌, ap, subst, ◌⊎◌, inl, false, Option, none, some, [], ◌∷◌, arith,
}
use eve_online_mcp.Domain.{Error, MutationRow, Mutation}
use eve_online_mcp.Store.{World, Result, ok, err, sql, sql_commit, within_tx}
use eve_online_mcp.Store.Laws.{SameLog, SameLog-trans}
use eve_online_mcp.Repo.Mutations
use eve_online_mcp.Repo.Mutations.{
  MailCapHold, in_last_hour, is_mail_since, is_sent_mail, row_of, tool_mail_send, outcome_ok,
}
use eve_online_mcp.Write.Guard.Monad.{Guard, g_resume, set_hold}
use eve_online_mcp.Write.Guard.{drop_hold, append_by, after_append, release_held, release_mail_hold}
use eve_online_mcp.Write.Guard.Frames.{drop_hold-Mild}

-- The log after a write is the log before it, perhaps with one row more, and the context carries
-- the transaction that it carried.
pub record Extends (row : MutationRow) (w w' : World) : Type 0 where
  pub log : (w'.db.mutations ≡ w.db.mutations) ⊎ (w'.db.mutations ≡ row ∷ w.db.mutations)
  pub tx : w'.in_tx ≡ w.in_tx

append_free :
    (m : Mutation) (w : World)
    → w.in_tx ≡ false
    → Extends (row_of w.now m) w (Mutations.append m w).1
unfolding Mutations.append Mutations.with_mail_cap Mutations.append_sql within_tx sql
append_free m w out = ground arith

append_held-Inert :
    (m : Mutation) (h : MailCapHold) (w : World)
    → h.joined ≡ false
    → SameLog w (Mutations.append_held m h w).1
unfolding Mutations.append_held Mutations.insert_pending sql
append_held-Inert m h w own = ground arith

append_held-ok :
    (m : Mutation) (h h' : MailCapHold) (w : World)
    → h.joined ≡ false
    → (Mutations.append_held m h w).0 ≡ ok h'
    → (h'.joined ≡ false) × (h'.pending ≡ row_of h.began m ∷ h.pending)
unfolding Mutations.append_held Mutations.insert_pending sql
append_held-ok m h h' w own e = ground arith

commit_hold-Extends :
    (row : MutationRow) (h : MailCapHold) (w : World)
    → h.joined ≡ false
    → h.pending ≡ row ∷ []
    → Extends row w (Mutations.release_hold none h w).1
unfolding Mutations.release_hold sql_commit
commit_hold-Extends row h w own one = ground arith

roll_back_hold-Inert :
    (e : Error) (h : MailCapHold) (w : World) → SameLog w (Mutations.release_hold (some e) h w).1
unfolding Mutations.release_hold sql
roll_back_hold-Inert e h w = ground arith

pub Extends-of_SameLog : {row : MutationRow} {w w' : World} → SameLog w w' → Extends row w w'
Extends-of_SameLog p = record { log = inl p.log; tx = p.tx }

pub Extends-after :
    {row : MutationRow} {u v w : World} → SameLog u v → Extends row v w → Extends row u w
Extends-after p q = ground (arith, p.log, p.tx, q.log, q.tx)

-- A failed append rolls back.
pub after_append-failed : (x : Error) (s : Guard × World) → SameLog s.1 (after_append (err x) s).1.1
unfolding after_append drop_hold
after_append-failed x s = (drop_hold-Mild x s).logged

pub release_held-none :
    (g : Guard) (w : World) (h : Option MailCapHold)
    → h ≡ none
    → (release_held none h (g, w)).1.1 ≡ w
unfolding release_held
release_held-none g w none e = refl
release_held-none g w (some h) e = cc

release_held-some :
    (row : MutationRow) (g : Guard) (w : World) (o : Option MailCapHold) {h : MailCapHold}
    → o ≡ some h
    → h.joined ≡ false
    → h.pending ≡ row ∷ []
    → Extends row w (release_held none o (g, w)).1.1
unfolding release_held
release_held-some row g w none e own one = cc
release_held-some row g w (some k) {h} e own one =
    let same : k ≡ h = cc in
    commit_hold-Extends row k w (ap (λ x. x.joined) same ∙ own) (ap (λ x. x.pending) same ∙ one)

-- Outside a hold the row is stamped with the clock, in one with the hold's beginning.
pub append_by-free :
    (m : Mutation) (g : Guard) (w : World)
    → w.in_tx ≡ false
    → g.mail_hold ≡ none
    → (let r = append_by none m (g, w) in Extends (row_of w.now m) w (after_append r.0 r.1).1.1)
unfolding append_by after_append release_mail_hold
append_by-free m g w out idle = finish (Mutations.append m w) (append_free m w out)
  where
    finish :
        (r : Result (Unit {0}) × World)
        → Extends (row_of w.now m) w r.1
        → Extends (row_of w.now m) w (after_append r.0 (g, r.1)).1.1
    finish (ok a, v) p =
        subst (Extends (row_of w.now m) w) (sym (release_held-none g v g.mail_hold idle)) p
    finish (err x, v) p =
        let q = after_append-failed x (g, v) in ground (arith, p.log, p.tx, q.log, q.tx)

pub append_by-held :
    (m : Mutation) (h : MailCapHold) (g : Guard) (w : World)
    → g.mail_hold ≡ some h
    → h.joined ≡ false
    → h.pending ≡ []
    → (let r = append_by (some h) m (g, w) in
        Extends (row_of h.began m) w (after_append r.0 r.1).1.1)
unfolding append_by after_append release_mail_hold
append_by-held m h g w held own empty =
    finish (Mutations.append_held m h w) (append_held-Inert m h w own) (λ h' e.
      let (own', one) = append_held-ok m h h' w own e in
      (own', one ∙ ap (λ t. row_of h.began m ∷ t) empty))
  where
    finish :
        (r : Result MailCapHold × World)
        → SameLog w r.1
        → ((h' : MailCapHold)
            → r.0 ≡ ok h'
            → (h'.joined ≡ false) × (h'.pending ≡ row_of h.began m ∷ []))
        → (let t = g_resume (r.0, (g, r.1)) (λ h'. set_hold (some h')) in
            Extends (row_of h.began m) w (after_append t.0 t.1).1.1)
    finish (ok h', v) p shape =
        let (own', one) = shape h' refl in
        Extends-after p (
          release_held-some (row_of h.began m) (record g { mail_hold = some h' }) v (some h') refl
            own' one)
    finish (err x, v) p shape = Extends-of_SameLog (SameLog-trans p (after_append-failed x (g, v)))

commit_hold-ok :
    (row : MutationRow) (h : MailCapHold) (w : World)
    → h.joined ≡ false
    → h.pending ≡ row ∷ []
    → (Mutations.release_hold none h w).0 ≡ ok tt
    → (Mutations.release_hold none h w).1.db.mutations ≡ row ∷ w.db.mutations
unfolding Mutations.release_hold sql_commit
commit_hold-ok row h w own one e = ground arith

-- A record in a hold that went through stands in the log, stamped with the hold's beginning.
pub append_by-recorded :
    (m : Mutation) (h : MailCapHold) (g : Guard) (w : World)
    → h.joined ≡ false
    → h.pending ≡ []
    → (let t = append_by (some h) m (g, w) in
        let r = after_append t.0 t.1 in
        r.0 ≡ ok tt → r.1.1.db.mutations ≡ row_of h.began m ∷ w.db.mutations)
unfolding append_by after_append release_mail_hold release_held
append_by-recorded m h g w own empty =
    finish (Mutations.append_held m h w) (append_held-Inert m h w own) (λ h' e.
      let (own', one) = append_held-ok m h h' w own e in
      (own', one ∙ ap (λ t. row_of h.began m ∷ t) empty))
  where
    finish :
        (r : Result MailCapHold × World)
        → SameLog w r.1
        → ((h' : MailCapHold)
            → r.0 ≡ ok h'
            → (h'.joined ≡ false) × (h'.pending ≡ row_of h.began m ∷ []))
        → (let t = g_resume (r.0, (g, r.1)) (λ h'. set_hold (some h')) in
            let q = after_append t.0 t.1 in
            q.0 ≡ ok tt → q.1.1.db.mutations ≡ row_of h.began m ∷ w.db.mutations)
    finish (ok h', v) p shape done =
        let (own', one) = shape h' refl in
        commit_hold-ok (row_of h.began m) h' v own' one done ∙ ap (λ t. row_of h.began m ∷ t) p.log
    finish (err x, v) p shape done = ground (arith, done)
