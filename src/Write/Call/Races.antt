-- ===== src/Write/Call/Races.antt =====
-- What two requests of one session can do to one another: `SessionFor` of oauth/protect.go hands
-- both the same guard, and the confirm cycle of write/guard.go reads a token and deletes it in two
-- statements.
use eve_online_mcp.Prelude.{
  ℕ, suc, ◌≡◌, refl, sym, ◌∙◌, ap, subst, String, true, false, none, some, List, ◌∷◌, arith, str_eq,
  find?, remove_if, count,
}
use eve_online_mcp.Domain.{Confirm, MutationRow, Mutation}
use eve_online_mcp.Store.{World, Result, ok, err, sql, within_tx}
use eve_online_mcp.Repo.Confirms
use eve_online_mcp.Repo.Confirms.{has_token}
use eve_online_mcp.Repo.Mutations
use eve_online_mcp.Repo.Mutations.{refers, in_last_hour, is_mail_since, row_of, tool_mail_send}
use eve_online_mcp.Write.Policy.{cap_mail_send}
use eve_online_mcp.Write.Summary.{Args}
use eve_online_mcp.Write.Guard.Monad.{Guard}
use eve_online_mcp.Write.Guard.{
  Authz, Record, authorize, record_write, append_record, append_digested, append_by, after_append,
  release_mail_hold, mutation_of, verdict, pass, enforce, pending_confirm, found_confirm,
  judge_confirm,
}
use eve_online_mcp.Write.Call.Append.{after_append-failed, release_held-none}
use eve_online_mcp.Write.Guard.Cap.{Gated}
use eve_online_mcp.Write.Guard.Granted.{Granted, authorize-Granted}

module _ (tool digest token : String) (g : Guard) (c : Confirm) where
  abbrev read_once : World → World
  read_once w = record w { calls = suc w.calls }

  -- A read that finds the row.
  pending_confirm-found :
      (w : World)
      → w.fault w.calls ≡ false
      → find? (has_token token) w.db.confirms ≡ some c
      → pending_confirm token (g, w) ≡ (ok c, (g, read_once w))
  unfolding pending_confirm found_confirm Confirms.get Confirms.get_sql sql
  pending_confirm-found w runs found = simp (runs, found)

  abbrev spend : World → World
  spend w = record w {
    db = record (w.db) { confirms = remove_if (has_token token) w.db.confirms };
    calls = suc w.calls;
  }

  -- The row is judged as it was read, whether or not it still stands.
  judge_confirm-passed :
      (w : World)
      → w.fault w.calls ≡ false
      → verdict g w.now c tool digest ≡ pass
      → judge_confirm tool digest token c (g, w) ≡ (ok tt, (g, spend w))
  unfolding judge_confirm enforce Confirms.delete Confirms.delete_sql sql
  judge_confirm-passed w runs passed = rw (passed, enforce) (simp runs)

  -- Two requests that both read a token before either deletes it both go ahead on it, if the
  -- database does not fail and the row passes the guard's tests.
  pub double_spend :
      (w : World)
      → ((n : ℕ) → w.fault n ≡ false)
      → find? (has_token token) w.db.confirms ≡ some c
      → verdict g w.now c tool digest ≡ pass
      → (let a = pending_confirm token (g, w) in
          let b = pending_confirm token (g, a.1.1) in
          let a' = judge_confirm tool digest token c (g, b.1.1) in
          let b' = judge_confirm tool digest token c (g, a'.1.1) in
          (a.0 ≡ ok c) × (b.0 ≡ ok c) × (a'.0 ≡ ok tt) × (b'.0 ≡ ok tt))
  double_spend w runs found passed =
      let w1 = read_once w in
      let w2 = read_once w1 in
      let w3 = spend w2 in
      rw
        (
          pending_confirm-found w (runs w.calls) found,
          pending_confirm-found w1 (runs w1.calls) found,
          judge_confirm-passed w2 (runs w2.calls) passed,
          judge_confirm-passed w3 (runs w3.calls) passed,
        )
        (refl, refl, refl, refl)

append_free-runs :
    (m : Mutation) (w : World)
    → ((n : ℕ) → w.fault n ≡ false)
    → w.in_tx ≡ false
    → refers m w.db ≡ true
    → ((Mutations.append m w).1.db.mutations ≡ row_of w.now m ∷ w.db.mutations)
unfolding Mutations.append Mutations.with_mail_cap Mutations.append_sql within_tx sql
append_free-runs m w runs out known = ground (
  arith,
  runs w.calls,
  runs (suc w.calls),
  runs (suc (suc w.calls)),
  runs (suc (suc (suc w.calls))),
)

after_append-log :
    (rows : List MutationRow) (g : Guard) (r : Result (Unit {0})) (w : World)
    → g.mail_hold ≡ none
    → w.db.mutations ≡ rows
    → (after_append r (g, w)).1.1.db.mutations ≡ rows
unfolding after_append release_mail_hold
after_append-log rows g (ok _) w idle e =
    ap (λ (v : World). v.db.mutations) (release_held-none g w g.mail_hold idle) ∙ e
after_append-log rows g (err x) w idle e = (after_append-failed x (g, w)).log ∙ e

module _ (digest : Args → Result String) where
  -- A record with no hold is written with no look at the count.
  record_write-unheld :
      (rec : Record) (d : String) (g : Guard) (w : World)
      → ((n : ℕ) → w.fault n ≡ false)
      → w.in_tx ≡ false
      → g.mail_hold ≡ none
      → digest rec.args ≡ ok d
      → refers (mutation_of digest g rec d) w.db ≡ true
      → (record_write digest rec (g, w)).1.1.db.mutations
        ≡ row_of w.now (mutation_of digest g rec d) ∷ w.db.mutations
  unfolding record_write append_record append_digested append_by
  record_write-unheld rec d g w runs out idle dr known =
      let m = mutation_of digest g rec d in
      let row = row_of w.now m in
      subst
        (λ x.
          let t = append_digested digest rec x (g, w) in
          (after_append t.0 t.1).1.1.db.mutations ≡ row ∷ w.db.mutations)
        (sym dr)
        (subst
          (λ o.
            let t = append_by o m (g, w) in
            (after_append t.0 t.1).1.1.db.mutations ≡ row ∷ w.db.mutations)
          (sym idle)
          (after_append-log (row ∷ w.db.mutations) g (Mutations.append m w).0
            (Mutations.append m w).1 idle (append_free-runs m w runs out known)))

  sent_mail_counts :
      (rec : Record) (d : String) (g : Guard) (now : ℕ)
      → str_eq rec.tool tool_mail_send ≡ true
      → rec.outcome ≡ "ok"
      → in_last_hour g.character_id now (row_of now (mutation_of digest g rec d)) ≡ true
  unfolding mutation_of row_of in_last_hour is_mail_since
  sent_mail_counts rec d g now tool sent = rw sent (ground arith)

  -- A mail whose hold another request of the session has dropped is recorded all the same: after
  -- any other write was let go on the same guard outside a transaction, with no failure of the
  -- database and of the digest, and with the rows that the record refers to in their tables, the
  -- record of a sent mail counts one mail more, however many there are.
  pub interleaved_record :
      (fresh d : String) (other : Authz) (rec : Record) (g : Guard) (w : World) (s : Guard × World)
      → w.in_tx ≡ false
      → authorize digest fresh other (g, w) ≡ (ok none, s)
      → str_eq other.capability cap_mail_send ≡ false
      → ((n : ℕ) → s.1.fault n ≡ false)
      → digest rec.args ≡ ok d
      → refers (mutation_of digest s.0 rec d) s.1.db ≡ true
      → str_eq rec.tool tool_mail_send ≡ true
      → rec.outcome ≡ "ok"
      → count (in_last_hour s.0.character_id s.1.now) (record_write digest rec s).1.1.db.mutations
        ≡ suc (count (in_last_hour s.0.character_id s.1.now) w.db.mutations)
  interleaved_record fresh d other rec g w s out e plain runs dr known tool sent =
      let granted =
        subst (Granted other (g, w)) (ap (λ r. r.1) e)
          (authorize-Granted digest fresh other g w out (ap (λ r. r.0) e)) in
      let idle = subst (λ b. Gated b g.character_id s) plain granted.gated in
      let logged = granted.mild.logged in
      let added = record_write-unheld rec d s.0 s.1 runs (logged.tx ∙ out) idle dr known in
      rw (added, sent_mail_counts rec d s.0 s.1.now tool sent, logged.log) refl
