-- ===== src/Write/Call/Mails/Recorded.antt =====
-- The record of a mail that a call sent, by the guard of internal/domain/write/guard.go: what it adds
-- to the hour of the audit log.
use eve_online_mcp.Prelude.{
  ℕ, ◌+◌, ◌≤◌, ◌≡◌, refl, sym, subst, inl, inr, String, Bool, true, false, none, [], ◌∷◌, arith,
  str_eq, count, leb, ◌==◌, Bool-cases,
}
use eve_online_mcp.Domain.{Error, hour, MutationRow}
use eve_online_mcp.Store.{World, Result, ok, err}
use eve_online_mcp.Repo.Mutations.{is_mail_since, row_of, tool_mail_send}
use eve_online_mcp.Repo.Mutations.Window.{in_hour_from}
use eve_online_mcp.Write.Summary.{Args}
use eve_online_mcp.Write.Guard.Monad.{Guard}
use eve_online_mcp.Write.Guard.{Authz, append_by, after_append, append_digested, mutation_of}
use eve_online_mcp.Write.Guard.Cap.{Gated}
use eve_online_mcp.Write.Call.{EsiOutcome, log_of}
use eve_online_mcp.Write.Call.Append.{
  Extends, append_by-recorded, append_by-held, append_by-free, after_append-failed,
}
use eve_online_mcp.Write.Call.Mails.{Mail, in_hour, is_kept_in, went_through}

row_in_hour :
    (digest : Args → Result String) (c start : ℕ) (g : Guard) (in_ : Authz) (b : ℕ) (d : String)
    → (g.character_id == c) ≡ true
    → str_eq in_.tool tool_mail_send ≡ true
    → leb start b ≡ true
    → leb b (start + hour) ≡ true
    → in_hour_from c start (row_of b (mutation_of digest g (log_of in_ none) d)) ≡ true
unfolding in_hour_from is_mail_since row_of mutation_of log_of
row_in_hour digest c start g in_ b d owner tool from to = ground (arith, owner, tool, from, to)

grown :
    (c start : ℕ) (row : MutationRow) (w w' : World)
    → Extends row w w'
    → count (in_hour_from c start) w.db.mutations ≤ count (in_hour_from c start) w'.db.mutations
grown c start row w w' e = elim e.log [
  | inl same ↦ rw same (omega arith)
  | inr more ↦ ground (arith, more)
]

through-ok : (r : Result (Unit {0})) → went_through r ≡ true → r ≡ ok tt
through-ok (ok tt) h = refl
through-ok (err e) h = ground (arith, h)

failed-through : (x : Error) (s : Guard × World) → went_through (after_append (err x) s).0 ≡ false
unfolding after_append
failed-through x s = refl

module _ (digest : Args → Result String) (c start : ℕ) (in_ : Authz) where
  -- What a record leaves: the result, and the state after it.
  abbrev pub recorded :
      EsiOutcome → Result String → Guard × World → Result (Unit {0}) × (Guard × World)
  recorded esi r s = let t = append_digested digest (log_of in_ esi) r s in after_append t.0 t.1

  abbrev pub hour_count : World → ℕ
  hour_count w = count (in_hour_from c start) w.db.mutations

  append_grows :
      (b : Bool) (esi : EsiOutcome) (d : String) (g : Guard) (w : World)
      → w.in_tx ≡ false
      → Gated b g.character_id (g, w)
      → (let t = append_by g.mail_hold (mutation_of digest g (log_of in_ esi) d) (g, w) in
          hour_count w ≤ hour_count (after_append t.0 t.1).1.1)
  append_grows true esi d g w out (k, held, ready) =
      let m = mutation_of digest g (log_of in_ esi) d in
      subst
        (λ o. let t = append_by o m (g, w) in hour_count w ≤ hour_count (after_append t.0 t.1).1.1)
        (sym held)
        (grown c start (row_of k.began m) w _ (append_by-held m k g w held ready.own ready.fresh))
  append_grows false esi d g w out idle =
      let m = mutation_of digest g (log_of in_ esi) d in
      subst
        (λ o. let t = append_by o m (g, w) in hour_count w ≤ hour_count (after_append t.0 t.1).1.1)
        (sym idle) (grown c start (row_of w.now m) w _ (append_by-free m g w out idle))

  pub record_grows :
      (b : Bool) (esi : EsiOutcome) (r : Result String) (g : Guard) (w : World)
      → w.in_tx ≡ false
      → Gated b g.character_id (g, w)
      → hour_count w ≤ hour_count (recorded esi r (g, w)).1.1
  unfolding append_digested
  record_grows b esi (err x) g w out gated = rw ((after_append-failed x (g, w)).log) (omega arith)
  record_grows b esi (ok d) g w out gated = append_grows b esi d g w out gated

  -- The mail that a record of success stands for.
  abbrev pub mail_at : Guard → ℕ → Result (Unit {0}) → Mail
  mail_at g now r = record { character = g.character_id; at = now; recorded = went_through r }

  logged-counts :
      (d : String) (g : Guard) (w : World)
      → str_eq in_.tool tool_mail_send ≡ true
      → Gated true g.character_id (g, w)
      → (recorded none (ok d) (g, w)).0 ≡ ok tt
      → in_hour c start (mail_at g w.now (ok tt)) ≡ true
      → hour_count w + 1 ≤ hour_count (recorded none (ok d) (g, w)).1.1
  unfolding append_digested
  logged-counts d g w tool (k, held, ready) done hit =
      let m = mutation_of digest g (log_of in_ none) d in
      let log : (recorded none (ok d) (g, w)).1.1.db.mutations ≡ row_of k.began m ∷ w.db.mutations =
        subst
          (λ o.
            let t = append_by o m (g, w) in
            (after_append t.0 t.1).0 ≡ ok tt
            → (after_append t.0 t.1).1.1.db.mutations ≡ row_of k.began m ∷ w.db.mutations)
          (sym held) (append_by-recorded m k g w ready.own ready.fresh) done in
      let row =
        row_in_hour digest c start g in_ k.began d (ground (arith, hit)) tool
          (ground (arith, hit, ready.timed)) (ground (arith, hit, ready.timed)) in
      ground (arith, log, row)

  pub record_counts :
      (r : Result String) (g : Guard) (w : World)
      → str_eq in_.tool tool_mail_send ≡ true
      → w.in_tx ≡ false
      → Gated true g.character_id (g, w)
      → (let q = recorded none r (g, w) in
          count (is_kept_in c start) (mail_at g w.now q.0 ∷ []) + hour_count w ≤ hour_count q.1.1)
  unfolding append_digested
  record_counts (err x) g w tool out gated =
      ground (arith, failed-through x (g, w), record_grows true none (err x) g w out gated)
  record_counts (ok d) g w tool out gated =
      let q = recorded none (ok d) (g, w) in
      elim (Bool-cases (is_kept_in c start (mail_at g w.now q.0))) [
        | inr not_so ↦ ground (arith, not_so, record_grows true none (ok d) g w out gated)
        | inl kept ↦
            let through : went_through q.0 ≡ true = ground (arith, kept) in
            let more =
              logged-counts d g w tool gated (through-ok q.0 through) (ground (arith, kept)) in
            ground (arith, kept, more)
      ]
