-- ===== src/Write/Call/Capped.antt =====
-- The mail cap over whole calls: authorise, send, record.
use eve_online_mcp.Prelude.{
  ℕ, ◌≤◌, ◌<◌, ◌≡◌, refl, sym, ◌∙◌, ap, subst, inl, inr, String, Bool, true, false, none, some,
  List, [], ◌∷◌, arith, str_eq, count,
}
use eve_online_mcp.Domain.{MutationRow, Mutation}
use eve_online_mcp.Store.{World, Result, ok, err}
use eve_online_mcp.Repo.Mutations.{in_last_hour, is_mail_since, row_of, tool_mail_send}
use eve_online_mcp.Repo.Mutations.Window.{Capped, in_hour_from, count-in_hour_from-le}
use eve_online_mcp.Write.Policy.{cap_mail_send, mail_cap}
use eve_online_mcp.Write.Summary.{Args}
use eve_online_mcp.Write.Guard.Monad.{Guard, g_resume, attempt, ◌>>◌}
use eve_online_mcp.Write.Guard.{
  Authz, Decision, authorize, append_by, after_append, append_digested, append_record, record_write,
  mutation_of,
}
use eve_online_mcp.Write.Guard.Frames.{Mild}
use eve_online_mcp.Write.Guard.Cap.{Gated}
use eve_online_mcp.Write.Guard.Granted.{Granted, authorize-Granted, authorize-Mild}
use eve_online_mcp.Write.Call.{EsiOutcome, answer, log_of, proceed, perform, Call, serve, serve_all}
use eve_online_mcp.Write.Call.Append.{Extends, after_append-failed, append_by-free, append_by-held}

is_mail_row :
    (c t b : ℕ) (m : Mutation)
    → is_mail_since c t (row_of b m) ≡ true
    → (m.character_id ≡ c) × (str_eq m.tool tool_mail_send ≡ true)
unfolding is_mail_since row_of
is_mail_row c t b m e = ground arith

-- A row that is no mail of the character, or that has room in its hour, keeps the log capped.
Extends-Capped :
    (c : ℕ) (row : MutationRow) (w w' : World)
    → Extends row w w'
    → (is_mail_since c 0 row ≡ true
        → count (in_last_hour c row.created_at) w.db.mutations < mail_cap)
    → Capped mail_cap c w.db.mutations
    → Capped mail_cap c w'.db.mutations
Extends-Capped c row w w' e room h = elim e.log [
  | inl same ↦ rw same h
  | inr more ↦ rw more (room, h)
]

-- The tool that sends mail asks for the capability that the cap is tied to.
abbrev pub Tooled : Authz → Type 0
Tooled in_ = str_eq in_.tool tool_mail_send ≡ true → str_eq in_.capability cap_mail_send ≡ true

log_of-tool : (in_ : Authz) (esi : EsiOutcome) → (log_of in_ esi).tool ≡ in_.tool
unfolding log_of
log_of-tool in_ none = refl
log_of-tool in_ (some (status, message)) = refl

-- A log that is capped, in a context with no transaction.
abbrev pub Sound : ℕ → World → Type 0
Sound c w = Capped mail_cap c w.db.mutations × (w.in_tx ≡ false)

Extends-Sound :
    (c : ℕ) (row : MutationRow) (w w' : World)
    → Extends row w w'
    → (is_mail_since c 0 row ≡ true
        → count (in_last_hour c row.created_at) w.db.mutations < mail_cap)
    → Sound c w
    → Sound c w'
Extends-Sound c row w w' e room (h, out) = (Extends-Capped c row w w' e room h, e.tx ∙ out)

module _ (digest : Args → Result String) (in_ : Authz) (esi : EsiOutcome) (c : ℕ) (g : Guard)
    (d : String) where
  row_room :
      (b : ℕ) (rows : List MutationRow)
      → (g.character_id ≡ c
          → str_eq in_.tool tool_mail_send ≡ true
          → count (in_last_hour c b) rows < mail_cap)
      → (let row = row_of b (mutation_of digest g (log_of in_ esi) d) in
          is_mail_since c 0 row ≡ true → count (in_last_hour c row.created_at) rows < mail_cap)
  unfolding mutation_of row_of
  row_room b rows room mail =
      let (owner, tool) = is_mail_row c 0 b (mutation_of digest g (log_of in_ esi) d) mail in
      room owner (ap (λ t. str_eq t tool_mail_send) (sym (log_of-tool in_ esi)) ∙ tool)

  append_by-Sound :
      (b : Bool) (w : World)
      → str_eq in_.capability cap_mail_send ≡ b
      → Tooled in_
      → Gated b g.character_id (g, w)
      → Sound c w
      → (let t = append_by g.mail_hold (mutation_of digest g (log_of in_ esi) d) (g, w) in
          Sound c (after_append t.0 t.1).1.1)
  append_by-Sound true w cap tooled (k, held, ready) h =
      let m = mutation_of digest g (log_of in_ esi) d in
      subst (λ o. let t = append_by o m (g, w) in Sound c (after_append t.0 t.1).1.1) (sym held)
        (Extends-Sound c (row_of k.began m) w _ (append_by-held m k g w held ready.own ready.fresh)
          (row_room k.began w.db.mutations (λ owner _.
            subst (λ x. count (in_last_hour x k.began) w.db.mutations < mail_cap) owner ready.room))
          h)
  append_by-Sound false w cap tooled idle h =
      let m = mutation_of digest g (log_of in_ esi) d in
      subst (λ o. let t = append_by o m (g, w) in Sound c (after_append t.0 t.1).1.1) (sym idle)
        (Extends-Sound c (row_of w.now m) w _ (append_by-free m g w h.1 idle)
          (row_room w.now w.db.mutations (λ _ tool. absurd (ground (arith, tooled tool)))) h)

module _ (digest : Args → Result String) (in_ : Authz) (esi : EsiOutcome) (c : ℕ)
    (tooled : Tooled in_) where
  record_digested-Sound :
      (g : Guard) (w : World) (r : Result String)
      → Gated (str_eq in_.capability cap_mail_send) g.character_id (g, w)
      → Sound c w
      → (let t = append_digested digest (log_of in_ esi) r (g, w) in
          Sound c (after_append t.0 t.1).1.1)
  unfolding append_digested
  record_digested-Sound g w (err x) gated h =
      let p = after_append-failed x (g, w) in (rw (p.log) (h.0), p.tx ∙ h.1)
  record_digested-Sound g w (ok d) gated h =
      append_by-Sound digest in_ esi c g d (str_eq in_.capability cap_mail_send) w refl tooled gated
        h

  proceed-Sound :
      (d : Decision) (g : Guard) (w : World)
      → (d ≡ none → Gated (str_eq in_.capability cap_mail_send) g.character_id (g, w))
      → Sound c w
      → Sound c (proceed digest in_ esi d (g, w)).1.1
  unfolding proceed record_write append_record
  proceed-Sound (some p) g w gated h = h
  proceed-Sound none g w gated h = answered esi
    where
      answered :
          (o : EsiOutcome)
          → Sound c ((attempt (record_write digest (log_of in_ esi)) >> answer o) (g, w)).1.1
      answered none = record_digested-Sound g w (digest (log_of in_ esi).args) (gated refl) h
      answered (some e) = record_digested-Sound g w (digest (log_of in_ esi).args) (gated refl) h

  -- A whole call keeps the audit log capped, whatever fails on the way.
  pub perform-Sound :
      (fresh : String) (g : Guard) (w : World)
      → Sound c w
      → Sound c (perform digest fresh in_ esi (g, w)).1.1
  unfolding perform
  perform-Sound fresh g w h =
      resumed (authorize digest fresh in_ (g, w)) (authorize-Mild digest fresh in_ (g, w))
        (λ e. authorize-Granted digest fresh in_ g w h.1 e)
    where
      resumed :
          (r : Result Decision × (Guard × World))
          → Mild (g, w) r.1
          → (r.0 ≡ ok none → Granted in_ (g, w) r.1)
          → Sound c (g_resume r (proceed digest in_ esi)).1.1
      resumed (err e, (g', w')) p q = (rw (p.logged.log) (h.0), p.logged.tx ∙ h.1)
      resumed (ok d, (g', w')) p q =
          proceed-Sound d g' w'
            (λ e.
              subst (λ x. Gated (str_eq in_.capability cap_mail_send) x (g', w')) (sym p.owner)
                (q (ap ok e)).gated)
            (rw (p.logged.log) (h.0), p.logged.tx ∙ h.1)

abbrev pub AllTooled : List Call → Type 0
AllTooled [] = Unit
AllTooled (call ∷ calls) = Tooled call.request × AllTooled calls

module _ (digest : Args → Result String) (c : ℕ) where
  serve_all-Sound :
      (calls : List Call) (w : World)
      → AllTooled calls
      → Sound c w
      → Sound c (serve_all digest calls w)
  unfolding serve_all serve
  serve_all-Sound [] w tooled h = h
  serve_all-Sound (call ∷ calls) w tooled h = serve_all-Sound calls (serve digest call w) tooled.1 (
      perform-Sound digest call.request call.esi c tooled.0 call.fresh call.guard
        (record w { now = call.time; fault = call.fault }) h)

  -- However calls are served one after another outside a transaction, the audit log, capped at
  -- first, stays so, if the sending tool asks for the sending capability: it has at most five rows of sent mails of
  -- a character in any hour, both its ends included.
  pub log_limit :
      (calls : List Call) (w : World) (start : ℕ)
      → AllTooled calls
      → w.in_tx ≡ false
      → Capped mail_cap c w.db.mutations
      → count (in_hour_from c start) (serve_all digest calls w).db.mutations ≤ 5
  log_limit calls w start tooled out capped =
      count-in_hour_from-le mail_cap c start _ (serve_all-Sound calls w tooled (capped, out)).0
