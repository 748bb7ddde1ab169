-- ===== src/Write/Call/Mails/Counted.antt =====
-- The mails that calls of internal/usecase/eve/record.go sent, against the audit log.
use eve_online_mcp.Prelude.{
  ℕ, ◌+◌, ◌≤◌, ◌≡◌, refl, sym, ◌∙◌, subst, inl, inr, String, Bool, false, none, some, List, [], ◌∷◌,
  ◌&&◌, arith, str_eq, count, Bool-cases, if◌then◌else◌,
}
use eve_online_mcp.Store.{World, Result, ok, err}
use eve_online_mcp.Repo.Mutations.{tool_mail_send}
use eve_online_mcp.Repo.Mutations.Window.{Capped, in_hour_from}
use eve_online_mcp.Write.Policy.{cap_mail_send, mail_cap}
use eve_online_mcp.Write.Summary.{Args}
use eve_online_mcp.Write.Guard.Monad.{Guard, g_resume}
use eve_online_mcp.Write.Guard.{Authz, Decision, Preview, append_record, record_write}
use eve_online_mcp.Write.Guard.Frames.{Mild}
use eve_online_mcp.Write.Guard.Cap.{Gated}
use eve_online_mcp.Write.Guard.Granted.{authorize-Granted, authorize-Mild}
use eve_online_mcp.Write.Call.{EsiOutcome, log_of, proceed, perform, Call, serve, serve_all}
use eve_online_mcp.Write.Call.Capped.{Tooled, AllTooled, Sound, perform-Sound, log_limit}
use eve_online_mcp.Write.Call.Mails.{
  Mail, in_hour, is_kept_in, is_lost_in, went_through, was_taken, is_mail_call, mail_of, asked,
  mails_of, count-split, count-append,
}
use eve_online_mcp.Write.Call.Mails.Recorded.{mail_at, record_grows, record_counts}

module _ (digest : Args → Result String) (c start : ℕ) where
  abbrev kept_count : List Mail → ℕ
  kept_count ms = count (is_kept_in c start) ms

  abbrev log_count : World → ℕ
  log_count w = count (in_hour_from c start) w.db.mutations

  -- The state after a call that its guard let go is that after its record.
  proceed-state :
      (in_ : Authz) (esi : EsiOutcome) (s : Guard × World)
      → (proceed digest in_ esi none s).1 ≡ (record_write digest (log_of in_ esi) s).1
  unfolding proceed
  proceed-state in_ none s = refl
  proceed-state in_ (some e) s = refl

  shown-world :
      (in_ : Authz) (esi : EsiOutcome) (p : Preview) (s : Guard × World)
      → (proceed digest in_ esi (some p) s).1.1 ≡ s.1
  unfolding proceed
  shown-world in_ esi p s = refl

  -- The mail of a call, if it is one.
  abbrev listed : Bool → ℕ → ℕ → Result (Unit {0}) → List Mail
  listed mail character at r =
      if mail then record { character = character; at = at; recorded = went_through r } ∷ [] else []

  sent_counts :
      (in_ : Authz) (esi : EsiOutcome) (g : Guard) (w : World)
      → Tooled in_
      → w.in_tx ≡ false
      → Gated (str_eq in_.capability cap_mail_send) g.character_id (g, w)
      → (let q = record_write digest (log_of in_ esi) (g, w) in
          kept_count (
              if str_eq in_.tool tool_mail_send && was_taken esi
              then mail_at digest c start in_ g w.now q.0 ∷ []
              else [])
            + log_count w
          ≤ log_count q.1.1)
  unfolding record_write append_record log_of
  sent_counts in_ (some e) g w tooled out gated =
      let grows =
        record_grows digest c start in_ (str_eq in_.capability cap_mail_send) (some e)
          (digest in_.args) g w out gated in
      elim (Bool-cases (str_eq in_.tool tool_mail_send)) [
        | inl tool ↦ rw tool (omega (arith, grows))
        | inr other ↦ rw other (omega (arith, grows))
      ]
  sent_counts in_ none g w tooled out gated = elim (Bool-cases (str_eq in_.tool tool_mail_send)) [
    | inl tool ↦ rw tool (
        record_counts digest c start in_ (digest in_.args) g w tool out
          (subst (λ b. Gated b g.character_id (g, w)) (tooled tool) gated))
    | inr other ↦ rw other (
        omega (
          arith,
          record_grows digest c start in_ (str_eq in_.capability cap_mail_send) none
              (digest in_.args) g w out gated,
        ))
  ]

  -- What a call on what its guard says adds to the log.
  answered-counts :
      (call : Call) (r : Result Decision × (Guard × World)) (w : World)
      → Tooled call.request
      → w.in_tx ≡ false
      → Mild (call.guard, record w { now = call.time; fault = call.fault }) r.1
      → (r.0 ≡ ok none
          → Gated (str_eq call.request.capability cap_mail_send) call.guard.character_id r.1)
      → kept_count (mail_of digest call r) + log_count w
        ≤ log_count (g_resume r (proceed digest call.request call.esi)).1.1
  answered-counts call (err e, s) w tooled out mild gated = rw (mild.logged.log) (omega arith)
  answered-counts call (ok (some p), s) w tooled out mild gated =
      subst (λ x. 0 + log_count w ≤ log_count x) (sym (shown-world call.request call.esi p s))
        (rw (mild.logged.log) (omega arith))
  answered-counts call (ok none, (g, v)) w tooled out mild gated =
      let h = sent_counts call.request call.esi g v tooled (mild.logged.tx ∙ out) (
        subst (λ x. Gated (str_eq call.request.capability cap_mail_send) x (g, v)) (sym mild.owner)
          (gated refl)) in
      let q = record_write digest (log_of call.request call.esi) (g, v) in
      let mail = is_mail_call call in
      subst
        (λ x.
          kept_count (listed mail call.guard.character_id call.time q.0) + log_count w
          ≤ log_count x.1)
        (sym (proceed-state call.request call.esi (g, v)))
        (subst (λ n. kept_count (listed mail n call.time q.0) + log_count w ≤ log_count q.1.1)
          mild.owner
          (subst
            (λ n. kept_count (listed mail g.character_id n q.0) + log_count w ≤ log_count q.1.1)
            mild.logged.clock
            (subst
              (λ rows.
                kept_count (listed mail g.character_id v.now q.0)
                  + count (in_hour_from c start) rows
                ≤ log_count q.1.1)
              mild.logged.log h)))

  served-counts :
      (call : Call) (w : World)
      → Tooled call.request
      → w.in_tx ≡ false
      → kept_count (mail_of digest call (asked digest call w)) + log_count w
        ≤ log_count (serve digest call w)
  unfolding serve perform
  served-counts call w tooled out =
      let v = record w { now = call.time; fault = call.fault } in
      answered-counts call (asked digest call w) w tooled out
        (authorize-Mild digest call.fresh call.request (call.guard, v))
        (λ e. (authorize-Granted digest call.fresh call.request call.guard v out e).gated)

  serve-Sound_log :
      (call : Call) (w : World) → Tooled call.request → Sound c w → Sound c (serve digest call w)
  unfolding serve
  serve-Sound_log call w tooled h =
      perform-Sound digest call.request call.esi c tooled call.fresh call.guard
        (record w { now = call.time; fault = call.fault }) h

  mails_of-counts :
      (calls : List Call) (w : World)
      → AllTooled calls
      → Sound c w
      → kept_count (mails_of digest calls w) + log_count w ≤ log_count (serve_all digest calls w)
  unfolding mails_of serve_all
  mails_of-counts [] w tooled h = omega arith
  mails_of-counts (call ∷ calls) w tooled h = omega (
    arith,
    count-append (is_kept_in c start) (mail_of digest call (asked digest call w))
        (mails_of digest calls (serve digest call w)),
    served-counts call w tooled.0 h.1,
    mails_of-counts calls (serve digest call w) tooled.1 (serve-Sound_log call w tooled.0 h),
  )

  -- Whatever calls are served one after another outside a transaction, at whatever times, by
  -- whatever sessions, with whatever failures of the database and of ESI: if the sending tool asks
  -- for the sending capability and the audit log began capped, then in any hour, both its ends
  -- included, a character has sent at most five mails and one for each of its mails in that hour
  -- whose record failed.
  pub mails_limit :
      (calls : List Call) (w : World)
      → AllTooled calls
      → w.in_tx ≡ false
      → Capped mail_cap c w.db.mutations
      → count (in_hour c start) (mails_of digest calls w)
        ≤ 5 + count (is_lost_in c start) (mails_of digest calls w)
  mails_limit calls w tooled out capped = omega (
    arith,
    count-split c start (mails_of digest calls w),
    mails_of-counts calls w tooled (capped, out),
    log_limit digest c calls w start tooled out capped,
  )
