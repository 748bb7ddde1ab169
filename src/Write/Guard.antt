-- ===== src/Write/Guard.antt =====
-- internal/domain/write/guard.go and persist.go, with the `guardPersist` of
-- internal/usecase/session/persist.go that joins the guard to the repositories: the confirm cycle,
-- the mail cap and the audit record of a write. The texts that a refusal shows are left out.
pub mod Monad
pub mod Frames
pub mod Still
pub mod Consent
pub mod Cap
pub mod Granted
use Monad.{Guard, G, lift, g_pure, g_raise, get_hold, set_hold, attempt, ◌>>=◌, ◌>>◌}
use eve_online_mcp.Prelude.{
  ℕ, suc, ◌+◌, ◌-◌, ◌/◌, String, Bool, true, false, ◌&&◌, not, Option, none, some, List, [], ◌∷◌,
  if◌then◌else◌, ltb, leb, ◌==◌, str_eq, contains,
}
use eve_online_mcp.Domain.{
  second, Error, Confirm, Mutation, confirm_unknown, confirm_args, confirm_tool, unknown_capability,
  missing_write_scope, mail_hold_abandoned,
}
use eve_online_mcp.Store.{World, Result, ok, err, M}
use eve_online_mcp.Repo.Confirms
use eve_online_mcp.Repo.Mutations
use eve_online_mcp.Repo.Mutations.{MailCapHold}
use eve_online_mcp.Write.Policy.{
  Capability, capability, capability_names, not_granted, mail_cap, confirm_ttl, cap_mail_send,
}
use eve_online_mcp.Write.Summary.{Args, summarize, truncate, audit_field_max}

-- write.Authz
pub record Authz : Type 0 where
  pub tool : String
  pub capability : String
  pub args : Args
  pub preview : Args
  pub token : String
  pub scopes : List String

-- The preview that `Decision.Required` holds.
pub record Preview : Type 0 where
  pub tool : String
  pub capability : String
  pub will_do : Args
  pub confirm_token : String
  pub expires_in_seconds : ℕ

-- write.Decision: `none` is the leave to go ahead.
abbrev pub Decision : Type 0
Decision = Option Preview

-- write.Record
pub record Record : Type 0 where
  pub tool : String
  pub capability : String
  pub args : Args
  pub outcome : String
  pub esi_status : ℕ
  pub error : String

unfoldable pub known : Option Capability → G (Unit {0})
known none = g_raise unknown_capability
known (some c) = g_pure tt

unfoldable pub check_capability : String → G (Unit {0})
unfolding known
check_capability name = known (capability name)

-- An unknown capability needs no scope here, as the zero value of the map's element has none.
unfoldable pub needed_scopes : String → List String
needed_scopes name = elim (capability name) [ none ↦ [] | some c ↦ c.scopes ]

unfoldable pub none_missing : List String → G (Unit {0})
none_missing [] = g_pure tt
none_missing (s ∷ missing) = g_raise missing_write_scope

unfoldable pub check_scope : String → List String → G (Unit {0})
unfolding needed_scopes none_missing
check_scope name granted = none_missing (not_granted granted (needed_scopes name))

-- The hold is dropped whatever its release answers.
unfoldable pub release_held : Option Error → Option MailCapHold → G (Unit {0})
release_held e none = g_pure tt
release_held e (some h) = set_hold none >> lift (Mutations.release_hold e h)

unfoldable pub release_mail_hold : Option Error → G (Unit {0})
unfolding release_held
release_mail_hold e (g, w) = release_held e g.mail_hold (g, w)

-- A failed release is logged and forgotten.
unfoldable pub drop_hold : Error → G (Unit {0})
unfolding release_mail_hold
drop_hold e = attempt (release_mail_hold (some e)) >>= λ _. g_pure tt

-- The refusal, with its counter.
unfoldable pub mail_cap_blocked : {A : Type 0} → G A
mail_cap_blocked (g, w) =
    (err Error.mail_cap, (g, record w { mail_cap_rejections = suc w.mail_cap_rejections }))

unfoldable pub judge_count : ℕ → G (Unit {0})
unfolding mail_cap_blocked
judge_count n = if leb mail_cap n then mail_cap_blocked else g_pure tt

unfoldable pub check_mail_cap : G (Unit {0})
unfolding judge_count
check_mail_cap (g, w) = (lift (Mutations.count_mail_cap g.character_id) >>= judge_count) (g, w)

unfoldable pub admit_hold : MailCapHold → G (Unit {0})
unfolding mail_cap_blocked
admit_hold h =
    if leb mail_cap h.count
    then attempt (lift (Mutations.release_hold (some Error.mail_cap) h)) >> mail_cap_blocked
    else set_hold (some h)

unfoldable pub hold_mail_cap : G (Unit {0})
unfolding admit_hold
hold_mail_cap (g, w) = (lift (Mutations.hold_mail_cap g.character_id) >>= admit_hold) (g, w)

unfoldable pub gate_mail_cap : Authz → G (Unit {0})
unfolding hold_mail_cap check_mail_cap
gate_mail_cap in_ =
    if not (str_eq in_.capability cap_mail_send)
    then g_pure tt
    else if not (str_eq in_.token "")
    then hold_mail_cap
    else check_mail_cap

-- `guardPersist.GetConfirm` answers no row on any error, and the guard tests the row first.
unfoldable pub found_confirm : Result Confirm → G Confirm
found_confirm (ok c) = g_pure c
found_confirm (err e) = g_raise confirm_unknown

unfoldable pub pending_confirm : String → G Confirm
unfolding found_confirm
pending_confirm token = attempt (lift (Confirms.get token)) >>= found_confirm

-- What the tests of the row say: let it pass, refuse the call, or refuse it and discard the token.
pub data Verdict : Type 0 where
  pass : Verdict
  refuse discard : Error → Verdict

unfoldable pub verdict : Guard → ℕ → Confirm → String → String → Verdict
verdict g now pending tool digest =
    if not (pending.session_id == g.session_id)
    then refuse confirm_unknown
    else if ltb (pending.created_at + confirm_ttl) now
    then discard confirm_unknown
    else if not (str_eq pending.tool tool)
    then refuse confirm_tool
    else if not (str_eq pending.args_digest digest)
    then discard confirm_args
    else pass

-- A token that passes is consumed; where the deletion fails, its error is the answer.
unfoldable pub enforce : String → Verdict → G (Unit {0})
enforce token pass = lift (Confirms.delete token)
enforce token (refuse e) = g_raise e
enforce token (discard e) = lift (Confirms.delete token) >> g_raise e

unfoldable pub judge_confirm : String → String → String → Confirm → G (Unit {0})
unfolding verdict enforce
judge_confirm tool digest token pending (g, w) =
    enforce token (verdict g w.now pending tool digest) (g, w)

unfoldable pub consume_confirm : String → String → String → G (Unit {0})
unfolding pending_confirm judge_confirm
consume_confirm tool digest token = pending_confirm token >>= judge_confirm tool digest token

unfoldable pub conclude : Result (Unit {0}) → G Decision
unfolding drop_hold
conclude (ok _) = g_pure none
conclude (err e) = drop_hold e >> g_raise e

unfoldable pub confirm_write : Authz → String → G Decision
unfolding consume_confirm conclude
confirm_write in_ digest = attempt (consume_confirm in_.tool digest in_.token) >>= conclude

unfoldable pub confirm_of : String → Guard → ℕ → Authz → String → Confirm
confirm_of fresh g now in_ digest = record {
  value = fresh;
  session_id = g.session_id;
  tool = in_.tool;
  args_digest = digest;
  created_at = now;
  expires_at = 0;
}

unfoldable pub preview_of : String → Authz → Preview
preview_of fresh in_ = record {
  tool = in_.tool;
  capability = in_.capability;
  will_do = in_.preview;
  confirm_token = fresh;
  expires_in_seconds = confirm_ttl / second;
}

-- `fresh` is what `randomToken` draws; the drawing itself does not fail.
unfoldable pub preview_write : String → Authz → String → G Decision
unfolding confirm_of preview_of
preview_write fresh in_ digest (g, w) =
    (lift (Confirms.put (confirm_of fresh g w.now in_ digest))
        >> g_pure (some (preview_of fresh in_)))
      (g, w)

-- The end of `Guard.Authorize`, by the digest of the arguments.
unfoldable pub decide : String → Authz → Result String → G Decision
unfolding drop_hold confirm_write preview_write
decide fresh in_ (err e) = drop_hold e >> g_raise e
decide fresh in_ (ok d) =
    if not (str_eq in_.token "") then confirm_write in_ d else preview_write fresh in_ d

unfoldable pub append_by : Option MailCapHold → Mutation → G (Unit {0})
append_by none m = lift (Mutations.append m)
append_by (some h) m = lift (Mutations.append_held m h) >>= λ h'. set_hold (some h')

-- What a record does after its append: the error of the append comes before that of the release.
unfoldable pub after_append : Result (Unit {0}) → G (Unit {0})
unfolding release_mail_hold
after_append (ok _) = release_mail_hold none
after_append (err e) = attempt (release_mail_hold (some e)) >> g_raise e

-- `digest` is `digestArgs`: the JSON of the arguments and the head of its SHA-256, or a failure.
-- `fresh` is the token that a preview would draw.
module _ (digest : Args → Result String) where
  -- `Guard.Authorize` behind the tests of the capability, the scopes and the mail cap.
  unfoldable pub authorize_gated : String → Authz → G Decision
  unfolding decide
  authorize_gated fresh in_ = decide fresh in_ (digest in_.args)

  unfoldable pub authorize : String → Authz → G Decision
  unfolding drop_hold check_capability check_scope gate_mail_cap authorize_gated
  authorize fresh in_ = do
    drop_hold mail_hold_abandoned
    check_capability in_.capability
    check_scope in_.capability in_.scopes
    gate_mail_cap in_
    authorize_gated fresh in_

  unfoldable pub mutation_of : Guard → Record → String → Mutation
  mutation_of g rec d = record {
    character_id = g.character_id;
    session_id = g.session_id;
    tool = rec.tool;
    capability = rec.capability;
    args_digest = d;
    summary = truncate (summarize rec.tool rec.args) audit_field_max;
    outcome = if str_eq rec.outcome "" then "ok" else rec.outcome;
    esi_status = rec.esi_status;
    error = truncate rec.error audit_field_max;
  }

  unfoldable pub append_digested : Record → Result String → G (Unit {0})
  unfolding append_by mutation_of
  append_digested rec (err e) s = (err e, s)
  append_digested rec (ok d) (g, w) = append_by g.mail_hold (mutation_of g rec d) (g, w)

  -- `appendRecord`, outside a hold or by `MailCapHold.Do` of one.
  unfoldable pub append_record : Record → G (Unit {0})
  unfolding append_digested
  append_record rec = append_digested rec (digest rec.args)

  unfoldable pub record_write : Record → G (Unit {0})
  unfolding append_record after_append
  record_write rec = attempt (append_record rec) >>= after_append

-- The numbers of `Guard.Status`: a count that fails reads as 0.
pub record Status : Type 0 where
  pub capabilities : List String
  pub mails_last_hour : ℕ
  pub mails_remaining_this_hour : ℕ
  pub pending_confirmations : ℕ

abbrev or_zero : Result ℕ → ℕ
or_zero (ok n) = n
or_zero (err e) = 0

unfoldable pub status : G Status
status (g, w) =
    (do
      mails ← attempt (lift (Mutations.count_mail_cap g.character_id))
      pending ← attempt (lift (Confirms.count_live g.session_id))
      g_pure (record {
        capabilities = capability_names;
        mails_last_hour = or_zero mails;
        mails_remaining_this_hour = mail_cap - or_zero mails;
        pending_confirmations = or_zero pending;
      }))
      (g, w)
