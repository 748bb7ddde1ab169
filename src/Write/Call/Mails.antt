-- ===== src/Write/Call/Mails.antt =====
-- The mail cap over whole calls: the mails that the calls of internal/usecase/eve/record.go sent, and
-- those among them whose record in the audit log failed.
pub mod Recorded
pub mod Counted
use eve_online_mcp.Prelude.{
  ℕ, ◌+◌, ◌≤◌, ◌≡◌, refl, sym, ◌∙◌, ap, subst, inl, inr, String, Bool, true, false, none, some,
  Option, List, [], ◌∷◌, ◌++◌, ◌&&◌, not, arith, str_eq, count, leb, ◌==◌, Bool-cases,
  if◌then◌else◌,
}
use eve_online_mcp.Domain.{Error, hour, MutationRow, Mutation}
use eve_online_mcp.Store.{World, Result, ok, err}
use eve_online_mcp.Repo.Mutations
use eve_online_mcp.Repo.Mutations.{MailCapHold, is_mail_since, row_of, tool_mail_send}
use eve_online_mcp.Repo.Mutations.Window.{Capped, in_hour_from, count-in_hour_from-le}
use eve_online_mcp.Write.Policy.{cap_mail_send, mail_cap}
use eve_online_mcp.Write.Summary.{Args}
use eve_online_mcp.Write.Guard.Monad.{Guard, g_resume}
use eve_online_mcp.Write.Guard.{
  Authz, Decision, Preview, authorize, append_record, append_by, after_append, append_digested,
  record_write, mutation_of,
}
use eve_online_mcp.Write.Guard.Frames.{Mild}
use eve_online_mcp.Write.Guard.Cap.{Gated}
use eve_online_mcp.Write.Guard.Granted.{authorize-Granted, authorize-Mild}
use eve_online_mcp.Write.Call.{EsiOutcome, log_of, proceed, perform, Call, serve, serve_all}
use eve_online_mcp.Write.Call.Append.{
  Extends, append_by-recorded, append_by-held, append_by-free, after_append-failed,
}
use eve_online_mcp.Write.Call.Capped.{Tooled, AllTooled, Sound, perform-Sound, log_limit}

-- A mail that was sent: by which character, when, and whether its record went through.
pub record Mail : Type 0 where
  pub character : ℕ
  pub at : ℕ
  pub recorded : Bool

abbrev pub in_hour : ℕ → ℕ → Mail → Bool
in_hour c start m = (m.character == c) && (leb start m.at && leb m.at (start + hour))

-- A mail of the hour whose record went through, and one whose record failed.
abbrev pub is_kept_in : ℕ → ℕ → Mail → Bool
is_kept_in c start m = m.recorded && in_hour c start m

abbrev pub is_lost_in : ℕ → ℕ → Mail → Bool
is_lost_in c start m = not m.recorded && in_hour c start m

abbrev pub went_through : Result (Unit {0}) → Bool
went_through (ok _) = true
went_through (err e) = false

-- ESI took it.
abbrev pub was_taken : EsiOutcome → Bool
was_taken none = true
was_taken (some e) = false

abbrev pub is_mail_call : Call → Bool
is_mail_call call = str_eq call.request.tool tool_mail_send && was_taken call.esi

module _ (digest : Args → Result String) where
  -- The mail of a call, on what its guard says.
  abbrev pub mail_of : Call → Result Decision × (Guard × World) → List Mail
  mail_of call (ok none, s) =
      if is_mail_call call
      then record {
        character = call.guard.character_id;
        at = call.time;
        recorded = went_through (record_write digest (log_of call.request call.esi) s).0;
      }
        ∷ []
      else []
  mail_of call (ok (some preview), s) = []
  mail_of call (err e, s) = []

  abbrev pub asked : Call → World → Result Decision × (Guard × World)
  asked call w =
      authorize digest call.fresh call.request
        (call.guard, record w { now = call.time; fault = call.fault })

  -- The mails that some calls send, one after another.
  unfoldable pub mails_of : List Call → World → List Mail
  mails_of [] w = []
  mails_of (call ∷ calls) w = mail_of call (asked call w) ++ mails_of calls (serve digest call w)

pub count-split :
    (c start : ℕ) (ms : List Mail)
    → count (in_hour c start) ms ≡ count (is_kept_in c start) ms + count (is_lost_in c start) ms
count-split c start [] = refl
count-split c start (m ∷ ms) = ground (arith, count-split c start ms)

pub count-append :
    (p : Mail → Bool) (xs ys : List Mail) → count p (xs ++ ys) ≡ count p xs + count p ys
count-append p [] ys = omega arith
count-append p (x ∷ xs) ys = ground (arith, count-append p xs ys)
