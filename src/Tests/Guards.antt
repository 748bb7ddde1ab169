-- ===== src/Tests/Guards.antt =====
-- Runs of the write guard: internal/domain/write/guard.go and internal/usecase/eve/record.go.
use eve_online_mcp.Prelude.{
  ℕ, suc, List, ◌≡◌, ◌≢◌, ◌+◌, ◌≤◌, refl, Bool, true, false, none, some, [], ◌∷◌, count, ap, arith,
  sym, ◌∙◌,
}
use eve_online_mcp.Store.{World, ok, sql, within_tx}
use eve_online_mcp.Repo.Mutations
use eve_online_mcp.Repo.Mutations.{in_last_hour, refers}
use eve_online_mcp.Repo.Confirms
use eve_online_mcp.Write.Policy
use eve_online_mcp.Write.Guard.Monad.{Guard}
use eve_online_mcp.Write.Guard.{
  authorize, verdict, pass, pending_confirm, judge_confirm, mutation_of, record_write,
}
use eve_online_mcp.Write.Guard.Consent.{Confirmed, authorize-Confirmed, single_use}
use eve_online_mcp.Write.Guard.Granted.{Granted, authorize-Granted}
use eve_online_mcp.Write.Call.{Call}
use eve_online_mcp.Write.Call.Mails.{in_hour, is_lost_in, mails_of}
use eve_online_mcp.Write.Call.Mails.Counted.{mails_limit}
use eve_online_mcp.Write.Call.Races.{double_spend, interleaved_record}
use eve_online_mcp.Tests.Samples.{
  consent, sample_digest, send_mail, mark_mail, sent, sample_guard, calm, busy,
}

abbrev after_send : Guard × World
after_send = (authorize sample_digest "fresh" send_mail (sample_guard, busy)).1

abbrev after_mark : Guard × World
after_mark = (authorize sample_digest "fresh" mark_mail after_send).1

send_mail_runs : (authorize sample_digest "fresh" send_mail (sample_guard, calm)).0 ≡ ok none
unfolding authorize Policy.capability Policy.not_granted eve_online_mcp.Prelude.contains
    Mutations.hold_mail_cap sql Mutations.count_mail_cap Mutations.with_mail_cap within_tx
    Mutations.count_mail_cap_sql Confirms.get Confirms.get_sql Confirms.delete Confirms.delete_sql
send_mail_runs = refl

mark_mail_runs : authorize sample_digest "fresh" mark_mail after_send ≡ (ok none, after_mark)
unfolding authorize Policy.capability Policy.not_granted eve_online_mcp.Prelude.contains
    Confirms.get sql Mutations.hold_mail_cap Mutations.count_mail_cap Mutations.with_mail_cap
    within_tx Mutations.count_mail_cap_sql Confirms.get_sql Confirms.delete Confirms.delete_sql
    Mutations.release_hold
mark_mail_runs = refl

-- A guard that holds a place for its mail has lost it when it served the other request.
hold_lost : after_mark.0.mail_hold ≡ none
unfolding authorize Policy.capability Policy.not_granted eve_online_mcp.Prelude.contains
    Confirms.get sql Mutations.hold_mail_cap Mutations.count_mail_cap Mutations.with_mail_cap
    within_tx Mutations.count_mail_cap_sql Confirms.get_sql Confirms.delete Confirms.delete_sql
    Mutations.release_hold
hold_lost = refl

never_fails : (n : ℕ) → after_mark.1.fault n ≡ false
unfolding authorize Policy.capability Policy.not_granted eve_online_mcp.Prelude.contains
    Confirms.get sql Mutations.hold_mail_cap Mutations.count_mail_cap Mutations.with_mail_cap
    within_tx Mutations.count_mail_cap_sql Confirms.get_sql Confirms.delete Confirms.delete_sql
    Mutations.release_hold
never_fails n = refl

known_rows : refers (mutation_of sample_digest after_mark.0 sent "digest") after_mark.1.db ≡ true
unfolding authorize mutation_of refers Mutations.character_exists Policy.capability
    Policy.not_granted eve_online_mcp.Prelude.contains Confirms.get sql Mutations.hold_mail_cap
    Mutations.count_mail_cap Mutations.with_mail_cap within_tx Mutations.count_mail_cap_sql
    Confirms.get_sql Confirms.delete Confirms.delete_sql Mutations.release_hold
    Confirms.session_exists
known_rows = refl

still_outside : after_send.1.in_tx ≡ false
unfolding authorize Policy.capability Policy.not_granted eve_online_mcp.Prelude.contains
    Mutations.hold_mail_cap sql Mutations.count_mail_cap Mutations.with_mail_cap within_tx
    Mutations.count_mail_cap_sql Confirms.get Confirms.get_sql Confirms.delete Confirms.delete_sql
still_outside = refl

consent_passes : verdict sample_guard calm.now consent "eve_mail_send" "digest" ≡ pass
unfolding verdict
consent_passes = refl

abbrev two_calls : List Call
two_calls =
    record {
      guard = sample_guard;
      time = 200;
      fault = λ n. false;
      fresh = "fresh";
      request = send_mail;
      esi = none;
    }
    ∷ record {
      guard = sample_guard;
      time = 300;
      fault = λ n. false;
      fresh = "fresh";
      request = mark_mail;
      esi = some (500, "no");
    }
    ∷ []

mails_limit_example :
    count (in_hour 90 150) (mails_of sample_digest two_calls busy)
    ≤ 5 + count (is_lost_in 90 150) (mails_of sample_digest two_calls busy)
mails_limit_example =
    mails_limit sample_digest 90 150 two_calls busy ((λ h. refl), ((λ h. ground arith), tt)) refl tt

authorize-Confirmed_example :
    Confirmed sample_digest send_mail sample_guard calm
      (authorize sample_digest "fresh" send_mail (sample_guard, calm)).1.1
authorize-Confirmed_example =
    authorize-Confirmed sample_digest "fresh" send_mail sample_guard calm send_mail_runs

single_use_example :
    (authorize sample_digest "again" send_mail (
      sample_guard,
      record ((authorize sample_digest "fresh" send_mail (sample_guard, calm)).1.1) {
        now = 400;
        fault = λ n. false;
      },
    )).0
    ≢ ok none
single_use_example =
    single_use sample_digest "fresh" "again" send_mail send_mail sample_guard sample_guard calm 400
      (λ n. false) refl send_mail_runs

authorize-Granted_example :
    Granted send_mail
      (sample_guard, calm)
      (authorize sample_digest "fresh" send_mail (sample_guard, calm)).1
authorize-Granted_example =
    authorize-Granted sample_digest "fresh" send_mail sample_guard calm refl send_mail_runs

double_spend_example :
    (let a = pending_confirm "token" (sample_guard, calm) in
      let b = pending_confirm "token" (sample_guard, a.1.1) in
      let a' = judge_confirm "eve_mail_send" "digest" "token" consent (sample_guard, b.1.1) in
      let b' = judge_confirm "eve_mail_send" "digest" "token" consent (sample_guard, a'.1.1) in
      (a.0 ≡ ok consent) × (b.0 ≡ ok consent) × (a'.0 ≡ ok tt) × (b'.0 ≡ ok tt))
double_spend_example =
    double_spend "eve_mail_send" "digest" "token" sample_guard consent calm (λ n. refl) refl
      consent_passes

interleaved_record_example :
    count
      (in_last_hour after_mark.0.character_id after_mark.1.now)
      (record_write sample_digest sent after_mark).1.1.db.mutations
    ≡ suc
        (count (in_last_hour after_mark.0.character_id after_mark.1.now) after_send.1.db.mutations)
interleaved_record_example =
    interleaved_record sample_digest "fresh" "digest" mark_mail sent after_send.0 after_send.1
      after_mark still_outside mark_mail_runs refl never_fails refl known_rows refl refl
