-- ===== src/Tests/Desks.antt =====
-- Runs of the writing tools of internal/usecase/eve and of the look-up of names.
use eve_online_mcp.Prelude.{◌≡◌, refl, true, false, some, List, [], ◌∷◌, contains}
use eve_online_mcp.Store.{World, ok}
use eve_online_mcp.Write.Summary.{Value}
use eve_online_mcp.Esi.Lookup.{
  NameMatch, Found, bucket, rank_of, resolved, fold, pick_name_resolutions,
}
use eve_online_mcp.Esi.Lookup.Best.{Best, pick_name_resolutions-Best}
use eve_online_mcp.Tools.{Net, Desk, Reply}
use eve_online_mcp.Tools.Pick.{Resolved, pick, judge_picked, nothing_picked}
use eve_online_mcp.Tools.Pick.Clear.{Clear, judge_picked-Clear}
use eve_online_mcp.Tools.Mail.{MailSendIn, eve_mail_send, entities}
use eve_online_mcp.Tools.Mail.Priced.{Paid, eve_mail_send-Paid}
use eve_online_mcp.Tools.Contacts.{
  ContactOp, Verb, ApplyResult, plan_contact_set, build_contact_ops, empty_plan, apply_contact_ops,
  nothing_applied, partly_applied,
}
use eve_online_mcp.Tools.Contacts.Ops.{FitsAll, build_contact_ops-Fits}
use eve_online_mcp.Tools.Contacts.Told.{Told, apply_contact_ops-Told}
use eve_online_mcp.Tools.Sends.{Sends}
use eve_online_mcp.Tools.Sound.{Sound}
use eve_online_mcp.Tests.Samples.{sample_guard, sample_digest}
use eve_online_mcp.Tests.Rounds.{full_db, known}

-- A corporation that has the name of a character, listed before it.
abbrev namesakes : Found
namesakes =
    ("corporations", record { id = 98; name = "Ann" } ∷ [])
    ∷ ("characters", record { id = 91; name = "Ann" } ∷ record { id = 92; name = "Bob" } ∷ [])
    ∷ []

abbrev only_bob : Found
only_bob = ("characters", record { id = 92; name = "Bob" } ∷ []) ∷ []

-- A client of ESI that answers at once, and fails to add contacts.
abbrev sample_net : Net
sample_net = record {
  send = λ w world. elim w.method [
    | eve_online_mcp.Tools.Method.post ↦ (Reply.failed 420 "no", world)
    | _ ↦ (Reply.answered (Value.int 1), world)
  ];
  universe_ids = λ names w. (ok only_bob, w);
  name = λ v b w. (ok "Bob", w);
  mail_header = λ c m w.
      (ok (record { from = 92; subject = Value.text "hi"; timestamp = Value.text "now" }), w);
  event = λ c e w. (
    ok (record {
      title = Value.text "fleet";
      date = Value.text "now";
      owner_name = Value.text "Bob";
    }),
    w,
  );
  fittings = λ c w. (ok [], w);
  contacts = λ c w. (ok (92 ∷ []), w);
  structures = λ c s w. (ok [], w);
  cspa = λ c ids w. (ok (some (record { whole = 5; more = true; shown = Value.int 5 })), w);
  lower = λ s. s;
  quote = λ s. s;
  int_of = λ s. Value.int 0;
  fitting_id_of = λ v. v;
}

-- A session with every scope, and its consent to a mail.
abbrev desk : Desk
desk = record { guard = sample_guard; world = full_db; sent = []; asked = [] }

abbrev letter : MailSendIn
letter = record {
  to = "Bob" ∷ [];
  subject = "hi";
  body = "there";
  approved_cost = 6;
  confirm_token = "token";
}

eve_mail_send-Paid_example :
    Sends 1
      (Paid sample_net letter desk)
      desk
      (eve_mail_send sample_net sample_digest "fresh" letter desk).1
eve_mail_send-Paid_example = eve_mail_send-Paid sample_net sample_digest "fresh" letter desk

-- The mail is sent, though ESI refuses it.
letter_sent :
    (eve_mail_send sample_net sample_digest "fresh" letter desk).1.sent
    ≡ record {
      method = eve_online_mcp.Tools.Method.post;
      path = "characters" ∷ "90" ∷ "mail" ∷ [];
      character_id = 90;
      params = [];
      body = eve_online_mcp.Tools.Body.fields (
          ("recipients", Value.slice 1 "[map[recipient_id:92 recipient_type:character]]")
          ∷ ("subject", Value.text "hi")
          ∷ ("body", Value.text "there")
          ∷ ("approved_cost", Value.int 6)
          ∷ []);
    }
      ∷ []
unfolding eve_mail_send eve_online_mcp.Session.character eve_online_mcp.Repo.Sessions.live_by_id
    eve_online_mcp.Store.sql eve_online_mcp.Repo.Sessions.live_by_id_sql
    eve_online_mcp.Repo.Characters.get eve_online_mcp.Repo.Characters.get_sql
    eve_online_mcp.Grant.revoke_if_scopes_fall_short eve_online_mcp.Write.Policy.missing_scopes
    eve_online_mcp.Write.Policy.requested_scopes eve_online_mcp.Write.Guard.authorize
    eve_online_mcp.Repo.Mutations.hold_mail_cap eve_online_mcp.Repo.Mutations.count_mail_cap
    eve_online_mcp.Repo.Mutations.with_mail_cap eve_online_mcp.Store.within_tx
    eve_online_mcp.Repo.Mutations.count_mail_cap_sql eve_online_mcp.Repo.Confirms.get
    eve_online_mcp.Repo.Confirms.get_sql eve_online_mcp.Repo.Confirms.delete
    eve_online_mcp.Repo.Confirms.delete_sql
letter_sent = refl

abbrev ann : NameMatch
ann = record { id = 91; name = "Ann"; category = "characters"; kind = "character" }

abbrev guild : NameMatch
guild = record { id = 98; name = "Ann"; category = "corporations"; kind = "corporation" }

abbrev bob : NameMatch
bob = record { id = 92; name = "Bob"; category = "characters"; kind = "character" }

names_ann : contains ("Bob" ∷ "Ann" ∷ []) "Ann" ≡ true
unfolding contains
names_ann = refl

pick_name_resolutions-Best_example :
    Best (rank_of entities) (bucket (λ s. s) entities namesakes (fold (λ s. s) "Ann")) (
      resolved
        (λ s. s)
        (pick_name_resolutions
          (λ s. s)
          ("Bob" ∷ "Ann" ∷ [])
          (bucket (λ s. s) entities namesakes)
          (rank_of entities)
          [])
        (fold (λ s. s) "Ann"))
pick_name_resolutions-Best_example =
    pick_name_resolutions-Best (rank_of entities) (λ s. s) (bucket (λ s. s) entities namesakes)
      ("Bob" ∷ "Ann" ∷ []) "Ann" [] names_ann

build_contact_ops-Fits_example : FitsAll (92 ∷ []) (guild ∷ bob ∷ []) true (
    build_contact_ops
      (plan_contact_set (guild ∷ bob ∷ []) (92 ∷ []) empty_plan).updating
      (plan_contact_set (guild ∷ bob ∷ []) (92 ∷ []) empty_plan).neu
      true
      (plan_contact_set (guild ∷ bob ∷ []) (92 ∷ []) empty_plan).watchable)
build_contact_ops-Fits_example = build_contact_ops-Fits (92 ∷ []) (guild ∷ bob ∷ []) true

abbrev two_ops : List ContactOp
two_ops =
    record { verb = Verb.update; ids = 92 ∷ []; watched = true }
    ∷ record { verb = Verb.add; ids = 98 ∷ []; watched = false }
    ∷ []

abbrev half_done : ApplyResult
half_done =
    ApplyResult.partial
      (partly_applied (Value.other "5") 420 (record { updated = 92 ∷ []; added = [] }))

abbrev after_ops : Desk
after_ops =
    (apply_contact_ops sample_net sample_digest "fresh" known (Value.other "5") two_ops
      nothing_applied desk).1

half_done_runs :
    apply_contact_ops sample_net sample_digest "fresh" known
      (Value.other "5")
      two_ops
      nothing_applied
      desk
    ≡ (ok half_done, after_ops)
unfolding apply_contact_ops
half_done_runs = refl

apply_contact_ops-Told_example :
    Told sample_net sample_digest "fresh" known
      (Value.other "5")
      two_ops
      nothing_applied
      half_done
      desk
      after_ops
apply_contact_ops-Told_example =
    apply_contact_ops-Told sample_net sample_digest "fresh" known (Value.other "5") two_ops
      nothing_applied desk after_ops half_done half_done_runs

picked_bob :
    judge_picked sample_net (
      pick
        (λ s. s)
        ("Bob" ∷ " Bob" ∷ [])
        (pick_name_resolutions
          (λ s. s)
          ("Bob" ∷ " Bob" ∷ [])
          (bucket (λ s. s) entities only_bob)
          (rank_of [])
          [])
        nothing_picked)
    ≡ Resolved.found (bob ∷ [])
unfolding judge_picked pick pick_name_resolutions bucket
picked_bob = refl

judge_picked-Clear_example :
    Clear
      (λ s. s)
      (pick_name_resolutions
        (λ s. s)
        ("Bob" ∷ " Bob" ∷ [])
        (bucket (λ s. s) entities only_bob)
        (rank_of [])
        [])
      ("Bob" ∷ " Bob" ∷ [])
      (bob ∷ [])
judge_picked-Clear_example =
    judge_picked-Clear (λ s. s)
      (pick_name_resolutions (λ s. s) ("Bob" ∷ " Bob" ∷ []) (bucket (λ s. s) entities only_bob)
        (rank_of []) [])
      sample_net ("Bob" ∷ " Bob" ∷ []) (bob ∷ []) picked_bob
