-- ===== src/Tools/Mail.antt =====
-- internal/usecase/eve/writes_mail.go: marking, deleting and sending a mail, with the price of
-- its CSPA charges.
pub mod Priced
use eve_online_mcp.Prelude.{
  ℕ, String, Bool, true, false, not, ◌&&◌, ◌||◌, Option, none, some, List, [], ◌∷◌, map,
  if◌then◌else◌, ltb, ◌==◌, str_eq, length, filter,
}
use eve_online_mcp.Domain.{
  Error, CharacterToken, validation, preview_read, cspa_unpriced, cspa_exceeds,
}
use eve_online_mcp.Store.{Result, ok, err}
use eve_online_mcp.Write.Policy.{cap_mail_send, cap_mail_organize}
use eve_online_mcp.Write.Summary.{Args, Value, itoa, ◌++◌}
use eve_online_mcp.Esi.Lookup.{NameMatch}
use eve_online_mcp.Tools.{
  Net, T, Answer, Write, Method, Body, Amount, MailHeader, read, t_pure, t_raise, t_resume, ◌>>=◌,
  authz, my_character, carry_out, owned, bool_def,
}
use eve_online_mcp.Tools.Texts.{flag, slice_of, clip, byte_len}
use eve_online_mcp.Tools.Pick.{Resolved, resolve_matches}

pub record MailMarkIn : Type 0 where
  pub mail_id : ℕ
  pub read : Option Bool
  pub confirm_token : String

pub record MailDeleteIn : Type 0 where
  pub mail_id : ℕ
  pub confirm_token : String

pub record MailSendIn : Type 0 where
  pub to : List String
  pub subject : String
  pub body : String
  pub approved_cost : ℕ
  pub confirm_token : String

abbrev pub mail_recipients_max : ℕ
mail_recipients_max = 20

abbrev pub cspa_recipients_max : ℕ
cspa_recipients_max = 100

abbrev pub mail_subject_max : ℕ
mail_subject_max = 1000

abbrev pub mail_body_max : ℕ
mail_body_max = 10000

abbrev pub entities : List String
entities = "characters" ∷ "corporations" ∷ "alliances" ∷ []

unfoldable pub recipient_type : String → String
recipient_type category =
    if str_eq category "characters"
    then "character"
    else if str_eq category "corporations"
    then "corporation"
    else if str_eq category "alliances"
    then "alliance"
    else ""

-- A recipient as `%v` writes its map.
unfoldable pub recipient_text : NameMatch → String
unfolding recipient_type itoa
recipient_text m =
    "map[recipient_id:" ++ itoa m.id ++ " recipient_type:" ++ recipient_type m.category ++ "]"

unfoldable pub recipient_name : NameMatch → String
recipient_name m = m.name ++ " (" ++ m.kind ++ ")"

abbrev pub is_character : NameMatch → Bool
is_character m = str_eq m.category "characters"

unfoldable pub character_ids : List NameMatch → List ℕ
character_ids matches = map (λ (m : NameMatch). m.id) (filter is_character matches)

unfoldable pub recipients : List NameMatch → Value
unfolding recipient_text slice_of
recipients matches = slice_of (map recipient_text matches)

unfoldable pub resolved_names : List NameMatch → Value
unfolding recipient_name slice_of
resolved_names matches = slice_of (map recipient_name matches)

-- `charge > float64(in.ApprovedCost)`
abbrev pub exceeds : Amount → ℕ → Bool
exceeds charge approved = ltb approved charge.whole || ((approved == charge.whole) && charge.more)

abbrev pub no_charge : Amount
no_charge = record { whole = 0; more = false; shown = Value.other "0" }

unfoldable pub mail_fields : MailSendIn → List NameMatch → Args
unfolding recipients clip
mail_fields in_ matches =
    ("recipients", recipients matches)
    ∷ ("subject", Value.text (clip mail_subject_max in_.subject))
    ∷ ("body", Value.text (clip mail_body_max in_.body))
    ∷ ("approved_cost", Value.int in_.approved_cost)
    ∷ []

unfoldable pub mail_preview : MailSendIn → CharacterToken → List NameMatch → Amount → Args
unfolding resolved_names clip
mail_preview in_ token matches charge =
    (
      "action",
      Value.text
          "SEND AN IN-GAME MAIL — another player will receive this and it cannot be recalled",
    )
    ∷ ("from", Value.text token.character_name)
    ∷ ("to", resolved_names matches)
    ∷ ("subject", Value.text (clip mail_subject_max in_.subject))
    ∷ ("body", Value.text (clip mail_body_max in_.body))
    ∷ ("approved_cspa_cost_isk", Value.int in_.approved_cost)
    ∷ ("priced_cspa_cost_isk", charge.shown)
    ∷ []

module _ (net : Net) where
  unfoldable pub priced : Result (Option Amount) → T Amount
  priced (err e) = t_raise preview_read
  priced (ok none) = t_raise cspa_unpriced
  priced (ok (some charge)) = t_pure charge

  unfoldable pub price_cspa : ℕ → List ℕ → T Amount
  unfolding priced
  price_cspa character_id [] d = (ok no_charge, d)
  price_cspa character_id (id ∷ ids) d =
      if ltb cspa_recipients_max (length (id ∷ ids))
      then (err (validation "to" "must have at most 100 character recipients to price CSPA"), d)
      else let (r, w) = net.cspa character_id (id ∷ ids) d.world in
        priced r (record d { world = w })

  module _ (digest : Args → Result String) (fresh : String) where
    unfoldable pub eve_mail_mark : MailMarkIn → T Answer
    unfolding carry_out my_character itoa
    eve_mail_mark in_ = my_character >>= λ token.
        let seen = bool_def in_.read true in
        let args = owned token (("mail_id", Value.int in_.mail_id) ∷ ("read", flag seen) ∷ []) in
        let preview =
          (
            "action",
            Value.text (
                "Mark mail #" ++ itoa in_.mail_id ++ " as " ++ (if seen then "read" else "unread")),
          )
          ∷ ("character", Value.text token.character_name)
          ∷ [] in
        carry_out net digest fresh
          (authz "eve_mail_mark" cap_mail_organize args preview in_.confirm_token token)
          (record {
            method = Method.put;
            path = "characters" ∷ itoa token.character_id ∷ "mail" ∷ itoa in_.mail_id ∷ [];
            character_id = token.character_id;
            params = [];
            body = Body.fields (("read", flag seen) ∷ []);
          })
          (λ v.
            ("status", Value.text "done")
            ∷ ("mail_id", Value.int in_.mail_id)
            ∷ ("read", flag seen)
            ∷ [])

    unfoldable pub delete_mail : MailDeleteIn → CharacterToken → MailHeader → String → T Answer
    unfolding carry_out itoa
    delete_mail in_ token mail sender =
        carry_out net digest fresh
          (authz "eve_mail_delete" cap_mail_organize
            (owned token (("mail_id", Value.int in_.mail_id) ∷ []))
            (("action", Value.text "Permanently delete a mail")
              ∷ ("character", Value.text token.character_name)
              ∷ ("subject", mail.subject)
              ∷ ("from", Value.text sender)
              ∷ ("timestamp", mail.timestamp)
              ∷ [])
            in_.confirm_token token)
          (record {
            method = Method.delete;
            path = "characters" ∷ itoa token.character_id ∷ "mail" ∷ itoa in_.mail_id ∷ [];
            character_id = token.character_id;
            params = [];
            body = Body.empty;
          })
          (λ v. ("status", Value.text "done") ∷ ("deleted_subject", mail.subject) ∷ [])

    unfoldable pub eve_mail_delete : MailDeleteIn → T Answer
    unfolding my_character delete_mail
    eve_mail_delete in_ = my_character >>= λ token.
        read (net.mail_header token.character_id in_.mail_id) >>= λ mail.
        read (net.name (Value.int mail.from) false) >>= λ sender. delete_mail in_ token mail sender

    unfoldable pub send_priced : MailSendIn → CharacterToken → List NameMatch → Amount → T Answer
    unfolding carry_out mail_fields mail_preview resolved_names itoa
    send_priced in_ token matches charge =
        if exceeds charge in_.approved_cost
        then t_raise cspa_exceeds
        else carry_out net digest fresh
            (authz "eve_mail_send" cap_mail_send (owned token (mail_fields in_ matches))
              (mail_preview in_ token matches charge) in_.confirm_token token)
            (record {
              method = Method.post;
              path = "characters" ∷ itoa token.character_id ∷ "mail" ∷ [];
              character_id = token.character_id;
              params = [];
              body = Body.fields (mail_fields in_ matches);
            })
            (λ v.
              ("status", Value.text "sent") ∷ ("mail_id", v) ∷ ("to", resolved_names matches) ∷ [])

    unfoldable pub send_resolved :
        MailSendIn → CharacterToken → Resolved (List NameMatch) → T Answer
    unfolding price_cspa send_priced character_ids
    send_resolved in_ token (Resolved.refused answer) = t_pure (Answer.result answer)
    send_resolved in_ token (Resolved.found matches) =
        price_cspa token.character_id (character_ids matches) >>= λ charge.
        send_priced in_ token matches charge

    unfoldable pub eve_mail_send : MailSendIn → T Answer
    unfolding my_character send_resolved resolve_matches itoa
    eve_mail_send in_ = my_character >>= λ token.
        if ltb mail_recipients_max (length in_.to)
        then t_pure (
            Answer.result (
              (
                "error",
                Value.text (
                    "Refusing to mail "
                    ++ itoa (length in_.to)
                    ++ " recipients at once; the cap is "
                    ++ itoa mail_recipients_max
                    ++ ". Send in smaller batches."),
              )
              ∷ []))
        else (resolve_matches net in_.to entities >>= λ r. send_resolved in_ token r)
