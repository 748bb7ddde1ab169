-- ===== src/Tools/Compose.antt =====
-- internal/usecase/eve/writes_mail.go: `eveMailCompose`, a mail that is filled in for the player to
-- send.
use eve_online_mcp.Prelude.{
  ℕ, String, not, ◌&&◌, List, [], ◌∷◌, map, if◌then◌else◌, ltb, ◌==◌, str_eq, length, trim_space,
}
use eve_online_mcp.Domain.{CharacterToken, validation}
use eve_online_mcp.Store.{Result, ok, err}
use eve_online_mcp.Write.Policy.{cap_open_window}
use eve_online_mcp.Write.Summary.{Args, Value, ◌++◌}
use eve_online_mcp.Esi.Lookup.{NameMatch}
use eve_online_mcp.Tools.{
  Net, T, Answer, Method, Body, t_pure, settle_result, ◌>>=◌, authz, my_character, carry_out, owned,
}
use eve_online_mcp.Tools.Texts.{
  ids_value, slice_of, byte_len, invariant_required, unresolved_result,
}
use eve_online_mcp.Tools.Pick.{Resolved, resolve_matches}
use eve_online_mcp.Tools.Mail.{
  entities, recipient_type, recipient_name, mail_subject_max, mail_body_max,
}

pub record MailComposeIn : Type 0 where
  pub to : List String
  pub to_group : String
  pub subject : String
  pub body : String
  pub confirm_token : String

-- composeRecipients, with the group that a mail may have beside its readers.
pub record ComposeRecipients : Type 0 where
  pub character_ids : List ℕ
  pub names : List String
  pub group_id : ℕ
  pub group_name : String

abbrev pub mail_compose_recipients_max : ℕ
mail_compose_recipients_max = 50

abbrev pub client_caveat : String
client_caveat =
    "Takes effect only while the EVE client is running and logged in on this character. With the client closed the call reports success and nothing visible happens."

unfoldable pub reject_compose_bounds : MailComposeIn → Result (Unit {0})
reject_compose_bounds in_ =
    if length in_.to == 0
    then err (validation "to" invariant_required)
    else if ltb mail_compose_recipients_max (length in_.to)
    then err (validation "to" "must have at most 50 names")
    else if ltb mail_subject_max (byte_len in_.subject)
    then err (validation "subject" "must be at most 1000 characters")
    else if ltb mail_body_max (byte_len in_.body)
    then err (validation "body" "must be at most 10000 characters")
    else ok tt

-- The field of the group, where there is one.
unfoldable pub with_group : ℕ → Args → Args
with_group group_id fields =
    if group_id == 0 then fields else ("to_corp_or_alliance_id", Value.int group_id) ∷ fields

unfoldable pub compose_window_body : ComposeRecipients → String → String → Args
unfolding with_group ids_value
compose_window_body to subject body = with_group to.group_id (
    ("recipients", ids_value to.character_ids)
    ∷ ("subject", Value.text subject)
    ∷ ("body", Value.text body)
    ∷ [])

unfoldable pub compose_preview : String → ComposeRecipients → String → String → Args
unfolding slice_of
compose_preview character to subject body =
    let preview =
      ("action", Value.text "Open a pre-filled mail compose window in the game client")
      ∷ ("character", Value.text character)
      ∷ ("to", slice_of to.names)
      ∷ ("subject", Value.text subject)
      ∷ ("body", Value.text body)
      ∷ ("note", Value.text "The player still has to press Send. This does not send a mail.")
      ∷ [] in
    if str_eq to.group_name "" then preview else ("to_group", Value.text to.group_name) ∷ preview

unfoldable pub ids_of : List NameMatch → ComposeRecipients
ids_of matches = record {
  character_ids = map (λ (m : NameMatch). m.id) matches;
  names = map (λ (m : NameMatch). m.name) matches;
  group_id = 0;
  group_name = "";
}

-- The group is one corporation or alliance.
unfoldable pub judge_group :
    String → ComposeRecipients → Resolved (List NameMatch) → Resolved ComposeRecipients
unfolding recipient_type recipient_name unresolved_result
judge_group name to (Resolved.refused answer) = Resolved.refused answer
judge_group name to (Resolved.found (m ∷ [])) =
    let kind = recipient_type m.category in
    if not (str_eq kind "corporation") && not (str_eq kind "alliance")
    then Resolved.refused (unresolved_result (name ∷ []))
    else Resolved.found (record to { group_id = m.id; group_name = recipient_name m })
judge_group name to (Resolved.found matches) = Resolved.refused (unresolved_result (name ∷ []))

module _ (net : Net) where
  unfoldable pub resolve_group : String → Resolved (List NameMatch) → T (Resolved ComposeRecipients)
  unfolding judge_group ids_of
  resolve_group name (Resolved.refused answer) = t_pure (Resolved.refused answer)
  resolve_group name (Resolved.found matches) =
      if str_eq (trim_space name) ""
      then t_pure (Resolved.found (ids_of matches))
      else (resolve_matches net (name ∷ []) entities >>= λ group.
          t_pure (judge_group name (ids_of matches) group))

  unfoldable pub resolve_compose_recipients : List String → String → T (Resolved ComposeRecipients)
  unfolding resolve_group
  resolve_compose_recipients to to_group =
      resolve_matches net to ("characters" ∷ []) >>= λ r. resolve_group to_group r

  module _ (digest : Args → Result String) (fresh : String) where
    unfoldable pub compose_resolved :
        MailComposeIn → CharacterToken → Resolved ComposeRecipients → T Answer
    unfolding carry_out compose_window_body compose_preview
    compose_resolved in_ token (Resolved.refused answer) = t_pure (Answer.result answer)
    compose_resolved in_ token (Resolved.found to) =
        carry_out net digest fresh
          (authz "eve_mail_compose" cap_open_window
            (owned token (compose_window_body to in_.subject in_.body))
            (compose_preview token.character_name to in_.subject in_.body) in_.confirm_token token)
          (record {
            method = Method.post;
            path = "/ui/openwindow/newmail" ∷ [];
            character_id = token.character_id;
            params = [];
            body = Body.fields (compose_window_body to in_.subject in_.body);
          })
          (λ v.
            ("status", Value.text "done")
            ∷ ("opened", Value.text "compose window")
            ∷ (
              "note",
              Value.text (client_caveat ++ " The window was requested; this did not send a mail."),
            )
            ∷ [])

    unfoldable pub eve_mail_compose : MailComposeIn → T Answer
    unfolding my_character reject_compose_bounds compose_resolved resolve_compose_recipients
    eve_mail_compose in_ = settle_result (reject_compose_bounds in_) >>= λ _.
        my_character >>= λ token.
        resolve_compose_recipients in_.to in_.to_group >>= λ to. compose_resolved in_ token to
