-- ===== src/Tools/Consented/Letters.antt =====
-- internal/usecase/eve/writes_mail.go: what the tools for mails may send, and on what consent.
use eve_online_mcp.Prelude.{
  ℕ, refl, inl, inr, String, false, Option, none, some, List, [], ◌∷◌, arith, Bool-cases, ltb,
  length, ◌==◌, str_eq, trim_space,
}
use eve_online_mcp.Domain.{CharacterToken}
use eve_online_mcp.Store.{Result, ok, err}
use eve_online_mcp.Write.Summary.{Args, Value, arg}
use eve_online_mcp.Esi.Lookup.{NameMatch}
use eve_online_mcp.Tools.{Net, my_character, read, settle_result, Amount}
use eve_online_mcp.Tools.Pick.{Resolved, resolve_matches}
use eve_online_mcp.Tools.Mail.{
  MailMarkIn, MailDeleteIn, MailSendIn, eve_mail_mark, eve_mail_delete, delete_mail, eve_mail_send,
  send_resolved, send_priced, price_cspa, priced, entities, character_ids, mail_fields,
  mail_recipients_max, exceeds,
}
use eve_online_mcp.Tools.Compose.{
  MailComposeIn, eve_mail_compose, compose_resolved, resolve_compose_recipients, resolve_group,
  reject_compose_bounds, compose_window_body, with_group, ComposeRecipients,
}
use eve_online_mcp.Tools.Consented.Course.{my_character-Reads, resolve_matches-Reads, Tool}
use eve_online_mcp.Tools.Sends.{Reads, after-Reads, read-Reads, settle_result-Reads}
use eve_online_mcp.Tools.Sound.{after-Sound, idle-Sound, carry_out-Sound}

module _ (net : Net) (digest : Args → Result String) (fresh : String) where
  pub mail_mark-Sound :
      (in_ : MailMarkIn)
      → Tool digest "eve_mail_mark" in_.confirm_token (eve_mail_mark net digest fresh in_)
  unfolding eve_mail_mark arg
  mail_mark-Sound in_ d = after-Sound digest d my_character _ my_character-Reads (λ token.
      carry_out-Sound digest fresh net _ _ _ (record {
        path = inl (
          inl refl,
          (
            inr ("character_id", (_, (refl, refl))),
            (inl refl, (inr ("mail_id", (_, (refl, refl))), tt)),
          ),
        );
        params = inl tt;
        body = (inr refl, tt);
        character = refl;
      }))

  pub mail_delete-Sound :
      (in_ : MailDeleteIn)
      → Tool digest "eve_mail_delete" in_.confirm_token (eve_mail_delete net digest fresh in_)
  unfolding eve_mail_delete delete_mail arg
  mail_delete-Sound in_ d = after-Sound digest d my_character _ my_character-Reads (λ token e.
      let get = net.mail_header token.character_id in_.mail_id in
      after-Sound digest e (read get) _ (read-Reads get) (λ mail e'.
        let get' = net.name (Value.int mail.from) false in
        after-Sound digest e' (read get') _ (read-Reads get') (λ sender.
          carry_out-Sound digest fresh net _ _ _ (record {
            path = inl (
              inl refl,
              (
                inr ("character_id", (_, (refl, refl))),
                (inl refl, (inr ("mail_id", (_, (refl, refl))), tt)),
              ),
            );
            params = inl tt;
            body = tt;
            character = refl;
          }))))

  priced-Reads : (r : Result (Option Amount)) → Reads (priced net r)
  unfolding priced
  priced-Reads (err e) d = record { guard = refl; sent = refl; asked = refl }
  priced-Reads (ok none) d = record { guard = refl; sent = refl; asked = refl }
  priced-Reads (ok (some a)) d = record { guard = refl; sent = refl; asked = refl }

  pub price_cspa-Reads : (id : ℕ) (ids : List ℕ) → Reads (price_cspa net id ids)
  unfolding price_cspa
  price_cspa-Reads id [] d = record { guard = refl; sent = refl; asked = refl }
  price_cspa-Reads id (i ∷ ids) d = ground (
    arith,
    priced-Reads (net.cspa id (i ∷ ids) d.world).0
        (record d { world = (net.cspa id (i ∷ ids) d.world).1 }),
  )

  send_priced-Sound :
      (in_ : MailSendIn) (token : CharacterToken) (matches : List NameMatch) (charge : Amount)
      → Tool digest "eve_mail_send" in_.confirm_token
          (send_priced net digest fresh in_ token matches charge)
  unfolding send_priced mail_fields arg
  send_priced-Sound in_ token matches charge d =
      elim (Bool-cases (exceeds charge in_.approved_cost)) [
        | inl dear ↦ rw dear (idle-Sound digest refl)
        | inr paid ↦ rw paid (
            carry_out-Sound digest fresh net _ _ _
              (record {
                path = inl (inl refl, (inr ("character_id", (_, (refl, refl))), (inl refl, tt)));
                params = inl tt;
                body = (inr refl, (inr refl, (inr refl, (inr refl, tt))));
                character = refl;
              })
              d)
      ]

  send_resolved-Sound :
      (in_ : MailSendIn) (token : CharacterToken) (r : Resolved (List NameMatch))
      → Tool digest "eve_mail_send" in_.confirm_token (send_resolved net digest fresh in_ token r)
  unfolding send_resolved
  send_resolved-Sound in_ token (Resolved.refused answer) d = idle-Sound digest refl
  send_resolved-Sound in_ token (Resolved.found matches) d =
      let ids = character_ids matches in
      after-Sound digest d (price_cspa net token.character_id ids) _
        (price_cspa-Reads token.character_id ids)
        (λ charge. send_priced-Sound in_ token matches charge)

  pub mail_send-Sound :
      (in_ : MailSendIn)
      → Tool digest "eve_mail_send" in_.confirm_token (eve_mail_send net digest fresh in_)
  unfolding eve_mail_send
  mail_send-Sound in_ d = after-Sound digest d my_character _ my_character-Reads (λ token e.
      elim (Bool-cases (ltb mail_recipients_max (length in_.to))) [
        | inl many ↦ rw many (idle-Sound digest refl)
        | inr few ↦ rw few (
            after-Sound digest e (resolve_matches net in_.to entities) _
              (resolve_matches-Reads net in_.to entities) (λ r. send_resolved-Sound in_ token r))
      ])

  compose_resolved-Sound :
      (in_ : MailComposeIn) (token : CharacterToken) (r : Resolved ComposeRecipients)
      → Tool digest "eve_mail_compose" in_.confirm_token
          (compose_resolved net digest fresh in_ token r)
  unfolding compose_resolved compose_window_body with_group arg
  compose_resolved-Sound in_ token (Resolved.refused answer) d = idle-Sound digest refl
  compose_resolved-Sound in_ token (Resolved.found to) d = elim (Bool-cases (to.group_id == 0)) [
    | inl alone ↦
        carry_out-Sound digest fresh net _ _ _
          (record {
            path = inl (inl refl, tt);
            params = inl tt;
            body = rw alone (inr refl, (inr refl, (inr refl, tt)));
            character = refl;
          })
          d
    | inr grouped ↦
        carry_out-Sound digest fresh net _ _ _
          (record {
            path = inl (inl refl, tt);
            params = inl tt;
            body = rw grouped (inr refl, (inr refl, (inr refl, (inr refl, tt))));
            character = refl;
          })
          d
  ]

  resolve_group-Reads :
      (name : String) (r : Resolved (List NameMatch)) → Reads (resolve_group net name r)
  unfolding resolve_group
  resolve_group-Reads name (Resolved.refused answer) d = record {
    guard = refl;
    sent = refl;
    asked = refl;
  }
  resolve_group-Reads name (Resolved.found matches) d =
      elim (Bool-cases (str_eq (trim_space name) "")) [
        | inl blank ↦ rw blank (record { guard = refl; sent = refl; asked = refl })
        | inr given ↦ rw given (
            after-Reads d (resolve_matches net (name ∷ []) entities) _
              (resolve_matches-Reads net (name ∷ []) entities)
              (λ group e. record { guard = refl; sent = refl; asked = refl }))
      ]

  resolve_compose-Reads :
      (to : List String) (name : String) → Reads (resolve_compose_recipients net to name)
  unfolding resolve_compose_recipients
  resolve_compose-Reads to name d =
      after-Reads d (resolve_matches net to ("characters" ∷ [])) _
        (resolve_matches-Reads net to ("characters" ∷ [])) (λ r. resolve_group-Reads name r)

  pub mail_compose-Sound :
      (in_ : MailComposeIn)
      → Tool digest "eve_mail_compose" in_.confirm_token (eve_mail_compose net digest fresh in_)
  unfolding eve_mail_compose
  mail_compose-Sound in_ d =
      let checked = reject_compose_bounds in_ in
      after-Sound digest d (settle_result checked) _ (settle_result-Reads checked) (λ _ e.
        after-Sound digest e my_character _ my_character-Reads (λ token e'.
          after-Sound digest e' (resolve_compose_recipients net in_.to in_.to_group) _
            (resolve_compose-Reads in_.to in_.to_group)
            (λ to. compose_resolved-Sound in_ token to)))
