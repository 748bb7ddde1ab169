-- ===== src/Tools/Mail/Priced.antt =====
-- internal/usecase/eve/writes_mail.go, `eveMailSend`: what stands behind a mail that is sent.
use eve_online_mcp.Prelude.{
  ℕ, ◌≤◌, ◌≡◌, refl, inl, inr, ◌⊎◌, String, false, none, some, Option, List, [], ◌∷◌, arith, length,
  ltb, Bool-cases,
}
use eve_online_mcp.Domain.{CharacterToken}
use eve_online_mcp.Store.{Result, ok, err}
use eve_online_mcp.Write.Summary.{Args}
use eve_online_mcp.Esi.Lookup.{NameMatch, Resolutions, resolve_names}
use eve_online_mcp.Tools.{Net, Desk, Write, Body, Amount, t_resume, t_pure, my_character, read}
use eve_online_mcp.Tools.Pick.{
  Resolved, look_up, resolve_matches, judge_picked, pick, nothing_picked,
}
use eve_online_mcp.Tools.Pick.Clear.{Clear, judge_picked-Clear}
use eve_online_mcp.Tools.Mail.{
  MailSendIn, mail_fields, mail_recipients_max, cspa_recipients_max, exceeds, entities,
  character_ids, priced, price_cspa, send_priced, send_resolved, eve_mail_send,
}
use eve_online_mcp.Tools.Consented.Course.{my_character-Reads, resolve_matches-Reads}
use eve_online_mcp.Tools.Consented.Letters.{price_cspa-Reads}
use eve_online_mcp.Tools.Sends.{Sends, none-Sends, told-Sends, carry_out-Sends}

-- The desk at which a mail's names are looked up, and the one at which its charge is asked for.
abbrev pub at_names : Desk → Desk
at_names d = (my_character d).1

abbrev pub at_price : Net → MailSendIn → Desk → Desk
at_price net in_ d = (resolve_matches net in_.to entities (at_names d)).1

-- A mail to at most twenty names, each of which stands for one recipient by what ESI has answered
-- to this call, with the charge that ESI has then asked for its characters, where there are any,
-- within the cost that was approved.
pub record Paid (net : Net) (in_ : MailSendIn) (d : Desk) (write : Write) : Type 0 where
  pub token : CharacterToken
  pub own : (my_character d).0 ≡ ok token
  pub resolutions : Resolutions
  pub looked_up : (look_up net in_.to [] entities (at_names d)).0 ≡ ok resolutions
  pub matches : List NameMatch
  pub charge : Amount
  pub few : length in_.to ≤ mail_recipients_max
  pub clear : Clear net.lower resolutions in_.to matches
  pub affordable : exceeds charge in_.approved_cost ≡ false
  pub priced :
      (character_ids matches ≡ [])
      ⊎ ((net.cspa token.character_id (character_ids matches) (at_price net in_ d).world).0
          ≡ ok (some charge))
  pub sender : write.character_id ≡ token.character_id
  pub written : write.body ≡ Body.fields (mail_fields in_ matches)
  pub sent_to :
      write.path ≡ "characters" ∷ eve_online_mcp.Write.Summary.itoa token.character_id ∷ "mail" ∷ []

priced-ok :
    (net : Net) (r : Result (Option Amount)) (charge : Amount) (d : Desk)
    → (priced net r d).0 ≡ ok charge
    → r ≡ ok (some charge)
unfolding priced
priced-ok net (err e) charge d h = ground (arith, h)
priced-ok net (ok none) charge d h = ground (arith, h)
priced-ok net (ok (some a)) charge d h = ground (arith, h)

price_cspa-ok :
    (net : Net) (id : ℕ) (ids : List ℕ) (charge : Amount) (d : Desk)
    → (price_cspa net id ids d).0 ≡ ok charge
    → (ids ≡ []) ⊎ ((net.cspa id ids d.world).0 ≡ ok (some charge))
unfolding price_cspa
price_cspa-ok net id [] charge d h = inl refl
price_cspa-ok net id (i ∷ ids) charge d h =
    elim (Bool-cases (ltb cspa_recipients_max (length (i ∷ ids)))) [
      | inl many ↦ ground (arith, h, many)
      | inr few ↦ inr (priced-ok net _ charge _ (rw few at h))
    ]

looked_up-ok :
    (net : Net) (names : List String) (ms : List NameMatch) (r : Result Resolutions × Desk)
    → (t_resume r
        (λ found. t_pure (judge_picked net (pick net.lower names found nothing_picked)))).0
      ≡ ok (Resolved.found ms)
    → (found : Resolutions) × ((r.0 ≡ ok found)
        × (judge_picked net (pick net.lower names found nothing_picked) ≡ Resolved.found ms))
looked_up-ok net names ms (ok found, d) h = (found, (refl, ground (arith, h)))
looked_up-ok net names ms (err e, d) h = ground (arith, h)

resolve_matches-ok :
    (net : Net) (names only : List String) (ms : List NameMatch) (d : Desk)
    → (resolve_matches net names only d).0 ≡ ok (Resolved.found ms)
    → (found : Resolutions) × (((look_up net names [] only d).0 ≡ ok found)
        × (judge_picked net (pick net.lower names found nothing_picked) ≡ Resolved.found ms))
unfolding resolve_matches
resolve_matches-ok net names only ms d h =
    looked_up-ok net names ms (read (resolve_names net.lower net.universe_ids names [] only) d) h

module _ (net : Net) (digest : Args → Result String) (fresh : String) (in_ : MailSendIn)
    (d0 : Desk) where
  abbrev PaidHere : Write → Type 0
  PaidHere = Paid net in_ d0

  send_priced-Sends :
      (token : CharacterToken) (found : Resolutions) (matches : List NameMatch) (charge : Amount)
      → (my_character d0).0 ≡ ok token
      → (look_up net in_.to [] entities (at_names d0)).0 ≡ ok found
      → length in_.to ≤ mail_recipients_max
      → Clear net.lower found in_.to matches
      → (character_ids matches ≡ [])
        ⊎ ((net.cspa token.character_id (character_ids matches) (at_price net in_ d0).world).0
            ≡ ok (some charge))
      → (d : Desk) → Sends 1 PaidHere d (send_priced net digest fresh in_ token matches charge d).1
  unfolding send_priced
  send_priced-Sends token found matches charge own asked few clear price d =
      elim (Bool-cases (exceeds charge in_.approved_cost)) [
        | inl dear ↦ rw dear (none-Sends PaidHere 1 refl)
        | inr cheap ↦ rw cheap (
            carry_out-Sends PaidHere net digest fresh _ _ _ d (record {
              token = token;
              own = own;
              looked_up = asked;
              sender = refl;
              resolutions = found;
              matches = matches;
              charge = charge;
              few = few;
              clear = clear;
              affordable = cheap;
              priced = price;
              written = refl;
              sent_to = refl;
            }))
      ]

  send_resolved-Sends :
      (token : CharacterToken) (r : Resolved (List NameMatch))
      → (my_character d0).0 ≡ ok token
      → length in_.to ≤ mail_recipients_max
      → (resolve_matches net in_.to entities (at_names d0)).0 ≡ ok r
      → (let e = at_price net in_ d0 in
          Sends 1 PaidHere e (send_resolved net digest fresh in_ token r e).1)
  unfolding send_resolved
  send_resolved-Sends token (Resolved.refused answer) own few h = none-Sends PaidHere 1 refl
  send_resolved-Sends token (Resolved.found matches) own few h =
      let (found, (asked, judged)) =
        resolve_matches-ok net in_.to entities matches (at_names d0) h in
      let e = at_price net in_ d0 in
      let ids = character_ids matches in
      told-Sends PaidHere 1 e (price_cspa net token.character_id ids) _
        (price_cspa-Reads net digest fresh token.character_id ids)
        (λ charge paid.
          send_priced-Sends token found matches charge own asked few
            (judge_picked-Clear net.lower found net in_.to matches judged)
            (price_cspa-ok net token.character_id ids charge e paid) _)

-- `eveMailSend` sends no write but the mail that it was asked to send, to at most twenty names each of
-- which stands for one recipient by what ESI has answered to this call, each recipient once, and
-- with the charge that ESI then asked for the characters among them, where there are any, within
-- the cost that was approved; it is sent as the session's own character.
pub eve_mail_send-Paid :
    (net : Net) (digest : Args → Result String) (fresh : String) (in_ : MailSendIn) (d : Desk)
    → Sends 1 (Paid net in_ d) d (eve_mail_send net digest fresh in_ d).1
unfolding eve_mail_send
eve_mail_send-Paid net digest fresh in_ d =
    told-Sends (Paid net in_ d) 1 d my_character _ my_character-Reads (λ token own.
      elim (Bool-cases (ltb mail_recipients_max (length in_.to))) [
        | inl many ↦ rw many (none-Sends (Paid net in_ d) 1 refl)
        | inr few ↦ rw few (
            told-Sends (Paid net in_ d) 1 (at_names d) (resolve_matches net in_.to entities) _
              (resolve_matches-Reads net in_.to entities)
              (λ r h.
                send_resolved-Sends net digest fresh in_ d token r own (ground (arith, few)) h))
      ])
