-- ===== src/Tools/Consented/Standings.antt =====
-- internal/usecase/eve/writes_contacts.go, `eveContactsSet`: what it may send, and on what consent.
use eve_online_mcp.Prelude.{
  ℕ, ◌+◌, ◌≤◌, ◌≡◌, ◌∙◌, refl, ap, inl, inr, String, Bool, true, false, some, none, List, [], ◌∷◌,
  filter, not, arith, length, length-append, Bool-cases, ◌==◌,
}
use eve_online_mcp.Domain.{CharacterToken}
use eve_online_mcp.Store.{Result, ok, err}
use eve_online_mcp.Write.Summary.{Args, Value, arg}
use eve_online_mcp.Write.Guard.{Authz, Preview}
use eve_online_mcp.Esi.Lookup.{NameMatch}
use eve_online_mcp.Tools.{
  Net, Desk, T, Reply, Answer, t_resume, t_pure, send, record_reply, my_character, read, bool_def,
}
use eve_online_mcp.Tools.Mail.{entities}
use eve_online_mcp.Tools.Pick.{Resolved, resolve_matches}
use eve_online_mcp.Tools.Contacts.{
  ContactsSetIn, ContactOp, ContactPlan, Verb, Applied, ApplyResult, has, op_of, ops_of,
  build_contact_ops, op_write, run_contact_op, after_op, apply_contact_ops, apply_op, stopped,
  set_decided, set_planned, set_resolved, eve_contacts_set, plan_contact_set, nothing_applied,
  empty_plan,
}
use eve_online_mcp.Tools.Consented.Course.{my_character-Reads, resolve_matches-Reads}
use eve_online_mcp.Tools.Sends.{Sends, none-Sends, after-Sends, weaken-Sends, read-Reads}
use eve_online_mcp.Tools.Sound.{Sound, Covered, authorized-Sound, after-Sound, idle-Sound}

length-op_of-le : (verb : Verb) (ids : List ℕ) (b : Bool) → length (op_of verb ids b) ≤ 1
unfolding op_of
length-op_of-le verb [] b = omega arith
length-op_of-le verb (id ∷ ids) b = omega arith

length-ops_of-le :
    (verb : Verb) (ids : List ℕ) (watched : Bool) (watchable : List ℕ)
    → length (ops_of verb ids watched watchable) ≤ 2
unfolding ops_of
length-ops_of-le verb ids true watchable =
    let yes_ids = filter (has watchable) ids in
    let no_ids = filter (λ id. not (has watchable id)) ids in
    omega (
      arith,
      length-append (op_of verb yes_ids true) (op_of verb no_ids false),
      length-op_of-le verb yes_ids true,
      length-op_of-le verb no_ids false,
    )
length-ops_of-le verb ids false watchable = omega (arith, length-op_of-le verb ids false)

length-build_contact_ops-le :
    (updating neu : List ℕ) (watched : Bool) (watchable : List ℕ)
    → length (build_contact_ops updating neu watched watchable) ≤ 4
unfolding build_contact_ops
length-build_contact_ops-le updating neu watched watchable = omega (
  arith,
  length-append (ops_of Verb.update updating watched watchable)
      (ops_of Verb.add neu watched watchable),
  length-ops_of-le Verb.update updating watched watchable,
  length-ops_of-le Verb.add neu watched watchable,
)

module _ (net : Net) (digest : Args → Result String) (fresh : String) where
  module _ (in_ : Authz) (token : CharacterToken) (standing : Value)
      (standing_in : arg "standing" in_.args ≡ some standing)
      (character_in : arg "character_id" in_.args ≡ some (Value.int token.character_id)) where
    op_write-Covered : (op : ContactOp) → Covered in_ (op_write token standing op)
    unfolding op_write
    op_write-Covered op = record {
      path = inl (
        inl refl,
        (inr ("character_id", (token.character_id, (character_in, refl))), (inl refl, tt)),
      );
      params = inl (inr standing_in, (inl refl, tt));
      body = tt;
      character = character_in;
    }

    run_contact_op-Sends :
        (op : ContactOp) (d : Desk)
        → Sends 1 (Covered in_) d (run_contact_op net digest fresh token standing op d).1
    unfolding run_contact_op send record_reply
    run_contact_op-Sends op d = record {
      writes = op_write token standing op ∷ [];
      sent = refl;
      few = omega arith;
      each = (op_write-Covered op, tt);
    }

    stopped-sent :
        (status : ℕ) (done : Applied) (d : Desk) → (stopped standing status done d).1.sent ≡ d.sent
    unfolding stopped
    stopped-sent status done d = elim (Bool-cases (length done.updated + length done.added == 0)) [
      | inl none_yet ↦ rw none_yet refl
      | inr some_done ↦ rw some_done refl
    ]

    after_op-Sends :
        (n : ℕ) (op : ContactOp) (done : Applied) (rest : Applied → T ApplyResult)
        → ((a : Applied) (d : Desk) → Sends n (Covered in_) d (rest a d).1)
        → (reply : Reply) (d : Desk)
        → Sends n (Covered in_) d (after_op net digest fresh standing op done rest reply d).1
    after_op-Sends n op done rest h (Reply.answered v) d = h (apply_op op done) d
    after_op-Sends n op done rest h (Reply.failed status m) d =
        none-Sends (Covered in_) n (stopped-sent status done d)
    after_op-Sends n op done rest h (Reply.limited status m) d =
        none-Sends (Covered in_) n (stopped-sent 0 done d)

    apply_contact_ops-Sends :
        (ops : List ContactOp) (done : Applied) (d : Desk)
        → Sends
            (length ops)
            (Covered in_)
            d
            (apply_contact_ops net digest fresh token standing ops done d).1
    unfolding apply_contact_ops
    apply_contact_ops-Sends [] done d = none-Sends (Covered in_) 0 refl
    apply_contact_ops-Sends (op ∷ ops) done d = weaken-Sends (Covered in_) (omega arith) (
        after-Sends (Covered in_) 1 (length ops) d
          (run_contact_op net digest fresh token standing op)
          (after_op net digest fresh standing op done
            (apply_contact_ops net digest fresh token standing ops))
          (run_contact_op-Sends op d)
          (after_op-Sends (length ops) op done
            (apply_contact_ops net digest fresh token standing ops) (apply_contact_ops-Sends ops)))

    set_decided-Sends :
        (watched : Bool) (plan : ContactPlan) (d : Desk)
        → Sends 4
            (Covered in_)
            d
            (set_decided net digest fresh token standing watched plan none d).1
    unfolding set_decided
    set_decided-Sends watched plan d =
        let ops = build_contact_ops plan.updating plan.neu watched plan.watchable in
        weaken-Sends (Covered in_)
          (omega (arith, length-build_contact_ops-le plan.updating plan.neu watched plan.watchable))
          (after-Sends (Covered in_) (length ops) 0 d
            (apply_contact_ops net digest fresh token standing ops nothing_applied) _
            (apply_contact_ops-Sends ops nothing_applied d)
            (λ r e. none-Sends (Covered in_) 0 refl))

  -- The calls of a plan ask the guard for nothing.
  stopped-asked :
      (standing : Value) (status : ℕ) (done : Applied) (d : Desk)
      → (stopped standing status done d).1.asked ≡ d.asked
  unfolding stopped
  stopped-asked standing status done d =
      elim (Bool-cases (length done.updated + length done.added == 0)) [
        | inl none_yet ↦ rw none_yet refl
        | inr some_done ↦ rw some_done refl
      ]

  after_op-asked :
      (standing : Value) (op : ContactOp) (done : Applied) (rest : Applied → T ApplyResult)
      → ((a : Applied) (d : Desk) → (rest a d).1.asked ≡ d.asked)
      → (reply : Reply) (d : Desk)
      → (after_op net digest fresh standing op done rest reply d).1.asked ≡ d.asked
  after_op-asked standing op done rest h (Reply.answered v) d = h (apply_op op done) d
  after_op-asked standing op done rest h (Reply.failed status m) d =
      stopped-asked standing status done d
  after_op-asked standing op done rest h (Reply.limited status m) d =
      stopped-asked standing 0 done d

  apply_contact_ops-asked :
      (token : CharacterToken) (standing : Value) (ops : List ContactOp) (done : Applied) (d : Desk)
      → (apply_contact_ops net digest fresh token standing ops done d).1.asked ≡ d.asked
  unfolding apply_contact_ops run_contact_op send record_reply
  apply_contact_ops-asked token standing [] done d = refl
  apply_contact_ops-asked token standing (op ∷ ops) done d =
      after_op-asked standing op done (apply_contact_ops net digest fresh token standing ops)
        (apply_contact_ops-asked token standing ops) _ _

  told-asked :
      (f : ApplyResult → Answer) (r : Result ApplyResult × Desk)
      → (t_resume r (λ a. t_pure (f a))).1 ≡ r.1
  told-asked f (ok a, d) = refl
  told-asked f (err e, d) = refl

  set_decided-asked :
      (token : CharacterToken) (standing : Value) (watched : Bool) (plan : ContactPlan) (d : Desk)
      → (set_decided net digest fresh token standing watched plan none d).1.asked ≡ d.asked
  unfolding set_decided
  set_decided-asked token standing watched plan d =
      let ops = build_contact_ops plan.updating plan.neu watched plan.watchable in
      let run = apply_contact_ops net digest fresh token standing ops nothing_applied d in
      ap (λ (e : Desk). e.asked) (told-asked _ run)
      ∙ apply_contact_ops-asked token standing ops nothing_applied d

  set_shown :
      (token : CharacterToken) (standing : Value) (watched : Bool) (plan : ContactPlan)
      (p : Preview) (d : Desk)
      → (set_decided net digest fresh token standing watched plan (some p) d).1.sent ≡ d.sent
  unfolding set_decided
  set_shown token standing watched plan p d = refl

  set_planned-Sound :
      (in_ : ContactsSetIn) (token : CharacterToken) (plan : ContactPlan) (d : Desk)
      → Sound digest 4 "eve_contacts_set" in_.confirm_token d
          (set_planned net digest fresh in_ token plan d).1
  unfolding set_planned arg
  set_planned-Sound in_ token plan d =
      let watched = bool_def in_.watched false in
      authorized-Sound digest fresh _ (set_decided net digest fresh token in_.standing watched plan)
        (λ p e. set_shown token in_.standing watched plan p e)
        (set_decided-Sends _ token in_.standing refl refl watched plan)
        (set_decided-asked token in_.standing watched plan) d

  set_resolved-Sound :
      (in_ : ContactsSetIn) (token : CharacterToken) (r : Resolved (List NameMatch)) (d : Desk)
      → Sound digest 4 "eve_contacts_set" in_.confirm_token d
          (set_resolved net digest fresh in_ token r d).1
  unfolding set_resolved
  set_resolved-Sound in_ token (Resolved.refused answer) d = idle-Sound digest refl
  set_resolved-Sound in_ token (Resolved.found matches) d =
      let get = net.contacts token.character_id in
      after-Sound digest d (read get) _ (read-Reads get)
        (λ known. set_planned-Sound in_ token (plan_contact_set matches known empty_plan))

  pub contacts_set-Sound :
      (in_ : ContactsSetIn) (d : Desk)
      → Sound digest 4 "eve_contacts_set" in_.confirm_token d
          (eve_contacts_set net digest fresh in_ d).1
  unfolding eve_contacts_set
  contacts_set-Sound in_ d = after-Sound digest d my_character _ my_character-Reads (λ token e.
      after-Sound digest e (resolve_matches net in_.names entities) _
        (resolve_matches-Reads net in_.names entities) (λ r. set_resolved-Sound in_ token r))
