-- ===== src/Tools/Contacts.antt =====
-- internal/usecase/eve/writes_contacts.go: the standings of contacts, set in up to four calls, and
-- their deletion.
pub mod Ops
pub mod Told
use eve_online_mcp.Prelude.{
  ℕ, ◌+◌, String, Bool, true, false, not, ◌&&◌, Option, none, some, List, [], ◌∷◌,
  ◌++◌ as join_lists, map, if◌then◌else◌, ◌==◌, any, filter, length,
}
use eve_online_mcp.Domain.{CharacterToken, esi_failure}
use eve_online_mcp.Store.{Result, ok, err}
use eve_online_mcp.Write.Policy.{cap_contacts}
use eve_online_mcp.Write.Summary.{Args, Value, itoa, ◌++◌}
use eve_online_mcp.Write.Guard.{Decision, authorize}
use eve_online_mcp.Esi.Lookup.{NameMatch}
use eve_online_mcp.Tools.{
  Net, T, Answer, Write, Method, Body, Reply, t_pure, t_raise, ask, read, ◌>>=◌, ◌>>◌, authz,
  my_character, carry_out, owned, bool_def, send, record_reply,
}
use eve_online_mcp.Tools.Texts.{flag, ids_value, slice_of}
use eve_online_mcp.Tools.Pick.{Resolved, resolve_matches}
use eve_online_mcp.Tools.Mail.{entities, is_character}

-- `standing` is the float, by its text.
pub record ContactsSetIn : Type 0 where
  pub names : List String
  pub standing : Value
  pub watched : Option Bool
  pub confirm_token : String

pub record ContactsDeleteIn : Type 0 where
  pub names : List String
  pub confirm_token : String

pub data Verb : Type 0 where
  update add : Verb

pub record ContactOp : Type 0 where
  pub verb : Verb
  pub ids : List ℕ
  pub watched : Bool

-- A set of ids is the list of the ids that were put into it.
pub record ContactPlan : Type 0 where
  pub ids : List ℕ
  pub updating : List ℕ
  pub neu : List ℕ
  pub names : List String
  pub watchable : List ℕ

abbrev pub has : List ℕ → ℕ → Bool
has ids id = any (λ n. n == id) ids

abbrev pub empty_plan : ContactPlan
empty_plan = record { ids = []; updating = []; neu = []; names = []; watchable = [] }

unfoldable pub plan_one : NameMatch → List ℕ → ContactPlan → ContactPlan
plan_one m known p = record {
  ids = join_lists p.ids (m.id ∷ []);
  names = join_lists p.names (m.name ∷ []);
  watchable =
      if is_character m && not (has p.watchable m.id) then m.id ∷ p.watchable else p.watchable;
  updating = if has known m.id then join_lists p.updating (m.id ∷ []) else p.updating;
  neu = if has known m.id then p.neu else join_lists p.neu (m.id ∷ []);
}

unfoldable pub plan_contact_set : List NameMatch → List ℕ → ContactPlan → ContactPlan
unfolding plan_one
plan_contact_set [] known p = p
plan_contact_set (m ∷ matches) known p = plan_contact_set matches known (plan_one m known p)

unfoldable pub op_of : Verb → List ℕ → Bool → List ContactOp
op_of verb [] watched = []
op_of verb (id ∷ ids) watched = record { verb = verb; ids = id ∷ ids; watched = watched } ∷ []

-- Only characters can be watched, so that a watched set is split in two.
unfoldable pub ops_of : Verb → List ℕ → Bool → List ℕ → List ContactOp
unfolding op_of
ops_of verb ids watched watchable =
    if watched
    then join_lists (op_of verb (filter (has watchable) ids) true)
        (op_of verb (filter (λ id. not (has watchable id)) ids) false)
    else op_of verb ids false

unfoldable pub build_contact_ops : List ℕ → List ℕ → Bool → List ℕ → List ContactOp
unfolding ops_of
build_contact_ops updating neu watched watchable =
    join_lists (ops_of Verb.update updating watched watchable)
      (ops_of Verb.add neu watched watchable)

abbrev verb_text : Verb → String
verb_text Verb.update = "update"
verb_text Verb.add = "add"

unfoldable pub watched_note : ContactPlan → Args
unfolding itoa
watched_note plan =
    if length plan.watchable == length plan.ids
    then []
    else (
      "watched_note",
      Value.text (
          "Only "
          ++ itoa (length plan.watchable)
          ++ " of "
          ++ itoa (length plan.ids)
          ++ " are characters; the rest are corporations or alliances, which cannot be watched."),
    )
      ∷ []

unfoldable pub contact_set_preview : String → ContactPlan → Value → Bool → Args
unfolding slice_of watched_note
contact_set_preview character plan standing watched =
    ("action", Value.text "Set contact standings (visible in the character's overview)")
    ∷ ("character", Value.text character)
    ∷ ("contacts", slice_of plan.names)
    ∷ ("standing", standing)
    ∷ ("watched", flag watched)
    ∷ ("new_contacts", Value.int (length plan.neu))
    ∷ ("updated_contacts", Value.int (length plan.updating))
    ∷ (if watched then watched_note plan else [])

-- What has been applied so far: the ids that were updated and those that were added.
pub record Applied : Type 0 where
  pub updated : List ℕ
  pub added : List ℕ

abbrev pub nothing_applied : Applied
nothing_applied = record { updated = []; added = [] }

unfoldable pub apply_op : ContactOp → Applied → Applied
apply_op op done = elim op.verb [
  | Verb.update ↦ record done { updated = join_lists done.updated op.ids }
  | Verb.add ↦ record done { added = join_lists done.added op.ids }
]

unfoldable pub op_write : CharacterToken → Value → ContactOp → Write
unfolding itoa
op_write token standing op = record {
  method = elim op.verb [ Verb.update ↦ Method.put | Verb.add ↦ Method.post ];
  path = "characters" ∷ itoa token.character_id ∷ "contacts" ∷ [];
  character_id = token.character_id;
  params = ("standing", standing) ∷ ("watched", flag op.watched) ∷ [];
  body = Body.ids op.ids;
}

-- The arguments under which one call is recorded.
unfoldable pub op_args : CharacterToken → Value → ContactOp → Args
unfolding ids_value
op_args token standing op = owned token (
    ("contact_ids", ids_value op.ids)
    ∷ ("standing", standing)
    ∷ ("watched", flag op.watched)
    ∷ ("phase", Value.text (verb_text op.verb))
    ∷ [])

unfoldable pub partly_applied : Value → ℕ → Applied → Args
partly_applied standing status done =
    ("error", Value.text "Partially applied. Call eve_contacts_set again with the same arguments.")
    ∷ ("kind", Value.text "EsiError")
    ∷ ("status", Value.int status)
    ∷ ("standing", standing)
    ∷ ("updated", Value.int (length done.updated))
    ∷ ("added", Value.int (length done.added))
    ∷ []

-- All that was asked for was applied, or the answer of a call that failed after others.
pub data ApplyResult : Type 0 where
  applied : Applied → ApplyResult
  partial : Args → ApplyResult

-- The end of the loop at a call that failed.
unfoldable pub stopped : Value → ℕ → Applied → T ApplyResult
unfolding partly_applied
stopped standing status done =
    if length done.updated + length done.added == 0
    then t_raise esi_failure
    else t_pure (ApplyResult.partial (partly_applied standing status done))

module _ (net : Net) (digest : Args → Result String) (fresh : String) where
  unfoldable pub run_contact_op : CharacterToken → Value → ContactOp → T Reply
  unfolding send record_reply op_write op_args
  run_contact_op token standing op = send net digest fresh (op_write token standing op) >>= λ reply.
      record_reply net digest fresh
        (authz "eve_contacts_set" cap_contacts (op_args token standing op) [] "" token) reply
      >> t_pure reply

  abbrev pub after_op :
      Value → ContactOp → Applied → (Applied → T ApplyResult) → Reply → T ApplyResult
  after_op standing op done rest (Reply.answered v) = rest (apply_op op done)
  after_op standing op done rest (Reply.failed status message) = stopped standing status done
  after_op standing op done rest (Reply.limited status message) = stopped standing 0 done

  unfoldable pub apply_contact_ops :
      CharacterToken → Value → List ContactOp → Applied → T ApplyResult
  unfolding run_contact_op apply_op stopped
  apply_contact_ops token standing [] done = t_pure (ApplyResult.applied done)
  apply_contact_ops token standing (op ∷ ops) done = run_contact_op token standing op >>= λ reply.
      after_op standing op done (apply_contact_ops token standing ops) reply

  abbrev pub told : ContactPlan → Value → ApplyResult → Answer
  told plan standing (ApplyResult.partial answer) = Answer.result answer
  told plan standing (ApplyResult.applied done) = Answer.result (
      ("status", Value.text "done")
      ∷ ("contacts", slice_of plan.names)
      ∷ ("standing", standing)
      ∷ [])

  unfoldable pub set_decided : CharacterToken → Value → Bool → ContactPlan → Decision → T Answer
  unfolding apply_contact_ops build_contact_ops slice_of
  set_decided token standing watched plan (some preview) = t_pure (Answer.required preview)
  set_decided token standing watched plan none =
      apply_contact_ops token standing
        (build_contact_ops plan.updating plan.neu watched plan.watchable) nothing_applied
      >>= λ r. t_pure (told plan standing r)

  unfoldable pub set_planned : ContactsSetIn → CharacterToken → ContactPlan → T Answer
  unfolding set_decided contact_set_preview ids_value ask
  set_planned in_ token plan =
      let watched = bool_def in_.watched false in
      ask digest fresh (
        authz "eve_contacts_set" cap_contacts
          (owned token (
            ("contact_ids", ids_value plan.ids)
            ∷ ("standing", in_.standing)
            ∷ ("watched", flag watched)
            ∷ []))
          (contact_set_preview token.character_name plan in_.standing watched) in_.confirm_token
          token)
      >>= set_decided token in_.standing watched plan

  unfoldable pub set_resolved :
      ContactsSetIn → CharacterToken → Resolved (List NameMatch) → T Answer
  unfolding set_planned plan_contact_set
  set_resolved in_ token (Resolved.refused answer) = t_pure (Answer.result answer)
  set_resolved in_ token (Resolved.found matches) =
      read (net.contacts token.character_id) >>= λ known.
      set_planned in_ token (plan_contact_set matches known empty_plan)

  unfoldable pub eve_contacts_set : ContactsSetIn → T Answer
  unfolding my_character set_resolved resolve_matches
  eve_contacts_set in_ = my_character >>= λ token.
      resolve_matches net in_.names entities >>= λ r. set_resolved in_ token r

  unfoldable pub delete_resolved :
      ContactsDeleteIn → CharacterToken → Resolved (List NameMatch) → T Answer
  unfolding carry_out ids_value slice_of itoa
  delete_resolved in_ token (Resolved.refused answer) = t_pure (Answer.result answer)
  delete_resolved in_ token (Resolved.found matches) =
      let contact_ids = ids_value (map (λ (m : NameMatch). m.id) matches) in
      let names = slice_of (map (λ (m : NameMatch). m.name) matches) in
      carry_out net digest fresh
        (authz "eve_contacts_delete" cap_contacts (owned token (("contact_ids", contact_ids) ∷ []))
          (("action", Value.text "Delete contacts and the standings set on them")
            ∷ ("character", Value.text token.character_name)
            ∷ ("contacts", names)
            ∷ [])
          in_.confirm_token token)
        (record {
          method = Method.delete;
          path = "characters" ∷ itoa token.character_id ∷ "contacts" ∷ [];
          character_id = token.character_id;
          params = ("contact_ids", contact_ids) ∷ [];
          body = Body.empty;
        })
        (λ v. ("status", Value.text "done") ∷ ("removed", names) ∷ [])

  unfoldable pub eve_contacts_delete : ContactsDeleteIn → T Answer
  unfolding my_character delete_resolved resolve_matches
  eve_contacts_delete in_ = my_character >>= λ token.
      resolve_matches net in_.names entities >>= λ r. delete_resolved in_ token r
