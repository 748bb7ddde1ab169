-- ===== src/Tools/Contacts/Told.antt =====
-- internal/usecase/eve/writes_contacts.go, `applyContactOps`: what its answers say of the calls that
-- were sent.
use eve_online_mcp.Prelude.{
  ℕ, ◌+◌, ◌≡◌, ◌∙◌, refl, sym, ap, subst, inl, inr, String, List, [], ◌∷◌, ◌++◌, arith, length,
  Bool-cases, ◌==◌,
}
use eve_online_mcp.Domain.{CharacterToken}
use eve_online_mcp.Store.{Result, ok}
use eve_online_mcp.Write.Summary.{Args, Value}
use eve_online_mcp.Tools.{Net, Desk, Reply, Write, send, record_reply}
use eve_online_mcp.Tools.Contacts.{
  ContactOp, Applied, ApplyResult, applied, partial, apply_op, op_write, partly_applied, stopped,
  run_contact_op, after_op, apply_contact_ops,
}

-- The sets of ids after some calls that went through.
abbrev pub applied_all : List ContactOp → Applied → Applied
applied_all [] done = done
applied_all (op ∷ ops) done = applied_all ops (apply_op op done)

-- The writes of some calls on top of those that were sent before.
abbrev pub sent_all : CharacterToken → Value → List ContactOp → List Write → List Write
sent_all token standing [] before = before
sent_all token standing (op ∷ ops) before =
    sent_all token standing ops (op_write token standing op ∷ before)

-- A call that did not go through, and the status that is told of it.
abbrev pub IsStop : ℕ → Reply → Type 0
IsStop status (Reply.answered v) = ⊥
IsStop status (Reply.failed s m) = status ≡ s
IsStop status (Reply.limited s m) = status ≡ 0

module _ (net : Net) (digest : Args → Result String) (fresh : String) (token : CharacterToken)
    (standing : Value) where
  -- What ESI answers to a call that is sent now, and the desk after it.
  abbrev pub reply_to : ContactOp → Desk → Reply
  reply_to op d = (net.send (op_write token standing op) d.world).0

  abbrev pub after_call : ContactOp → Desk → Desk
  after_call op d = (run_contact_op net digest fresh token standing op d).1

  -- From a desk to another by calls of which ESI answered each with a value.
  abbrev pub WentThrough : List ContactOp → Desk → Desk → Type 0
  WentThrough [] d e = e ≡ d
  WentThrough (op ∷ ops) d e =
      ((v : Value) × (reply_to op d ≡ Reply.answered v)) × WentThrough ops (after_call op d) e

  -- What an answer of success says: all the calls went through, and nothing else was sent.
  pub record AllApplied (ops : List ContactOp) (done a : Applied) (d d' : Desk) : Type 0 where
    pub counts : a ≡ applied_all ops done
    pub sent : d'.sent ≡ sent_all token standing ops d.sent
    pub through : WentThrough ops d d'

  -- What one of partial success says: the first calls went through, the next one did not, and it
  -- was the last to be sent; the answer counts the contacts of the first calls.
  pub record PartlyApplied (ops : List ContactOp) (done : Applied) (answer : Args) (d d' : Desk)
      : Type 0 where
    pub gone : List ContactOp
    pub op : ContactOp
    pub rest : List ContactOp
    pub status : ℕ
    pub reached : Desk
    pub split : ops ≡ gone ++ op ∷ rest
    pub counts : answer ≡ partly_applied standing status (applied_all gone done)
    pub sent : d'.sent ≡ op_write token standing op ∷ sent_all token standing gone d.sent
    pub through : WentThrough gone d reached
    pub stop : IsStop status (reply_to op reached)
    pub last : d' ≡ after_call op reached

  abbrev pub Told : List ContactOp → Applied → ApplyResult → Desk → Desk → Type 0
  Told ops done (ApplyResult.applied a) d d' = AllApplied ops done a d d'
  Told ops done (ApplyResult.partial answer) d d' = PartlyApplied ops done answer d d'

  stopped-ok :
      (status : ℕ) (done : Applied) (d d' : Desk) (r : ApplyResult)
      → stopped standing status done d ≡ (ok r, d')
      → (ApplyResult.partial (partly_applied standing status done) ≡ r) × (d ≡ d')
  unfolding stopped
  stopped-ok status done d d' r h =
      elim (Bool-cases (length done.updated + length done.added == 0)) [
        | inl none_yet ↦ ground (arith, h, none_yet)
        | inr some_done ↦ ground (arith, h, some_done)
      ]

  stopped-Told :
      (op : ContactOp) (ops : List ContactOp) (status : ℕ) (done : Applied) (d d' : Desk)
      (r : ApplyResult)
      → IsStop status (reply_to op d)
      → (after_call op d).sent ≡ op_write token standing op ∷ d.sent
      → stopped standing status done (after_call op d) ≡ (ok r, d')
      → Told (op ∷ ops) done r d d'
  stopped-Told op ops status done d d' r stop s h =
      let (answer, same) = stopped-ok status done (after_call op d) d' r h in
      subst (λ a. Told (op ∷ ops) done a d d') answer
        (record {
          gone = [];
          op = op;
          rest = ops;
          status = status;
          reached = d;
          split = refl;
          counts = refl;
          sent = ap (λ (e : Desk). e.sent) (sym same) ∙ s;
          through = refl;
          stop = stop;
          last = sym same;
        })

  cons-Told :
      (op : ContactOp) (ops : List ContactOp) (done : Applied) (r : ApplyResult) (d d' : Desk)
      → ((v : Value) × (reply_to op d ≡ Reply.answered v))
      → (after_call op d).sent ≡ op_write token standing op ∷ d.sent
      → Told ops (apply_op op done) r (after_call op d) d'
      → Told (op ∷ ops) done r d d'
  cons-Told op ops done (applied a) d d' answered s h = record {
    counts = h.counts;
    sent = h.sent ∙ ap (sent_all token standing ops) s;
    through = (answered, h.through);
  }
  cons-Told op ops done (partial answer) d d' answered s h = record {
    gone = op ∷ h.gone;
    op = h.op;
    rest = h.rest;
    status = h.status;
    reached = h.reached;
    split = ap (λ (os : List ContactOp). op ∷ os) h.split;
    counts = h.counts;
    sent = h.sent ∙ ap (λ ws. op_write token standing h.op ∷ sent_all token standing h.gone ws) s;
    through = (answered, h.through);
    stop = h.stop;
    last = h.last;
  }

  reply-Told :
      (op : ContactOp) (ops : List ContactOp) (done : Applied) (reply : Reply) (d d' : Desk)
      (r : ApplyResult)
      → reply_to op d ≡ reply
      → (after_call op d).sent ≡ op_write token standing op ∷ d.sent
      → (apply_contact_ops net digest fresh token standing ops (apply_op op done) (after_call op d)
            ≡ (ok r, d')
          → Told ops (apply_op op done) r (after_call op d) d')
      → after_op net digest fresh standing op done
          (apply_contact_ops net digest fresh token standing ops)
          reply
          (after_call op d)
        ≡ (ok r, d')
      → Told (op ∷ ops) done r d d'
  reply-Told op ops done (Reply.answered v) d d' r e s ih h =
      cons-Told op ops done r d d' (v, e) s (ih h)
  reply-Told op ops done (Reply.failed status m) d d' r e s ih h =
      stopped-Told op ops status done d d' r (subst (IsStop status) (sym e) refl) s h
  reply-Told op ops done (Reply.limited status m) d d' r e s ih h =
      stopped-Told op ops 0 done d d' r (subst (IsStop 0) (sym e) refl) s h

  -- `applyContactOps` tells the truth: an answer of success means that every call was sent, that
  -- ESI answered each with a value, and that the contacts of all are counted; an answer of partial
  -- success counts exactly the contacts of the calls that ESI answered with a value, and after
  -- these one more call was sent, to which ESI answered an error with the status that is told, or
  -- with its limit, which is told as 0.
  pub apply_contact_ops-Told :
      (ops : List ContactOp) (done : Applied) (d d' : Desk) (r : ApplyResult)
      → apply_contact_ops net digest fresh token standing ops done d ≡ (ok r, d')
      → Told ops done r d d'
  unfolding apply_contact_ops run_contact_op send record_reply
  apply_contact_ops-Told [] done d d' (applied a) h = record {
    counts = ground (arith, h);
    sent = ground (arith, h);
    through = ground (arith, h);
  }
  apply_contact_ops-Told [] done d d' (partial answer) h = ground (arith, h)
  apply_contact_ops-Told (op ∷ ops) done d d' r h =
      reply-Told op ops done _ d d' r refl refl
        (λ k. apply_contact_ops-Told ops (apply_op op done) (after_call op d) d' r k) h
