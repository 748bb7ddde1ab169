-- ===== src/Tools.antt =====
-- internal/usecase/eve/writes_*.go, what its tools share: the session's state at a desk, the calls of
-- ESI, and the course of a write from its consent to its record.
pub mod Texts
pub mod Pick
pub mod Mail
pub mod Compose
pub mod Contacts
pub mod Fittings
pub mod Windows
pub mod Calendar
pub mod Serve
pub mod Consented
pub mod Sends
pub mod Sound
use eve_online_mcp.Prelude.{
  ℕ, String, Bool, true, false, ◌||◌, ◌&&◌, Option, none, some, List, [], ◌∷◌, if◌then◌else◌, ltb,
  ◌==◌,
}
use eve_online_mcp.Domain.{Error, CharacterToken, esi_failure}
use eve_online_mcp.Store.{World, Result, ok, err, M}
use eve_online_mcp.Write.Summary.{Args, Value}
use eve_online_mcp.Write.Guard.Monad.{Guard, G, attempt}
use eve_online_mcp.Write.Guard.{Authz, Decision, Preview, authorize, record_write}
use eve_online_mcp.Write.Call.{EsiOutcome, log_of}
use eve_online_mcp.Session.{character}
use eve_online_mcp.Esi.Lookup.{Found}

pub data Method : Type 0 where
  put post delete : Method

pub data Body : Type 0 where
  empty : Body
  fields : Args → Body
  ids : List ℕ → Body

-- A call of ESI that changes the game: `Put`, `Post` or `Delete` as a character.
pub record Write : Type 0 where
  pub method : Method
  pub path : List String
  pub character_id : ℕ
  pub params : Args
  pub body : Body

-- What such a call answers: a value, or the status and the message of an error, which is
-- `limited` for an `esi.RateLimitedError`.
pub data Reply : Type 0 where
  answered : Value → Reply
  failed limited : ℕ → String → Reply

-- A price that is not negative: its whole part, whether there is more, and the float itself.
pub record Amount : Type 0 where
  pub whole : ℕ
  pub more : Bool
  pub shown : Value

pub record MailHeader : Type 0 where
  pub from : ℕ
  pub subject : Value
  pub timestamp : Value

pub record Event : Type 0 where
  pub title : Value
  pub date : Value
  pub owner_name : Value

pub record Fitting : Type 0 where
  pub fitting_id : ℕ
  pub name : Value
  pub items : ℕ

-- The client of ESI, which may refresh the session's token on the way, and the texts of the
-- language: `send` changes the game, and every other call reads.
pub record Net : Type 0 where
  pub send : Write → World → Reply × World
  pub universe_ids : List String → M Found
  pub name : Value → Bool → M String
  pub mail_header : ℕ → ℕ → M MailHeader
  pub event : ℕ → ℕ → M Event
  pub fittings : ℕ → M (List Fitting)
  pub contacts : ℕ → M (List ℕ)
  pub structures : ℕ → String → M (List ℕ)
  pub cspa : ℕ → List ℕ → M (Option Amount)
  pub lower : String → String
  pub quote : String → String
  pub int_of : String → Value
  pub fitting_id_of : Value → Value

-- One time that the guard was asked to authorize a write: the world before, the one after, and the
-- writes that had been sent by then.
pub record Asking : Type 0 where
  pub before : World
  pub after : World
  pub sent : List Write

-- What a session works on: its guard and the world; and two logs, which the code does not keep, of
-- the writes it has sent and of the askings of its guard, the last ones first.
pub record Desk : Type 0 where
  pub guard : Guard
  pub world : World
  pub sent : List Write
  pub asked : List Asking

abbrev pub T : Type 0 → Type 0
T A = Desk → Result A × Desk

abbrev pub t_resume : {A B : Type 0} → Result A × Desk → (A → T B) → Result B × Desk
t_resume (ok a, d) f = f a d
t_resume (err e, d) f = (err e, d)

infixl 5 ◌>>=◌ ◌>>◌
abbrev pub ◌>>=◌ : {A B : Type 0} → T A → (A → T B) → T B
◌>>=◌ m f d = t_resume (m d) f

abbrev pub ◌>>◌ : {A B : Type 0} → T A → T B → T B
m >> k = m >>= λ _. k

module _ {A : Type 0} where
  abbrev pub t_pure : A → T A
  t_pure a d = (ok a, d)

  abbrev pub t_raise : Error → T A
  t_raise e d = (err e, d)

  -- A call that leaves the guard alone and writes nothing.
  abbrev pub read : M A → T A
  read m d = let (r, w) = m d.world in (r, record d { world = w })

  abbrev pub guarded : G A → T A
  guarded m d = let (r, s) = m (d.guard, d.world) in (r, record d { guard = s.0; world = s.1 })

  abbrev pub settle_result : Result A → T A
  settle_result r d = (r, d)

-- What a tool answers beside an error: a preview that asks for consent, or a result.
pub data Answer : Type 0 where
  required : Preview → Answer
  result : Args → Answer

-- `a.Character(ctx)`: the guard has the numbers of its session.
unfoldable pub my_character : T CharacterToken
my_character d = read (character d.guard.character_id d.guard.session_id) d

abbrev pub authz : String → String → Args → Args → String → CharacterToken → Authz
authz tool capability args preview confirm_token token = record {
  tool = tool;
  capability = capability;
  args = args;
  preview = preview;
  token = confirm_token;
  scopes = token.scopes;
}

-- The arguments of a write: its fields, and the character.
abbrev pub owned : CharacterToken → Args → Args
owned token args = ("character_id", Value.int token.character_id) ∷ args

abbrev pub bool_def : Option Bool → Bool → Bool
bool_def none def = def
bool_def (some b) def = b

-- `esiWriteOutcome`
abbrev pub outcome_of : Reply → EsiOutcome
outcome_of (Reply.answered v) = none
outcome_of (Reply.failed status message) = some (status, message)
outcome_of (Reply.limited status message) = some (status, message)

abbrev pub settle : (Value → Args) → Reply → T Answer
settle done (Reply.answered v) = t_pure (Answer.result (done v))
settle done (Reply.failed status message) = t_raise esi_failure
settle done (Reply.limited status message) = t_raise esi_failure

-- `digest` is `digestArgs`, and `fresh` the token that a preview would draw.
-- `a.Guard.Authorize`
unfoldable pub ask : (Args → Result String) → String → Authz → T Decision
unfolding authorize
ask digest fresh in_ d =
    let (r, s) = authorize digest fresh in_ (d.guard, d.world) in
    (
      r,
      record d {
        guard = s.0;
        world = s.1;
        asked = record { before = d.world; after = s.1; sent = d.sent } ∷ d.asked;
      },
    )

module _ (net : Net) (digest : Args → Result String) (fresh : String) where
  unfoldable pub send : Write → T Reply
  send write d =
      let (reply, w) = net.send write d.world in
      (ok reply, record d { world = w; sent = write ∷ d.sent })

  -- `recordWrite`: a record that fails is logged and forgotten.
  unfoldable pub record_reply : Authz → Reply → T (Result (Unit {0}))
  record_reply in_ reply = guarded (attempt (record_write digest (log_of in_ (outcome_of reply))))

  unfoldable pub carry_on : Authz → Write → (Value → Args) → Decision → T Answer
  unfolding send record_reply
  carry_on in_ write done (some preview) = t_pure (Answer.required preview)
  carry_on in_ write done none = send write >>= λ reply. record_reply in_ reply >> settle done reply

  -- The end of every tool that sends one write.
  unfoldable pub carry_out : Authz → Write → (Value → Args) → T Answer
  unfolding carry_on ask
  carry_out in_ write done = ask digest fresh in_ >>= carry_on in_ write done
