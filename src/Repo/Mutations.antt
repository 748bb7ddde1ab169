-- ===== src/Repo/Mutations.antt =====
-- internal/domain/mutation: the audit log, and the mail cap that is counted from it.
pub mod Window
use eve_online_mcp.Prelude.{
  ℕ, ◌+◌, ◌-◌, ◌*◌, String, Bool, true, false, ◌&&◌, Option, none, some, List, [], ◌∷◌, ◌++◌,
  if◌then◌else◌, ltb, leb, ◌==◌, str_eq, remove_if, any, count,
}
use eve_online_mcp.Domain.{hour, day, Mutation, MutationRow, Character, Error, driver}
use eve_online_mcp.Repo.Confirms.{session_exists}
use eve_online_mcp.Store.{
  Db, World, Result, ok, err, M, Statement, sql, sql_commit, settle, touch_db, within_tx, pure,
  raise, ◌>>=◌, ◌>>◌,
}

abbrev pub outcome_ok : String
outcome_ok = "ok"

abbrev pub tool_mail_send : String
tool_mail_send = "eve_mail_send"

unfoldable pub character_exists : ℕ → List Character → Bool
character_exists id rows = any (λ c. c.id == id) rows

abbrev pub null_if_zero : ℕ → Option ℕ
null_if_zero n = if n == 0 then none else some n

abbrev pub null_if_empty : String → Option String
null_if_empty s = if str_eq s "" then none else some s

-- What the mail cap counts: a mail of the character that was sent, at a time not before `since`.
unfoldable pub is_mail_since : ℕ → ℕ → MutationRow → Bool
is_mail_since character since r =
    (r.character_id == character)
    && (str_eq r.tool tool_mail_send && (str_eq r.outcome outcome_ok && leb since r.created_at))

-- `created_at >= now() - interval '1 hour'`; a difference that stops at zero lets every row in too.
unfoldable pub in_last_hour : ℕ → ℕ → MutationRow → Bool
in_last_hour character now r = is_mail_since character (now - hour) r

unfoldable pub row_of : ℕ → Mutation → MutationRow
row_of now m = record {
  character_id = m.character_id;
  session_id = null_if_zero m.session_id;
  tool = m.tool;
  capability = m.capability;
  args_digest = m.args_digest;
  summary = m.summary;
  outcome = m.outcome;
  esi_status = null_if_zero m.esi_status;
  error = null_if_empty m.error;
  created_at = now;
}

-- The foreign keys of the row.
unfoldable pub refers : Mutation → Db → Bool
refers m d =
    character_exists m.character_id d.characters
    && (if m.session_id == 0 then true else session_exists m.session_id d.sessions)

unfoldable pub append_sql : Mutation → Statement (Unit {0})
append_sql m now d =
    if refers m d then some (tt, record d { mutations = row_of now m ∷ d.mutations }) else none

unfoldable pub count_mail_cap_sql : ℕ → Statement ℕ
unfolding in_last_hour
count_mail_cap_sql character now d = some (count (in_last_hour character now) d.mutations, d)

abbrev pub is_old : ℕ → MutationRow → Bool
is_old now r = ltb (r.created_at + 90 * day) now

unfoldable pub delete_old_sql : Statement ℕ
delete_old_sql now d =
    some
      (count (is_old now) d.mutations, record d { mutations = remove_if (is_old now) d.mutations })

-- `withMailCap`: the advisory lock of the character, then the function, in one transaction.
unfoldable pub with_mail_cap : {A : Type 0} → M A → M A
with_mail_cap f = within_tx (sql touch_db >> f)

abbrev pub is_sent_mail : Mutation → Bool
is_sent_mail m = str_eq m.tool tool_mail_send && str_eq m.outcome outcome_ok

unfoldable pub append : Mutation → M (Unit {0})
append m = if is_sent_mail m then with_mail_cap (sql (append_sql m)) else sql (append_sql m)

unfoldable pub count_mail_cap : ℕ → M ℕ
count_mail_cap character = with_mail_cap (sql (count_mail_cap_sql character))

unfoldable pub delete_old : M ℕ
delete_old = sql delete_old_sql

-- mutation.Hold: a transaction that stays open from the count to the insert. `began` is its
-- `now()`, and `pending` holds the rows that it has inserted and not committed. A hold that was
-- opened inside a transaction is `joined` to it and ends nothing.
pub record MailCapHold : Type 0 where
  pub count : ℕ
  pub began : ℕ
  pub pending : List MutationRow
  pub joined : Bool

abbrev pub close_hold : {A : Type 0} → World → Result A × World → Result A × World
close_hold w (ok a, w') = (ok a, record w' { in_tx = w.in_tx })
close_hold w (err e, w') = (err e, record w' { in_tx = w.in_tx; calls = w'.calls + 1 })

unfoldable pub open_hold : ℕ → M ℕ
open_hold character w =
    close_hold w ((sql touch_db >> λ v. count_mail_cap character (record v { in_tx = true })) w)

unfoldable pub hold_mail_cap : ℕ → M MailCapHold
unfolding open_hold
hold_mail_cap character w =
    if w.in_tx
    then (do
      n ← count_mail_cap character
      λ v. (ok (record { count = n; began = v.now; pending = []; joined = true }), v))
        w
    else (do
      n ← open_hold character
      λ v. (ok (record { count = n; began = v.now; pending = []; joined = false }), v))
        w

-- The insert inside the hold's transaction: the row waits for the commit.
unfoldable pub insert_pending : Mutation → MailCapHold → M MailCapHold
insert_pending m h w =
    sql
      (λ now d.
        if refers m d then some (record h { pending = row_of h.began m ∷ h.pending }, d) else none)
      w

-- `Hold.Do` of an append.
unfoldable pub append_held : Mutation → MailCapHold → M MailCapHold
unfolding insert_pending
append_held m h =
    if h.joined
    then append m >> pure h
    else if is_sent_mail m
    then sql touch_db >> insert_pending m h
    else insert_pending m h

abbrev pub commit_rows : List MutationRow → Db → Db
commit_rows rows d = record d { mutations = rows ++ d.mutations }

-- `Hold.Release`: commit on no error, else roll back.
unfoldable pub release_hold : Option Error → MailCapHold → M (Unit {0})
unfolding sql_commit
release_hold e h =
    if h.joined
    then pure tt
    else elim e [ none ↦ sql_commit (commit_rows h.pending) | some _ ↦ sql touch_db ]
