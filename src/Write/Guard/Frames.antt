-- ===== src/Write/Guard/Frames.antt =====
-- What the parts of the guard leave alone: frames of a call, closed under its composition.
use eve_online_mcp.Prelude.{
  ℕ, ◌≡◌, refl, ◌∙◌, String, true, Option, none, some, List, [], ◌∷◌, Bool-cases, inl, inr,
}
use eve_online_mcp.Domain.{Error, Confirm}
use eve_online_mcp.Store.{Db, World, Result, ok, err, M, sql, or_raise, touch_db}
use eve_online_mcp.Store.Laws.{
  SameLog, SameLog-refl, SameLog-trans, Inert, sql-Inert, bind-Inert, within_tx-Inert, Spares,
}
use eve_online_mcp.Repo.Confirms
use eve_online_mcp.Repo.Mutations
use eve_online_mcp.Repo.Mutations.{MailCapHold}
use eve_online_mcp.Domain.{confirm_not_found}
use eve_online_mcp.Write.Policy.{Capability, capability, not_granted}
use eve_online_mcp.Write.Guard.{
  known, check_capability, none_missing, check_scope, needed_scopes, release_held,
  release_mail_hold, drop_hold, Verdict, pass, refuse, discard, verdict, enforce, found_confirm,
  pending_confirm, judge_confirm, consume_confirm, mail_cap_blocked,
}
use eve_online_mcp.Write.Guard.Monad.{Guard, G, lift, g_raise, g_resume, attempt, ◌>>=◌}

-- A relation between the states before and after, with the identity and composition.
pub record Frame (R : Guard × World → Guard × World → Type 0) : Type 0 where
  pub stay : (s : Guard × World) → R s s
  pub join : (s t u : Guard × World) → R s t → R t u → R s u

abbrev pub Keeps : (Guard × World → Guard × World → Type 0) → {A : Type 0} → G A → Type 0
Keeps R m = (s : Guard × World) → R s (m s).1

module _ {R : Guard × World → Guard × World → Type 0} (fr : Frame R) where
  g_resume-Keeps :
      {A B : Type 0} (s : Guard × World) (r : Result A × (Guard × World)) (f : A → G B)
      → R s r.1
      → ((a : A) → Keeps R (f a))
      → R s (g_resume r f).1
  g_resume-Keeps s (ok a, t) f p h = fr.join s t _ p (h a t)
  g_resume-Keeps s (err e, t) f p h = p

  pub bind-Keeps :
      {A B : Type 0} (m : G A) (f : A → G B)
      → Keeps R m
      → ((a : A) → Keeps R (f a))
      → Keeps R (m >>= f)
  bind-Keeps m f hm hf s = g_resume-Keeps s (m s) f (hm s) hf

-- A sequence that succeeds is its second part, run where its first part succeeded.
pub g_resume-ok :
    {A B : Type 0} (r : Result A × (Guard × World)) (f : A → G B) {b : B}
    → (g_resume r f).0 ≡ ok b
    → (a : A) × (r.0 ≡ ok a) × (g_resume r f ≡ f a r.1)
g_resume-ok (ok a, s) f h = (a, refl, refl)
g_resume-ok (err e, s) f h = cc

-- The audit log and the owner of the guard are as they were.
pub record Mild (s t : Guard × World) : Type 0 where
  pub logged : SameLog s.1 t.1
  pub owner : t.0.character_id ≡ s.0.character_id
  pub session : t.0.session_id ≡ s.0.session_id

-- The audit log and the whole guard are as they were.
pub record Quiet (s t : Guard × World) : Type 0 where
  pub logged : SameLog s.1 t.1
  pub guard : t.0 ≡ s.0

pub Mild-Frame : Frame Mild
Mild-Frame = record {
  stay = λ s. record { logged = SameLog-refl s.1; owner = refl; session = refl };
  join = λ s t u p q. record {
    logged = SameLog-trans p.logged q.logged;
    owner = q.owner ∙ p.owner;
    session = q.session ∙ p.session;
  };
}

pub Quiet-Frame : Frame Quiet
Quiet-Frame = record {
  stay = λ s. record { logged = SameLog-refl s.1; guard = refl };
  join =
      λ s t u p q. record { logged = SameLog-trans p.logged q.logged; guard = q.guard ∙ p.guard };
}

pub Mild-of_Quiet : {s t : Guard × World} → Quiet s t → Mild s t
Mild-of_Quiet q = record { logged = q.logged; owner = cc (q.guard); session = cc (q.guard) }

pub lift-Quiet : {A : Type 0} (m : M A) → Inert m → Keeps Quiet (lift m)
lift-Quiet m h (g, w) = record { logged = h w; guard = refl }

-- The statements of the confirm table and the counts leave the audit log alone.
put_sql-Spares : (c : Confirm) (now : ℕ) (d : Db) → Spares d (Confirms.put_sql c now d)
unfolding Confirms.put_sql
put_sql-Spares c now d = elim (Bool-cases (Confirms.session_exists c.session_id d.sessions)) [
  | inl known ↦ rw known refl
  | inr unknown ↦ rw unknown tt
]

pub put-Inert : (c : Confirm) → Inert (Confirms.put c)
unfolding Confirms.put
put-Inert c w = sql-Inert _ (put_sql-Spares (Confirms.stamp w.now c)) w

or_raise-Inert : {A : Type 0} (o : Option A) (e : Error) → Inert (or_raise o e)
or_raise-Inert none e w = SameLog-refl w
or_raise-Inert (some a) e w = SameLog-refl w

get-Inert : (token : String) → Inert (Confirms.get token)
unfolding Confirms.get Confirms.get_sql
get-Inert token =
    bind-Inert (sql (Confirms.get_sql token)) (λ o. or_raise o confirm_not_found)
      (sql-Inert (Confirms.get_sql token) (λ now d. refl)) (λ o. or_raise-Inert o confirm_not_found)

delete-Inert : (token : String) → Inert (Confirms.delete token)
unfolding Confirms.delete Confirms.delete_sql
delete-Inert token = sql-Inert (Confirms.delete_sql token) (λ now d. refl)

touch-Inert : Inert (sql touch_db)
touch-Inert = sql-Inert touch_db (λ now d. refl)

pub count_mail_cap-Inert : (c : ℕ) → Inert (Mutations.count_mail_cap c)
unfolding Mutations.count_mail_cap Mutations.with_mail_cap Mutations.count_mail_cap_sql
count_mail_cap-Inert c =
    within_tx-Inert _
      (bind-Inert _ _ touch-Inert (λ _. sql-Inert (Mutations.count_mail_cap_sql c) (λ now d. refl)))

-- A hold that is released with an error has written nothing.
pub roll_back-Inert : (e : Error) (h : MailCapHold) → Inert (Mutations.release_hold (some e) h)
unfolding Mutations.release_hold
roll_back-Inert e h w = elim (Bool-cases h.joined) [
  | inl j ↦ rw j (SameLog-refl w)
  | inr own ↦ rw own (touch-Inert w)
]

close_hold-SameLog :
    {A : Type 0} (w : World) (r : Result A × World)
    → SameLog (record w { in_tx = true }) (record r.1 { in_tx = true })
    → SameLog w (Mutations.close_hold w r).1
close_hold-SameLog w (ok a, v) p = record { log = p.log; tx = refl; clock = p.clock }
close_hold-SameLog w (err e, v) p = record { log = p.log; tx = refl; clock = p.clock }

-- The guard's steps before the record.
release_held-Mild : (e : Error) (h : Option MailCapHold) → Keeps Mild (release_held (some e) h)
unfolding release_held
release_held-Mild e none s = Mild-Frame.stay s
release_held-Mild e (some h) (g, w) = record {
  logged = roll_back-Inert e h w;
  owner = refl;
  session = refl;
}

pub drop_hold-Mild : (e : Error) → Keeps Mild (drop_hold e)
unfolding drop_hold release_mail_hold
drop_hold-Mild e (g, w) =
    let p = release_held-Mild e g.mail_hold (g, w) in
    record { logged = p.logged; owner = p.owner; session = p.session }

release_held-idle :
    (e : Option Error) (g : Guard) (w : World) (h : Option MailCapHold)
    → g.mail_hold ≡ h
    → (release_held e h (g, w)).1.0.mail_hold ≡ none
unfolding release_held
release_held-idle e g w none held = held
release_held-idle e g w (some h) held = refl

-- No hold is left.
pub drop_hold-idle : (e : Error) (s : Guard × World) → (drop_hold e s).1.0.mail_hold ≡ none
unfolding drop_hold release_mail_hold
drop_hold-idle e (g, w) = release_held-idle (some e) g w g.mail_hold refl

pub release_mail_hold-idle :
    (e : Option Error) (s : Guard × World) → (release_mail_hold e s).1.0.mail_hold ≡ none
unfolding release_mail_hold
release_mail_hold-idle e (g, w) = release_held-idle e g w g.mail_hold refl

known-Quiet : (c : Option Capability) → Keeps Quiet (known c)
unfolding known
known-Quiet none s = Quiet-Frame.stay s
known-Quiet (some c) s = Quiet-Frame.stay s

pub check_capability-Quiet : (name : String) → Keeps Quiet (check_capability name)
unfolding check_capability
check_capability-Quiet name = known-Quiet (capability name)

none_missing-Quiet : (missing : List String) → Keeps Quiet (none_missing missing)
unfolding none_missing
none_missing-Quiet [] s = Quiet-Frame.stay s
none_missing-Quiet (x ∷ missing) s = Quiet-Frame.stay s

pub check_scope-Quiet :
    (name : String) (granted : List String) → Keeps Quiet (check_scope name granted)
unfolding check_scope
check_scope-Quiet name granted = none_missing-Quiet (not_granted granted (needed_scopes name))

enforce-Quiet : (token : String) (v : Verdict) → Keeps Quiet (enforce token v)
unfolding enforce
enforce-Quiet token pass = lift-Quiet (Confirms.delete token) (delete-Inert token)
enforce-Quiet token (refuse e) = λ s. Quiet-Frame.stay s
enforce-Quiet token (discard e) =
    bind-Keeps Quiet-Frame (lift (Confirms.delete token)) (λ _. g_raise {A = Unit {0}} e)
      (lift-Quiet (Confirms.delete token) (delete-Inert token)) (λ _ s. Quiet-Frame.stay s)

judge_confirm-Quiet :
    (tool digest token : String) (c : Confirm) → Keeps Quiet (judge_confirm tool digest token c)
unfolding judge_confirm
judge_confirm-Quiet tool digest token c (g, w) =
    enforce-Quiet token (verdict g w.now c tool digest) (g, w)

found_confirm-Quiet : (r : Result Confirm) → Keeps Quiet (found_confirm r)
unfolding found_confirm
found_confirm-Quiet (ok c) s = Quiet-Frame.stay s
found_confirm-Quiet (err e) s = Quiet-Frame.stay s

pub consume_confirm-Quiet :
    (tool digest token : String) → Keeps Quiet (consume_confirm tool digest token)
unfolding consume_confirm
consume_confirm-Quiet tool digest token =
    bind-Keeps Quiet-Frame (pending_confirm token) (judge_confirm tool digest token)
      (bind-Keeps Quiet-Frame (attempt (lift (Confirms.get token))) found_confirm
        (lift-Quiet (Confirms.get token) (get-Inert token)) found_confirm-Quiet)
      (judge_confirm-Quiet tool digest token)

-- The counter is no part of the log.
pub mail_cap_blocked-Quiet : Keeps Quiet (mail_cap_blocked {A = Unit {0}})
unfolding mail_cap_blocked
mail_cap_blocked-Quiet (g, w) = record {
  logged = record { log = refl; tx = refl; clock = refl };
  guard = refl;
}
