-- ===== src/Tools/Sends.antt =====
-- The course of a tool of internal/usecase/eve/writes_*.go: the parts that read, and the writes that
-- the others send.
use eve_online_mcp.Prelude.{
  ℕ, ◌+◌, ◌≤◌, ◌≡◌, ◌∙◌, refl, ap, some, none, String, List, [], ◌∷◌, ◌++◌, arith, All, length,
  length-append,
}
use eve_online_mcp.Store.{Result, ok, err, M}
use eve_online_mcp.Write.Summary.{Args, Value}
use eve_online_mcp.Write.Guard.{Authz, Decision}
use eve_online_mcp.Tools.{
  Net, Desk, T, Write, Reply, t_resume, read, settle_result, carry_out, carry_on, send,
  record_reply, settle, ask,
}

-- Calls that leave the guard, the writes and the askings as they are.
pub record Silent (d d' : Desk) : Type 0 where
  pub guard : d'.guard ≡ d.guard
  pub sent : d'.sent ≡ d.sent
  pub asked : d'.asked ≡ d.asked

abbrev pub Reads : {A : Type 0} → T A → Type 0
Reads m = (d : Desk) → Silent d (m d).1

pub read-Reads : {A : Type 0} (m : M A) → Reads (read m)
read-Reads m d = record { guard = refl; sent = refl; asked = refl }

pub settle_result-Reads : {A : Type 0} (r : Result A) → Reads (settle_result r)
settle_result-Reads r d = record { guard = refl; sent = refl; asked = refl }

pub join-Silent : {d d' d'' : Desk} → Silent d d' → Silent d' d'' → Silent d d''
join-Silent p q = record {
  guard = q.guard ∙ p.guard;
  sent = q.sent ∙ p.sent;
  asked = q.asked ∙ p.asked;
}

resume-Reads :
    {A B : Type 0} (d : Desk) (r : Result A × Desk) (f : A → T B)
    → Silent d r.1
    → ((a : A) → Reads (f a))
    → Silent d (t_resume r f).1
resume-Reads d (ok a, d') f p h = join-Silent p (h a d')
resume-Reads d (err e, d') f p h = p

-- A call goes on after something that it reads.
pub after-Reads :
    {A B : Type 0} (d : Desk) (m : T A) (f : A → T B)
    → Reads m
    → ((a : A) → Reads (f a))
    → Silent d (t_resume (m d) f).1
after-Reads d m f p h = resume-Reads d (m d) f (p d) h

-- Up to `n` more writes were sent, each of them as `P` says.
pub record Sends (n : ℕ) (P : Write → Type 0) (d d' : Desk) : Type 0 where
  pub writes : List Write
  pub sent : d'.sent ≡ writes ++ d.sent
  pub few : length writes ≤ n
  pub each : All P writes

module _ (P : Write → Type 0) where
  All-append : (xs ys : List Write) → All P xs → All P ys → All P (xs ++ ys)
  All-append [] ys h k = k
  All-append (x ∷ xs) ys h k = (h.0, All-append xs ys h.1 k)

  append_assoc : (xs ys zs : List Write) → xs ++ (ys ++ zs) ≡ (xs ++ ys) ++ zs
  append_assoc [] ys zs = refl
  append_assoc (x ∷ xs) ys zs = ap (λ ws. x ∷ ws) (append_assoc xs ys zs)

  pub none-Sends : (n : ℕ) {d d' : Desk} → d'.sent ≡ d.sent → Sends n P d d'
  none-Sends n e = record { writes = []; sent = e; few = omega arith; each = tt }

  pub join-Sends :
      {m n : ℕ} {d d' d'' : Desk} → Sends m P d d' → Sends n P d' d'' → Sends (m + n) P d d''
  join-Sends {d = d} p q = record {
    writes = q.writes ++ p.writes;
    sent = q.sent ∙ ap (λ ws. q.writes ++ ws) p.sent ∙ append_assoc q.writes p.writes d.sent;
    few = omega (arith, length-append q.writes p.writes, p.few, q.few);
    each = All-append q.writes p.writes q.each p.each;
  }

  pub weaken-Sends : {m n : ℕ} {d d' : Desk} → m ≤ n → Sends m P d d' → Sends n P d d'
  weaken-Sends h p = record {
    writes = p.writes;
    sent = p.sent;
    few = omega (arith, h, p.few);
    each = p.each;
  }

  resume-Sends :
      {A B : Type 0} (m n : ℕ) (d : Desk) (r : Result A × Desk) (f : A → T B)
      → Sends m P d r.1
      → ((a : A) (e : Desk) → Sends n P e (f a e).1)
      → Sends (m + n) P d (t_resume r f).1
  resume-Sends m n d (ok a, d') f p h = join-Sends p (h a d')
  resume-Sends m n d (err e, d') f p h = weaken-Sends (omega arith) p

  -- A call goes on after something that it sends.
  pub after-Sends :
      {A B : Type 0} (m n : ℕ) (d : Desk) (f : T A) (g : A → T B)
      → Sends m P d (f d).1
      → ((a : A) (e : Desk) → Sends n P e (g a e).1)
      → Sends (m + n) P d (t_resume (f d) g).1
  after-Sends m n d f g p h = resume-Sends m n d (f d) g p h

  later-Sends : {n : ℕ} {d d' d'' : Desk} → Silent d d' → Sends n P d' d'' → Sends n P d d''
  later-Sends p q = record {
    writes = q.writes;
    sent = q.sent ∙ ap (λ ws. q.writes ++ ws) p.sent;
    few = q.few;
    each = q.each;
  }

  -- A part that reads, and what then goes on with what it answered.
  known-Sends :
      {A B : Type 0} (n : ℕ) (d : Desk) (r : Result A × Desk) (g : A → T B)
      → Silent d r.1
      → ((a : A) → r.0 ≡ ok a → Sends n P r.1 (g a r.1).1)
      → Sends n P d (t_resume r g).1
  known-Sends n d (ok a, e) g p h = later-Sends p (h a refl)
  known-Sends n d (err x, e) g p h = none-Sends n p.sent

  pub told-Sends :
      {A B : Type 0} (n : ℕ) (d : Desk) (m : T A) (g : A → T B)
      → Reads m
      → ((a : A) → (m d).0 ≡ ok a → Sends n P (m d).1 (g a (m d).1).1)
      → Sends n P d (t_resume (m d) g).1
  told-Sends n d m g p h = known-Sends n d (m d) g (p d) h

pub settle-sent :
    (done : Value → Args) (reply : Reply) (d : Desk) → (settle done reply d).1.sent ≡ d.sent
settle-sent done (Reply.answered v) d = refl
settle-sent done (Reply.failed s m) d = refl
settle-sent done (Reply.limited s m) d = refl

pub settle-asked :
    (done : Value → Args) (reply : Reply) (d : Desk) → (settle done reply d).1.asked ≡ d.asked
settle-asked done (Reply.answered v) d = refl
settle-asked done (Reply.failed s m) d = refl
settle-asked done (Reply.limited s m) d = refl

module _ (P : Write → Type 0) (net : Net) (digest : Args → Result String) (fresh : String) where
  decided-Sends :
      (in_ : Authz) (write : Write) (done : Value → Args) (d e : Desk) (r : Result Decision)
      → P write
      → e.sent ≡ d.sent
      → Sends 1 P d (t_resume (r, e) (carry_on net digest fresh in_ write done)).1
  unfolding carry_on send record_reply
  decided-Sends in_ write done d e (err x) p same = none-Sends P 1 same
  decided-Sends in_ write done d e (ok (some preview)) p same = none-Sends P 1 same
  decided-Sends in_ write done d e (ok none) p same = record {
    writes = write ∷ [];
    sent = settle-sent done _ _ ∙ ap (λ ws. write ∷ ws) same;
    few = omega arith;
    each = (p, tt);
  }

  -- `carry_out` sends the write that it is given, or none.
  pub carry_out-Sends :
      (in_ : Authz) (write : Write) (done : Value → Args) (d : Desk)
      → P write
      → Sends 1 P d (carry_out net digest fresh in_ write done d).1
  unfolding carry_out ask
  carry_out-Sends in_ write done d p =
      decided-Sends in_ write done d (ask digest fresh in_ d).1 (ask digest fresh in_ d).0 p refl
