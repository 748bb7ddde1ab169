-- ===== src/Tools/Sound.antt =====
-- The course of a write in internal/usecase/eve/writes_*.go: what a tool may send, and the consent
-- that stands behind it.
use eve_online_mcp.Prelude.{
  ℕ, ◌≤◌, ◌≡◌, ◌∙◌, refl, ap, subst, inl, inr, ◌⊎◌, String, true, none, some, List, [], ◌∷◌, ◌++◌,
  arith, All, any, str_eq, length,
}
use eve_online_mcp.Store.{World, Result, ok, err}
use eve_online_mcp.Write.Summary.{Args, Value, arg, itoa}
use eve_online_mcp.Write.Guard.Monad.{Guard}
use eve_online_mcp.Write.Guard.{Authz, Decision, authorize}
use eve_online_mcp.Write.Guard.Consent.{Confirmed, authorize-Confirmed}
use eve_online_mcp.Tools.{
  Net, Desk, T, Answer, Write, Body, t_resume, ◌>>=◌, ask, Asking, carry_out, carry_on, send,
  record_reply,
}
use eve_online_mcp.Tools.Sends.{Silent, Reads, Sends, settle-sent, settle-asked}
use eve_online_mcp.Tools.Windows.{params_text}

-- A field that a write carries stands in the arguments that were consented to, except the watch of a
-- contact, which is set for characters only.
abbrev pub IsConsented : Authz → String × Value → Type 0
IsConsented in_ (key, value) = (key ≡ "watched") ⊎ (arg key in_.args ≡ some value)

abbrev pub body_fields : Body → Args
body_fields Body.empty = []
body_fields (Body.fields args) = args
body_fields (Body.ids ids) = []

abbrev route_words : List String
route_words =
    "characters" ∷ "mail" ∷ "calendar" ∷ "fittings" ∷ "contacts" ∷ "/ui/openwindow/newmail"
    ∷ "/ui/autopilot/waypoint" ∷ []

-- A part of a write's path is a fixed word, or the number of an argument that was consented to.
abbrev pub IsRoute : Authz → String → Type 0
IsRoute in_ part =
    (any (λ w. str_eq w part) route_words ≡ true)
    ⊎ ((key : String) × ((n : ℕ) × ((arg key in_.args ≡ some (Value.int n)) × (part ≡ itoa n))))

-- The path, the parameters and the fields of a write are those of the consent, and it is sent as
-- the character of the consent; the path of a window goes with its kind.
pub record Covered (in_ : Authz) (write : Write) : Type 0 where
  pub path :
      All (IsRoute in_) write.path
      ⊎ ((kind : String) × (arg "window" in_.args ≡ some (Value.text kind)))
  pub params :
      All (IsConsented in_) write.params
      ⊎ (arg "params" in_.args ≡ some (Value.other (params_text write.params)))
  pub body : All (IsConsented in_) (body_fields write.body)
  pub character : arg "character_id" in_.args ≡ some (Value.int write.character_id)

module _ (digest : Args → Result String) where
  -- The consent behind the writes of a call that led from `d` to `d'`: the guard was asked once,
  -- before any of them was sent, and in the database as it was then it found a consent of the
  -- session's own, in time, to this tool, with this token, which it deleted; the consent covers
  -- each of the writes.
  pub record Consent (tool token : String) (d d' : Desk) (writes : List Write) : Type 0 where
    pub request : Authz
    pub asking : Asking
    pub logged : d'.asked ≡ asking ∷ d.asked
    pub first : asking.sent ≡ d.sent
    pub confirmed : Confirmed digest request d.guard asking.before asking.after
    pub same_tool : request.tool ≡ tool
    pub same_token : request.token ≡ token
    pub covered : All (Covered request) writes

  -- What a tool sent: nothing, or up to `n` writes with a consent behind them.
  pub record Sound (n : ℕ) (tool token : String) (d d' : Desk) : Type 0 where
    pub writes : List Write
    pub sent : d'.sent ≡ writes ++ d.sent
    pub few : length writes ≤ n
    pub allowed : (writes ≡ []) ⊎ Consent tool token d d' writes

  module _ {n : ℕ} {tool token : String} where
    pub idle-Sound : {d d' : Desk} → d'.sent ≡ d.sent → Sound n tool token d d'
    idle-Sound e = record { writes = []; sent = e; few = omega arith; allowed = inl refl }

    pub later-Sound :
        {d d' d'' : Desk} → Silent d d' → Sound n tool token d' d'' → Sound n tool token d d''
    later-Sound p q = record {
      writes = q.writes;
      sent = q.sent ∙ ap (λ ws. q.writes ++ ws) p.sent;
      few = q.few;
      allowed = elim q.allowed [
        | inl idle ↦ inl idle
        | inr c ↦ inr (record {
          request = c.request;
          asking = c.asking;
          logged = c.logged ∙ ap (λ (l : List Asking). c.asking ∷ l) p.asked;
          first = c.first ∙ p.sent;
          confirmed =
              subst (λ g. Confirmed digest c.request g c.asking.before c.asking.after) p.guard
                c.confirmed;
          same_tool = c.same_tool;
          same_token = c.same_token;
          covered = c.covered;
        })
      ];
    }

    resume-Sound :
        {A : Type 0} (d : Desk) (r : Result A × Desk) (f : A → T Answer)
        → Silent d r.1
        → ((a : A) (e : Desk) → Sound n tool token e (f a e).1)
        → Sound n tool token d (t_resume r f).1
    resume-Sound d (ok a, d') f p h = later-Sound p (h a d')
    resume-Sound d (err e, d') f p h = idle-Sound p.sent

    -- A tool goes on after something that it reads.
    pub after-Sound :
        {A : Type 0} (d : Desk) (m : T A) (f : A → T Answer)
        → Reads m
        → ((a : A) (e : Desk) → Sound n tool token e (f a e).1)
        → Sound n tool token d (t_resume (m d) f).1
    after-Sound d m f p h = resume-Sound d (m d) f (p d) h

  -- The desk after the guard was asked, and what was noted of it.
  abbrev asking_of : Desk → Guard × World → Asking
  asking_of d s = record { before = d.world; after = s.1; sent = d.sent }

  abbrev asked_desk : Desk → Guard × World → Desk
  asked_desk d s = record d { guard = s.0; world = s.1; asked = asking_of d s ∷ d.asked }

  module _ (fresh : String) where
    decided-Sound :
        {n : ℕ} (in_ : Authz) (k : Decision → T Answer) (d : Desk)
        (r : Result Decision × (Guard × World))
        → authorize digest fresh in_ (d.guard, d.world) ≡ r
        → ((p : _) (e : Desk) → (k (some p) e).1.sent ≡ e.sent)
        → ((e : Desk) → Sends n (Covered in_) e (k none e).1)
        → ((e : Desk) → (k none e).1.asked ≡ e.asked)
        → Sound n in_.tool in_.token d (t_resume (r.0, asked_desk d r.1) k).1
    decided-Sound in_ k d (err x, s) e shown goes still = idle-Sound refl
    decided-Sound in_ k d (ok (some p), s) e shown goes still = idle-Sound (shown p _)
    decided-Sound in_ k d (ok none, s) e shown goes still =
        let q = goes (asked_desk d s) in
        record {
          writes = q.writes;
          sent = q.sent;
          few = q.few;
          allowed = inr (record {
            request = in_;
            asking = asking_of d s;
            logged = still (asked_desk d s);
            first = refl;
            confirmed =
                subst (λ x. Confirmed digest in_ d.guard d.world x.1.1) e
                  (authorize-Confirmed digest fresh in_ d.guard d.world (ap (λ x. x.0) e));
            same_tool = refl;
            same_token = refl;
            covered = q.each;
          });
        }

    -- A tool that asks for consent before it goes on.
    pub authorized-Sound :
        {n : ℕ} (in_ : Authz) (k : Decision → T Answer)
        → ((p : _) (e : Desk) → (k (some p) e).1.sent ≡ e.sent)
        → ((e : Desk) → Sends n (Covered in_) e (k none e).1)
        → ((e : Desk) → (k none e).1.asked ≡ e.asked)
        → (d : Desk) → Sound n in_.tool in_.token d ((ask digest fresh in_ >>= k) d).1
    unfolding ask
    authorized-Sound in_ k shown goes still d =
        decided-Sound in_ k d (authorize digest fresh in_ (d.guard, d.world)) refl shown goes still

    module _ (net : Net) where
      -- A tool that sends one write, which its consent covers.
      pub carry_out-Sound :
          (in_ : Authz) (write : Write) (done : Value → Args)
          → Covered in_ write
          → (d : Desk)
          → Sound 1 in_.tool in_.token d (carry_out net digest fresh in_ write done d).1
      unfolding carry_out carry_on send record_reply
      carry_out-Sound in_ write done c =
          authorized-Sound in_ (carry_on net digest fresh in_ write done) (λ p e. refl)
            (λ e. record {
              writes = write ∷ [];
              sent = settle-sent done _ _;
              few = omega arith;
              each = (c, tt);
            })
            (λ e. settle-asked done _ _)
