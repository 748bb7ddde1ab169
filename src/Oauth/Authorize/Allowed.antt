-- ===== src/Oauth/Authorize/Allowed.antt =====
-- internal/usecase/oauth: oauth.go and callback.go together. The redirect is tested once, where the
-- login is stored, and a code is sent to no other.
use eve_online_mcp.Prelude.{
  ◌≡◌, refl, sym, ap, ◌∙◌, subst, arith, String, Bool, true, false, ◌||◌, Option, none, some, List,
  [], ◌∷◌, ◌++◌, Bool-cases, inl, inr, All, str_eq, filter,
}
use eve_online_mcp.Domain.{Login, CharacterToken}
use eve_online_mcp.Store.{World, Result, ok, err}
use eve_online_mcp.Repo.Logins
use eve_online_mcp.Repo.Clients
use eve_online_mcp.Oauth.Authorize.{
  Url, HttpMethod, options, post, other, Registration, PreparedLogin, AuthorizeRequest,
  redirect_allowed, client_redirect_ok, upserted, register_allowed, register_body, serve_register,
  client_of, login_of, login_put, login_prepared, redirect_checked, serve_authorize,
}
use eve_online_mcp.Oauth.Callback.{Location, Callback, authorized, refused, complete_callback}
use eve_online_mcp.Oauth.Callback.Parked.{complete_callback-Parked}
use eve_online_mcp.Oauth.Callback.Kept.{
  login_taken-logins, take-All, put-All, All-find?, clients-logins, upsert_client-logins,
}

module _ (parse : String → Option Url) (lower : String → String) (is_loopback : String → Bool)
    (extra : List String) where
  -- The redirect of the login is one that the server allows.
  abbrev pub Allowed : Login → Type 0
  Allowed l = redirect_allowed parse lower is_loopback extra l.redirect_uri ≡ true

  abbrev pub AllowedAll : World → Type 0
  AllowedAll w = All Allowed w.db.logins

  upserted-same :
      (id : String) (q : Registration) (uris : List String) (r : Result (Unit {0}) × World)
      → (upserted parse lower is_loopback extra id q uris r).1 ≡ r.1
  unfolding upserted
  upserted-same id q uris (ok _, w) = refl
  upserted-same id q uris (err e, w) = refl

  register_allowed-logins :
      (id : String) (q : Registration) (uris : List String) (w : World)
      → (register_allowed parse lower is_loopback extra id q uris w).1.db.logins ≡ w.db.logins
  unfolding register_allowed
  register_allowed-logins id q [] w = refl
  register_allowed-logins id q (u ∷ uris) w =
      let c = client_of parse lower is_loopback extra id q (u ∷ uris) in
      ap (λ (x : World). x.db.logins) (upserted-same id q (u ∷ uris) (Clients.upsert c w))
      ∙ upsert_client-logins c w

  register_body-logins :
      (id : String) (body : Option Registration) (w : World)
      → (register_body parse lower is_loopback extra id body w).1.db.logins ≡ w.db.logins
  unfolding register_body
  register_body-logins id none w = refl
  register_body-logins id (some q) w = ground (
    arith,
    register_allowed-logins id q
        (filter (redirect_allowed parse lower is_loopback extra) q.redirect_uris) w,
  )

  serve_register-logins :
      (m : HttpMethod) (id : String) (body : Option Registration) (w : World)
      → (serve_register parse lower is_loopback extra m id body w).1.db.logins ≡ w.db.logins
  unfolding serve_register
  serve_register-logins options id body w = refl
  serve_register-logins post id body w = register_body-logins id body w
  serve_register-logins other id body w = refl

  login_put-same :
      (prep : PreparedLogin) (r : Result (Unit {0}) × World)
      → (login_put parse lower is_loopback extra prep r).1 ≡ r.1
  unfolding login_put
  login_put-same prep (ok _, w) = refl
  login_put-same prep (err e, w) = refl

  redirect_checked-All :
      (q : AuthorizeRequest) (prep : Result PreparedLogin) (r : Bool × World)
      → (r.0 ≡ true → redirect_allowed parse lower is_loopback extra q.redirect_uri ≡ true)
      → AllowedAll r.1
      → AllowedAll (redirect_checked parse lower is_loopback extra q prep r).1
  unfolding redirect_checked login_prepared
  redirect_checked-All q (ok prep) (true, w) tested h =
      let l = login_of parse lower is_loopback extra q prep in
      subst AllowedAll (sym (login_put-same prep (Logins.put l w)))
        (put-All Allowed l w (λ t. tested refl) h)
  redirect_checked-All q (err e) (true, w) tested h = h
  redirect_checked-All q prep (false, w) tested h = h

  client_redirect_ok-tested :
      (client redirect : String) (w : World)
      → (client_redirect_ok parse lower is_loopback extra client redirect w).0 ≡ true
      → redirect_allowed parse lower is_loopback extra redirect ≡ true
  unfolding client_redirect_ok
  client_redirect_ok-tested client redirect w h = ground (arith, h)

  client_redirect_ok-logins :
      (client redirect : String) (w : World)
      → (client_redirect_ok parse lower is_loopback extra client redirect w).1.db.logins
        ≡ w.db.logins
  unfolding client_redirect_ok
  client_redirect_ok-logins client redirect w = ground (arith, clients-logins client w)

  serve_authorize-All :
      (q : AuthorizeRequest) (prep : Result PreparedLogin) (w : World)
      → AllowedAll w
      → AllowedAll (serve_authorize parse lower is_loopback extra q prep w).1
  unfolding serve_authorize
  serve_authorize-All q prep w h =
      let r = client_redirect_ok parse lower is_loopback extra q.client_id q.redirect_uri w in
      let checked =
        redirect_checked-All q prep r (client_redirect_ok-tested q.client_id q.redirect_uri w)
          (subst (All Allowed) (sym (client_redirect_ok-logins q.client_id q.redirect_uri w)) h) in
      elim (Bool-cases
        (str_eq q.client_id "" || (str_eq q.redirect_uri "" || str_eq q.code_challenge ""))) [
          | inl missing ↦ rw missing h
          | inr whole ↦ rw whole checked
        ]

  -- A request to the server: a registration, a sign-in that begins, with what `PrepareLogin` answers,
  -- and a player who comes back with a code and a state, with the random code and CCP's answers.
  pub data Visit : Type 0 where
    registers : HttpMethod → String → Option Registration → Visit
    authorizes : AuthorizeRequest → Result PreparedLogin → Visit
    comes_back :
        (String → String → Result CharacterToken)
        → (String → Bool)
        → String
        → String
        → String
        → Visit

  unfoldable pub places : Callback × World → List Location
  places (authorized loc, w) = loc ∷ []
  places (refused f, w) = []

  unfoldable pub visit : Visit → World → List Location × World
  unfolding places
  visit (registers m id body) w = ([], (serve_register parse lower is_loopback extra m id body w).1)
  visit (authorizes q prep) w = ([], (serve_authorize parse lower is_loopback extra q prep w).1)
  visit (comes_back exchange parses fresh code state) w =
      let r = complete_callback exchange parses fresh code state w in (places r, r.1)

  -- The places that codes were sent to, over some requests.
  unfoldable pub visits : List Visit → World → List Location
  unfolding visit
  visits [] w = []
  visits (v ∷ rest) w = (visit v w).0 ++ visits rest (visit v w).1

  abbrev pub SentTo : List Location → Type 0
  SentTo locs = All (λ l. redirect_allowed parse lower is_loopback extra l.redirect_uri ≡ true) locs

  places-SentTo :
      (exchange : String → String → Result CharacterToken) (parses : String → Bool)
      (fresh code state : String) (w : World) (r : Callback × World)
      → AllowedAll w
      → complete_callback exchange parses fresh code state w ≡ r
      → SentTo (places r)
  unfolding places
  places-SentTo exchange parses fresh code state w (authorized loc, w') h e =
      let p = complete_callback-Parked exchange parses fresh code state loc w w' e in
      (
        ap (λ l. redirect_allowed parse lower is_loopback extra l.redirect_uri) p.location
            ∙ All-find? Allowed (Logins.has_state state) p.login w.db.logins h p.stood,
        tt,
      )
  places-SentTo exchange parses fresh code state w (refused f, w') h e = tt

  complete_callback-All :
      (exchange : String → String → Result CharacterToken) (parses : String → Bool)
      (fresh code state : String) (w : World)
      → AllowedAll w
      → AllowedAll (complete_callback exchange parses fresh code state w).1
  unfolding complete_callback
  complete_callback-All exchange parses fresh code state w h =
      subst (All Allowed)
        (sym (login_taken-logins exchange parses fresh code (Logins.take state w)))
        (take-All Allowed state w h)

  visit-All :
      (v : Visit) (w : World) → AllowedAll w → SentTo (visit v w).0 × AllowedAll (visit v w).1
  unfolding visit
  visit-All (registers m id body) w h =
      (tt, subst (All Allowed) (sym (serve_register-logins m id body w)) h)
  visit-All (authorizes q prep) w h = (tt, serve_authorize-All q prep w h)
  visit-All (comes_back exchange parses fresh code state) w h = (
    places-SentTo exchange parses fresh code state w
        (complete_callback exchange parses fresh code state w) h refl,
    complete_callback-All exchange parses fresh code state w h,
  )

  All-append-SentTo : (xs ys : List Location) → SentTo xs → SentTo ys → SentTo (xs ++ ys)
  All-append-SentTo [] ys p q = q
  All-append-SentTo (x ∷ xs) ys p q = (p.0, All-append-SentTo xs ys p.1 q)

  -- Over any sequence of registrations, sign-ins that begin and players who come back, with any
  -- failures of the database and any answers of CCP, a code is sent only to a redirect that
  -- `redirectAllowed` takes, if the logins stored at the start had such redirects.
  pub visits-SentTo : (list : List Visit) (w : World) → AllowedAll w → SentTo (visits list w)
  unfolding visits
  visits-SentTo [] w h = tt
  visits-SentTo (v ∷ rest) w h =
      let (sent, next) = visit-All v w h in
      All-append-SentTo (visit v w).0 (visits rest (visit v w).1) sent
        (visits-SentTo rest (visit v w).1 next)
