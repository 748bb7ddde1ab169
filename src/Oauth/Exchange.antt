-- ===== src/Oauth/Exchange.antt =====
-- internal/usecase/oauth/exchange.go: what stands behind tokens that were answered.
use eve_online_mcp.Prelude.{
  ℕ, ◌≢◌, ◌≡◌, refl, String, true, false, some, arith, find?, ltb, Bool-cases, inl, inr, ap, sym,
  ◌∙◌, remove_if, str_eq_of_true, find?-holds,
}
use eve_online_mcp.Domain.{Error, Client, Code, authcode_not_found}
use eve_online_mcp.Store.{Db, World, Result, ok, err, sql, or_raise, ◌>>=◌}
use eve_online_mcp.Store.Laws.{revoke_at_ccp-rows}
use eve_online_mcp.Store.Runs.{sql-ok, resume-ok, or_raise-ok}
use eve_online_mcp.Repo.Codes
use eve_online_mcp.Repo.Clients
use eve_online_mcp.Repo.Codes.{has_value}
use eve_online_mcp.Grant.Redeem.{check_unexpired-ok, redeem-Redeemed}
use eve_online_mcp.Grant.{Exchanged, redeem}
use eve_online_mcp.Oauth.{
  tokens, TokenRequest, redirect_differs, pkce_ok, with_code, exchange_code, spend_code, exchanged,
  refusal, name_of, grant_of,
}

-- A code that was read stands in the table and is in time.
get-ok :
    (value : String) (ac : Code) (w v : World)
    → Codes.get value w ≡ (ok ac, v)
    → (find? (has_value value) w.db.codes ≡ some ac)
      × ((ltb ac.expires_at w.now ≡ false) × ((v.db ≡ w.db) × (v.in_tx ≡ w.in_tx)))
unfolding Codes.get Codes.select_sql
get-ok value ac w v h =
    let (row, u, (run, rest)) =
      resume-ok (sql (Codes.select_sql value) w)
        (λ row. or_raise row authcode_not_found >>= Codes.check_unexpired) ac v h in
    let (found, z, (is_some, checked)) =
      resume-ok (or_raise row authcode_not_found u) Codes.check_unexpired ac v rest in
    let ran = sql-ok (Codes.select_sql value) row w u run in
    let (some_found, same) = or_raise-ok row authcode_not_found found u z is_some in
    let (same_code, (live, end)) = check_unexpired-ok found ac z v checked in
    let path = same ∙ end in
    (
      ground (arith, ran.rows, some_found, same_code),
      (
        ground (arith, same_code, live, same, ran.context.clock),
        (
          ap (λ (x : World). x.db) (sym path) ∙ ground (arith, ran.rows),
          ap (λ (x : World). x.in_tx) (sym path) ∙ ran.context.tx,
        ),
      ),
    )

module _ (s256 : String → String) where
  -- What the code row says of the request.
  pub record Vouched (q : TokenRequest) (w : World) : Type 0 where
    pub row : Code
    pub stood : find? (has_value q.code) w.db.codes ≡ some row
    pub unexpired : ltb row.expires_at w.now ≡ false
    pub proved : pkce_ok s256 row.code_challenge q.verifier ≡ true
    pub same_redirect : redirect_differs q row ≡ false

  -- A code that led to tokens passed both tests.
  passed :
      (q : TokenRequest) (ac : Code) (w w' : World) (character session valid_til : ℕ)
      → with_code s256 q (ok ac, w) ≡ (tokens character session valid_til, w')
      → (pkce_ok s256 ac.code_challenge q.verifier ≡ true) × (redirect_differs q ac ≡ false)
  unfolding with_code
  passed q ac w w' character session valid_til h = elim (Bool-cases (redirect_differs q ac)) [
    | inl differs ↦ ground (arith, h, differs)
    | inr alike ↦ elim (Bool-cases (pkce_ok s256 ac.code_challenge q.verifier)) [
      | inl proved ↦ (proved, alike)
      | inr unproved ↦ ground (arith, h, alike, unproved)
    ]
  ]

  refused_error :
      (e : Error) (q : TokenRequest) (w w' : World) (character session valid_til : ℕ)
      → with_code s256 q (err e, w) ≢ (tokens character session valid_til, w')
  unfolding with_code refusal
  refused_error e q w w' character session valid_til h = ground arith

  Vouched-with :
      (q : TokenRequest) (w w' : World) (character session valid_til : ℕ) (r : Result Code × World)
      → Codes.get q.code w ≡ r
      → with_code s256 q r ≡ (tokens character session valid_til, w')
      → Vouched q w
  Vouched-with q w w' character session valid_til (ok ac, v) e h =
      let (stood, (live, same)) = get-ok q.code ac w v e in
      let (proved, alike) = passed q ac v w' character session valid_til h in
      record { row = ac; stood = stood; unexpired = live; proved = proved; same_redirect = alike }
  Vouched-with q w w' character session valid_til (err x, v) e h =
      absurd (refused_error x q v w' character session valid_til h)

  -- Tokens are answered only to a request whose code stands in the table and is not expired, whose
  -- verifier answers the code's challenge, and whose redirect, if it names one, is the code's.
  pub exchange_code-Vouched :
      (q : TokenRequest) (w w' : World) (character session valid_til : ℕ)
      → exchange_code s256 q w ≡ (tokens character session valid_til, w')
      → Vouched q w
  unfolding exchange_code
  exchange_code-Vouched q w w' character session valid_til h =
      Vouched-with q w w' character session valid_til (Codes.get q.code w) refl h

name_of-world : (r : Result Client × World) → (name_of r).1 ≡ r.1
unfolding name_of
name_of-world (ok c, w) = refl
name_of-world (err e, w) = refl

-- The look-up of the client's name changes no row.
get-SameRows :
    (id : String) (w : World)
    → ((Clients.get id w).1.db ≡ w.db) × ((Clients.get id w).1.in_tx ≡ w.in_tx)
unfolding Clients.get Clients.get_sql sql
get-SameRows id w = (ground arith, ground arith)

exchanged-spent :
    (q : TokenRequest) (ac : Code) (name : String) (w w' : World) (character session valid_til : ℕ)
    (r : Result Exchanged × World)
    → w.in_tx ≡ false
    → redeem (grant_of q ac name) w ≡ r
    → exchanged r ≡ (tokens character session valid_til, w')
    → w'.db.codes ≡ remove_if (has_value ac.value) w.db.codes
unfolding exchanged refusal
exchanged-spent q ac name w w' character session valid_til (ok out, v) outside e h =
    let done = redeem-Redeemed (grant_of q ac name) out w v outside e in
    ap (λ r. r.1.db.codes) (sym h)
    ∙ ap (λ d. d.codes) (revoke_at_ccp-rows out.revoked.tokens v)
    ∙ done.codes
exchanged-spent q ac name w w' character session valid_til (err x, v) outside e h = ground arith

spend_code-spent :
    (q : TokenRequest) (ac : Code) (w w' : World) (character session valid_til : ℕ)
    → w.in_tx ≡ false
    → spend_code q ac w ≡ (tokens character session valid_til, w')
    → w'.db.codes ≡ remove_if (has_value ac.value) w.db.codes
unfolding spend_code
spend_code-spent q ac w w' character session valid_til outside h =
    let read = name_of (Clients.get ac.mcp_client_id w) in
    let same = name_of-world (Clients.get ac.mcp_client_id w) in
    let (rows, tx) = get-SameRows ac.mcp_client_id w in
    exchanged-spent q ac read.0 read.1 w' character session valid_til
      (redeem (grant_of q ac read.0) read.1) (ap (λ (x : World). x.in_tx) same ∙ tx ∙ outside) refl
      h
    ∙ ap (λ (x : World). remove_if (has_value ac.value) x.db.codes) same
    ∙ ap (λ (d : Db). remove_if (has_value ac.value) d.codes) rows

module _ (s256 : String → String) where
  passed_on :
      (q : TokenRequest) (ac : Code) (w w' : World) (character session valid_til : ℕ)
      → with_code s256 q (ok ac, w) ≡ (tokens character session valid_til, w')
      → spend_code q ac w ≡ (tokens character session valid_til, w')
  unfolding with_code
  passed_on q ac w w' character session valid_til h =
      let (proved, alike) = passed s256 q ac w w' character session valid_til h in
      ground (arith, h, proved, alike)

  spent_with :
      (q : TokenRequest) (w w' : World) (character session valid_til : ℕ) (r : Result Code × World)
      → w.in_tx ≡ false
      → Codes.get q.code w ≡ r
      → with_code s256 q r ≡ (tokens character session valid_til, w')
      → w'.db.codes ≡ remove_if (has_value q.code) w.db.codes
  spent_with q w w' character session valid_til (ok ac, v) outside e h =
      let (stood, (live, (same, tx))) = get-ok q.code ac w v e in
      let named =
        str_eq_of_true ac.value q.code (find?-holds (has_value q.code) w.db.codes stood) in
      spend_code-spent q ac v w' character session valid_til (tx ∙ outside)
        (passed_on q ac v w' character session valid_til h)
      ∙ ap (λ (d : Db). remove_if (has_value ac.value) d.codes) same
      ∙ ap (λ c. remove_if (has_value c) w.db.codes) named
  spent_with q w w' character session valid_til (err x, v) outside e h =
      absurd (refused_error s256 x q v w' character session valid_til h)

  -- When tokens are answered outside a transaction, the code of the request is out of the table, and
  -- no other code is.
  pub exchange_code-spent :
      (q : TokenRequest) (w w' : World) (character session valid_til : ℕ)
      → w.in_tx ≡ false
      → exchange_code s256 q w ≡ (tokens character session valid_til, w')
      → w'.db.codes ≡ remove_if (has_value q.code) w.db.codes
  unfolding exchange_code
  exchange_code-spent q w w' character session valid_til outside h =
      spent_with q w w' character session valid_til (Codes.get q.code w) outside refl h
