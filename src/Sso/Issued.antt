-- ===== src/Sso/Issued.antt =====
-- internal/adapter/sso/http/client.go, `tokenFromPayload` and `decode`: what stands behind a token that
-- the client answers.
use eve_online_mcp.Prelude.{
  ℕ, ◌≡◌, refl, sym, ap, subst, inl, inr, ◌⊎◌, String, true, false, ◌||◌, Option, none, some, arith,
  Bool-cases, str_eq, ◌==◌,
}
use eve_online_mcp.Domain.{Error, CharacterToken}
use eve_online_mcp.Store.{Result, ok, err}
use eve_online_mcp.Sso.{
  Claims, Payload, Client, Library, known_issuer, check_issuer, claims_of, peeked, decode_with,
  decode, signing_key, character_of, scanned, character_id_from_claims, subject_prefix, token_of,
  with_id, with_claims, with_pair, token_pair, token_from_payload, exchange_code, token_request,
  scopes_from_claims, Form,
}
use eve_online_mcp.Sso.Texts.{after_prefix}

module _ {Key : Type 0} (lib : Library Key) where
  -- Where the claims of a token come from: the key that the client finds for the token vouches for
  -- them, or the client finds none and they are what the token says of itself.
  abbrev pub Source : Client Key → String → Claims → Type 0
  Source c access claims =
      ((key : Key) × (((signing_key lib access c).0 ≡ ok key)
          × (lib.verify key access ≡ some claims)))
      ⊎ ((e : Error) × (((signing_key lib access c).0 ≡ err e)
            × (peeked lib (lib.peek access) ≡ some claims)))

  -- The client is the one that has just had CCP's answer.
  pub record Issued (c : Client Key) (tok : CharacterToken) : Type 0 where
    pub claims : Claims
    pub source : Source c tok.access_token claims
    pub issued : known_issuer claims.iss ≡ true
    pub rest : String
    pub subject : after_prefix subject_prefix claims.sub ≡ some rest
    pub scanned_id : lib.scan rest ≡ some tok.character_id
    pub character : (tok.character_id == 0) ≡ false
    pub owner : tok.owner_hash ≡ claims.owner
    pub scopes : tok.scopes ≡ scopes_from_claims claims
    pub has_access : str_eq tok.access_token "" ≡ false
    pub has_refresh : str_eq tok.refresh_token "" ≡ false

  same_claims : (x y : Claims) → ok x ≡ ok y → x ≡ y
  same_claims x y h = ground (arith, h)

  claims_of-ok :
      (o : Option Claims) (claims : Claims)
      → claims_of lib o ≡ ok claims
      → (o ≡ some claims) × (known_issuer claims.iss ≡ true)
  unfolding check_issuer
  claims_of-ok none claims h = ground (arith, h)
  claims_of-ok (some x) claims h = elim (Bool-cases (known_issuer x.iss)) [
    | inl known ↦
        let same = same_claims x claims (rw known at h) in
        (ap some same, subst (λ (y : Claims). known_issuer y.iss ≡ true) same known)
    | inr unknown ↦ ground (arith, h, unknown)
  ]

  decode_with-ok :
      (access : String) (c : Client Key) (r : Result Key) (claims : Claims)
      → (signing_key lib access c).0 ≡ r
      → decode_with lib access r ≡ ok claims
      → Source c access claims × (known_issuer claims.iss ≡ true)
  unfolding decode_with
  decode_with-ok access c (ok key) claims e h =
      let (seen, known) = claims_of-ok (lib.verify key access) claims h in
      (inl (key, (e, seen)), known)
  decode_with-ok access c (err x) claims e h =
      let (seen, known) = claims_of-ok (peeked lib (lib.peek access)) claims h in
      (inr (x, (e, seen)), known)

  scanned-ok : (o : Option ℕ) (id : ℕ) → scanned lib o ≡ ok id → (o ≡ some id) × ((id == 0) ≡ false)
  unfolding scanned
  scanned-ok none id h = ground (arith, h)
  scanned-ok (some n) id h = ground (arith, h)

  character_of-ok :
      (o : Option String) (id : ℕ)
      → character_of lib o ≡ ok id
      → (rest : String) × ((o ≡ some rest) × ((lib.scan rest ≡ some id) × ((id == 0) ≡ false)))
  unfolding character_of
  character_of-ok none id h = ground (arith, h)
  character_of-ok (some rest) id h = (rest, (refl, scanned-ok (lib.scan rest) id h))

  with_id-ok :
      (p : Payload) (now : ℕ) (claims : Claims) (r : Result ℕ) (tok : CharacterToken)
      → with_id lib p now claims r ≡ ok tok
      → (id : ℕ) × ((r ≡ ok id) × (tok ≡ token_of lib p now claims id))
  with_id-ok p now claims (err e) tok h = ground (arith, h)
  with_id-ok p now claims (ok id) tok h = (id, (refl, ground (arith, h)))

  with_claims-ok :
      (p : Payload) (now : ℕ) (r : Result Claims) (tok : CharacterToken)
      → with_claims lib p now r ≡ ok tok
      → (claims : Claims) × ((id : ℕ) × ((r ≡ ok claims)
            × ((character_id_from_claims lib claims ≡ ok id)
                × (tok ≡ token_of lib p now claims id))))
  unfolding with_claims
  with_claims-ok p now (err e) tok h = ground (arith, h)
  with_claims-ok p now (ok claims) tok h =
      let (id, (e, same)) = with_id-ok p now claims (character_id_from_claims lib claims) tok h in
      (claims, (id, (refl, (e, same))))

  paired-Issued :
      (p : Payload) (c : Client Key) (tok : CharacterToken)
      → str_eq p.access_token "" ≡ false
      → str_eq p.refresh_token "" ≡ false
      → (with_pair lib p c (ok (p.access_token, p.refresh_token))).0 ≡ ok tok
      → Issued c tok
  unfolding decode character_id_from_claims token_of
  paired-Issued p c tok access refresh h =
      let r = signing_key lib p.access_token c in
      let (claims, (id, (read, (numbered, same)))) =
        with_claims-ok p r.1.now (decode_with lib p.access_token r.0) tok h in
      let (source, known) = decode_with-ok p.access_token c r.0 claims refl read in
      let (rest, (subject, (number, nonzero))) =
        character_of-ok (after_prefix subject_prefix claims.sub) id numbered in
      subst (Issued c) (sym same) (record {
        claims = claims;
        source = source;
        issued = known;
        rest = rest;
        subject = subject;
        scanned_id = number;
        character = nonzero;
        owner = refl;
        scopes = refl;
        has_access = access;
        has_refresh = refresh;
      })

  pub token_from_payload-Issued :
      (r : Result Payload × Client Key) (tok : CharacterToken)
      → (token_from_payload lib r).0 ≡ ok tok
      → Issued r.1 tok
  unfolding token_from_payload token_pair
  token_from_payload-Issued (err e, c) tok h = ground (arith, h)
  token_from_payload-Issued (ok p, c) tok h =
      elim (Bool-cases (str_eq p.access_token "" || str_eq p.refresh_token "")) [
        | inl missing ↦ ground (arith, h, missing)
        | inr given ↦
            paired-Issued p c tok (ground (arith, given)) (ground (arith, given)) (rw given at h)
      ]

  -- A token that `ExchangeCode` answers has an access token and a refresh token that are not empty, and
  -- claims that name a known issuer and a character as their subject; the character's number, its
  -- owner and its scopes are those of the claims, which the key that the client found for the token
  -- after CCP's answer vouched for, unless it found none.
  pub exchange_code-Issued :
      (code verifier : String) (c : Client Key) (tok : CharacterToken)
      → (exchange_code lib code verifier c).0 ≡ ok tok
      → Issued (token_request lib (Form.authorization_code code verifier) c).1 tok
  unfolding exchange_code
  exchange_code-Issued code verifier c tok h =
      token_from_payload-Issued (token_request lib (Form.authorization_code code verifier) c) tok h
