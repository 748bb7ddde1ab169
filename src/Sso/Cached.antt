-- ===== src/Sso/Cached.antt =====
-- internal/adapter/sso/http/client.go and tokens.go: the access tokens that the client keeps.
use eve_online_mcp.Prelude.{
  ℕ, ◌+◌, ◌≤◌, ◌≡◌, ◌∙◌, refl, sym, ap, subst, inl, inr, ◌⊎◌, String, false, Option, none, some,
  List, [], ◌∷◌, arith, Bool-cases, str_eq, str_eq_refl, eq_iff, find?, find?-remove_if,
}
use eve_online_mcp.Domain.{CharacterToken}
use eve_online_mcp.Store.{Result, ok, err}
use eve_online_mcp.Sso.{
  AccessMem, Client, Library, holds, drop, put, judge_mem, live, cached_token, refresh_margin,
  refresh, refreshed, rotated, mem_of, access_by, access_token, token_request, token_from_payload,
  revoke, Form,
}
use eve_online_mcp.Sso.Issued.{Issued, token_from_payload-Issued}

-- The token that is kept for a refresh token.
abbrev pub kept : {Key : Type 0} → String → Client Key → Option AccessMem
kept token c = find? (holds token) c.access

find?-drop_other :
    (a b : String) (cache : List AccessMem)
    → str_eq a b ≡ false
    → find? (holds a) (drop b cache) ≡ find? (holds a) cache
find?-drop_other a b [] h = refl
find?-drop_other a b (m ∷ cache) h = ground (
  arith,
  h,
  eq_iff m.refresh_token a,
  eq_iff m.refresh_token b,
  eq_iff a b,
  find?-drop_other a b cache h,
)

put-found :
    (m : AccessMem) (cache : List AccessMem)
    → str_eq m.refresh_token "" ≡ false
    → str_eq m.access_token "" ≡ false
    → find? (holds m.refresh_token) (put m cache) ≡ some m
unfolding put
put-found m cache h k = ground (arith, h, k, str_eq_refl m.refresh_token)

same_token : (x y : CharacterToken) → ok x ≡ ok y → x ≡ y
same_token x y h = ground (arith, h)

judge_mem-ok :
    (now : ℕ) (o : Option AccessMem) (m : AccessMem)
    → judge_mem now o ≡ some m
    → (o ≡ some m) × (now + refresh_margin ≤ m.access_expires_at)
judge_mem-ok now none m h = ground (arith, h)
judge_mem-ok now (some n) m h = ground (arith, h)

module _ {Key : Type 0} (lib : Library Key) where
  -- The client that has had CCP's answer to a refresh token.
  abbrev pub asked_of : String → Client Key → Client Key
  asked_of token c = (token_request lib (Form.refresh_grant token) c).1

  -- A token out of the memory, with a minute left at least, and nothing else happened; or a new one
  -- that is vouched for, and kept under its own refresh token, with the one of a refresh token that
  -- it replaces gone.
  pub record FromMemory (token : String) (tok : CharacterToken) (c c' : Client Key) : Type 0 where
    pub mem : AccessMem
    pub remembered : kept token c ≡ some mem
    pub lasting : c.now + refresh_margin ≤ mem.access_expires_at
    pub answer : tok ≡ cached_token mem
    pub unchanged : c' ≡ c

  pub record Renewed (token : String) (tok : CharacterToken) (c c' : Client Key) : Type 0 where
    pub vouched : Issued lib (asked_of token c) tok
    pub remembered : kept tok.refresh_token c' ≡ some (mem_of lib tok)
    pub replaced : str_eq tok.refresh_token token ≡ false → kept token c' ≡ none

  rotated-keeps :
      (token : String) (tok : CharacterToken) (cache : List AccessMem)
      → find? (holds tok.refresh_token) (rotated lib token tok cache)
        ≡ find? (holds tok.refresh_token) cache
  rotated-keeps token tok cache = elim (Bool-cases (str_eq tok.refresh_token token)) [
    | inl same ↦ rw same refl
    | inr other ↦ rw other (find?-drop_other tok.refresh_token token cache other)
  ]

  rotated-drops :
      (token : String) (tok : CharacterToken) (cache : List AccessMem)
      → str_eq tok.refresh_token token ≡ false
      → find? (holds token) (rotated lib token tok cache) ≡ none
  rotated-drops token tok cache other = rw other (find?-remove_if (holds token) cache)

  refreshed-Renewed :
      (token : String) (c0 : Client Key) (r : Result CharacterToken × Client Key)
      (tok : CharacterToken)
      → ((t : CharacterToken) → r.0 ≡ ok t → Issued lib (asked_of token c0) t)
      → (refreshed lib token r).0 ≡ ok tok
      → Renewed token tok c0 (refreshed lib token r).1
  unfolding refreshed
  refreshed-Renewed token c0 (err e, c) tok v h = ground (arith, h)
  refreshed-Renewed token c0 (ok t, c) tok v h =
      let good = v t refl in
      let cache = put (mem_of lib t) c.access in
      subst
        (λ (x : CharacterToken).
          Renewed token x c0 (record c { access = rotated lib token t cache }))
        (same_token t tok h)
        (record {
          vouched = good;
          remembered =
              rotated-keeps token t cache
              ∙ put-found (mem_of lib t) c.access good.has_refresh good.has_access;
          replaced = λ other. rotated-drops token t cache other;
        })

  access_by-ok :
      (token : String) (o : Option AccessMem) (c : Client Key) (tok : CharacterToken)
      → judge_mem c.now (kept token c) ≡ o
      → (access_by lib token o c).0 ≡ ok tok
      → FromMemory token tok c (access_by lib token o c).1
        ⊎ Renewed token tok c (access_by lib token o c).1
  unfolding refresh
  access_by-ok token (some m) c tok e h =
      let (remembered, lasting) = judge_mem-ok c.now (kept token c) m e in
      inl (record {
        mem = m;
        remembered = remembered;
        lasting = lasting;
        answer = sym (same_token (cached_token m) tok h);
        unchanged = refl;
      })
  access_by-ok token none c tok e h =
      let asked = token_request lib (Form.refresh_grant token) c in
      inr (
        refreshed-Renewed token c (token_from_payload lib asked) tok
          (λ t. token_from_payload-Issued lib asked t) h)

  -- A token that `AccessToken` answers is one from memory with a minute left at least, and then the
  -- client is as it was; or a new one with claims as `ExchangeCode` wants them, which is kept under
  -- its own refresh token, with none kept under the one that it replaces.
  pub access_token-Live :
      (token : String) (c : Client Key) (tok : CharacterToken)
      → (access_token lib token c).0 ≡ ok tok
      → FromMemory token tok c (access_token lib token c).1
        ⊎ Renewed token tok c (access_token lib token c).1
  unfolding access_token live
  access_token-Live token c tok h = elim (Bool-cases (str_eq token "")) [
    | inl blank ↦ ground (arith, h, blank)
    | inr given ↦
        rw given (access_by-ok token (judge_mem c.now (kept token c)) c tok refl (rw given at h))
  ]

  judge_mem-live :
      (now : ℕ) (m : AccessMem)
      → str_eq m.access_token "" ≡ false
      → now + refresh_margin ≤ m.access_expires_at
      → judge_mem now (some m) ≡ some m
  judge_mem-live now m h k = ground (arith, h, k)

  -- What `AccessToken` got from CCP it answers again, and sends no request, for the refresh token
  -- that came with it, until a minute before the access token ends.
  pub access_token-Again :
      (token : String) (c : Client Key) (tok : CharacterToken) (later : ℕ)
      → (refresh lib token c).0 ≡ ok tok
      → later + refresh_margin ≤ tok.access_expires_at
      → (let c' = record ((refresh lib token c).1) { now = later } in
          access_token lib tok.refresh_token c' ≡ (ok (cached_token (mem_of lib tok)), c'))
  unfolding access_token live refresh
  access_token-Again token c tok later h lasting =
      let asked = token_request lib (Form.refresh_grant token) c in
      let new =
        refreshed-Renewed token c (token_from_payload lib asked) tok
          (λ t. token_from_payload-Issued lib asked t) h in
      rw (new.vouched.has_refresh, new.remembered)
        (ap
          (λ (o : Option AccessMem).
            access_by lib tok.refresh_token o (record ((refresh lib token c).1) { now = later }))
          (judge_mem-live later (mem_of lib tok) new.vouched.has_access lasting))

  -- After `Revoke` no access token is kept for the refresh token, and those for others are as before.
  pub revoke-Forgets :
      (token other : String) (c : Client Key)
      → str_eq token "" ≡ false
      → str_eq other token ≡ false
      → (kept token (revoke lib token c) ≡ none) × (kept other (revoke lib token c) ≡ kept other c)
  unfolding revoke
  revoke-Forgets token other c given different =
      rw given
        (find?-remove_if (holds token) c.access, find?-drop_other other token c.access different)
