-- ===== src/Sweep/Tokens/Grants.antt =====
-- internal/usecase/sweep/rules.go, `expireAuthCodes`: the tokens of the grants that nobody fetched.
use eve_online_mcp.Prelude.{
  suc, ◌≡◌, refl, sym, ap, ◌∙◌, arith, String, true, false, inl, inr, List, [], ◌∷◌, any, remove_if,
  contains, str_eq, str_eq_refl, Bool-cases, In, Keyed, In-remove_if,
}
use eve_online_mcp.Domain.{Code}
use eve_online_mcp.Store.{World, sql, revoke_at_ccp}
use eve_online_mcp.Store.Laws.{revoke_at_ccp-rows}
use eve_online_mcp.Repo.Codes
use eve_online_mcp.Sweep.{expire_auth_codes, revoked_codes}
use eve_online_mcp.Sweep.Tokens.{
  Held, Spared-Held, revoke_at_ccp-sends, same_code, doomed-In, after_revoke-Held,
}

codes_tokens-contains :
    (t : String) (c : Code) (rows : List Code)
    → str_eq t "" ≡ false
    → In c rows
    → c.refresh_token ≡ t
    → contains (Codes.tokens_of rows) t ≡ true
unfolding Codes.tokens_of contains
codes_tokens-contains t c (x ∷ rows) some_text (inl e) same =
    let here = ap (λ r. r.refresh_token) (sym e) ∙ same in
    ground
      (arith, ap (λ r. str_eq r "") here ∙ some_text, ap (λ r. str_eq r t) here ∙ str_eq_refl t)
codes_tokens-contains t c (x ∷ rows) some_text (inr i) same =
    ground (arith, codes_tokens-contains t c rows some_text i same)
codes_tokens-contains t c [] some_text i same = elim i [ ]

-- The tables after the codes in the list are taken off.
abbrev without_codes : List Code → World → World
without_codes doomed w = record w {
  calls = suc w.calls;
  db = record w.db { codes = remove_if (λ c. any (λ e. str_eq e.value c.value) doomed) w.db.codes };
}

without_codes-Held :
    (t : String) (w : World)
    → str_eq t "" ≡ false
    → Keyed same_code w.db.codes
    → Held t w
    → (let doomed = Codes.expired w.now w.db.codes in
        Held t (revoke_at_ccp (Codes.tokens_of doomed) (without_codes doomed w)).1)
unfolding Codes.expired
without_codes-Held t w some_text keyed (inl (inl (c, (i, e)))) =
    let doomed = Codes.expired w.now w.db.codes in
    elim (Bool-cases (any (λ x. str_eq x.value c.value) doomed)) [
      | inl gone ↦
          let j =
            doomed-In same_code (λ x. x.expires_at) (Codes.is_expired w.now) c w.db.codes keyed i
              gone in
          inr (
            revoke_at_ccp-sends (Codes.tokens_of doomed) t (without_codes doomed w)
              (codes_tokens-contains t c doomed some_text j e))
      | inr left ↦ after_revoke-Held t (Codes.tokens_of doomed) (without_codes doomed w) (
          inl (
            inl (
              c,
              (In-remove_if (λ x. any (λ y. str_eq y.value x.value) doomed) c w.db.codes i left, e),
            )))
    ]
without_codes-Held t w some_text keyed (inl (inr h)) =
    let doomed = Codes.expired w.now w.db.codes in
    after_revoke-Held t (Codes.tokens_of doomed) (without_codes doomed w) (inl (inr h))
without_codes-Held t w some_text keyed (inr h) =
    let doomed = Codes.expired w.now w.db.codes in
    after_revoke-Held t (Codes.tokens_of doomed) (without_codes doomed w) (inr h)

pub expire_auth_codes-Held :
    (t : String) (w : World)
    → str_eq t "" ≡ false
    → Keyed same_code w.db.codes
    → Held t w
    → Held t (expire_auth_codes w).1
unfolding expire_auth_codes revoked_codes Codes.sweep_expired Codes.sweep_expired_sql sql
expire_auth_codes-Held t w some_text keyed h = elim (Bool-cases (w.fault w.calls)) [
  | inl fails ↦ rw fails (
      Spared-Held t w (record w { calls = suc w.calls })
        (record { codes = refl; sessions = refl; log = refl }) h)
  | inr runs ↦ rw runs (without_codes-Held t w some_text keyed h)
]

pub expire_auth_codes-sessions : (w : World) → (expire_auth_codes w).1.db.sessions ≡ w.db.sessions
unfolding expire_auth_codes revoked_codes Codes.sweep_expired Codes.sweep_expired_sql sql
expire_auth_codes-sessions w = elim (Bool-cases (w.fault w.calls)) [
  | inl fails ↦ rw fails refl
  | inr runs ↦ rw runs (
      let doomed = Codes.expired w.now w.db.codes in
      ap (λ d. d.sessions) (revoke_at_ccp-rows (Codes.tokens_of doomed) (without_codes doomed w)))
]
