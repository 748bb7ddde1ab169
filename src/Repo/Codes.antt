-- ===== src/Repo/Codes.antt =====
-- internal/domain/authcode/pgx/repo.go, the table `auth_codes`: a grant that waits for its client.
use eve_online_mcp.Prelude.{
  ℕ, String, Bool, Option, none, some, List, [], ◌∷◌, if◌then◌else◌, ltb, str_eq, find?, filter,
  remove_if, any, take, sort_by, length,
}
use eve_online_mcp.Domain.{Code, Swept, authcode_not_found}
use eve_online_mcp.Repo.Sessions.{revoke_ceiling}
use eve_online_mcp.Store.{M, Statement, sql, pure, raise, or_raise, ◌>>=◌}

abbrev pub has_value : String → Code → Bool
has_value value c = str_eq c.value value

-- A code is the table's key: a second row with it is refused.
unfoldable pub put_sql : Code → Statement (Unit {0})
put_sql c now d =
    if any (has_value c.value) d.codes then none else some (tt, record d { codes = c ∷ d.codes })

unfoldable pub select_sql : String → Statement (Option Code)
select_sql value now d = some (find? (has_value value) d.codes, d)

unfoldable pub take_sql : String → Statement (Option Code)
take_sql value now d =
    some (find? (has_value value) d.codes, record d { codes = remove_if (has_value value) d.codes })

-- The grants whose token is not empty.
unfoldable pub tokens_of : List Code → List String
tokens_of [] = []
tokens_of (c ∷ rows) =
    if str_eq c.refresh_token "" then tokens_of rows else c.refresh_token ∷ tokens_of rows

abbrev pub is_expired : ℕ → Code → Bool
is_expired now c = ltb c.expires_at now

unfoldable pub expired : ℕ → List Code → List Code
expired now rows = take revoke_ceiling (sort_by (λ c. c.expires_at) (filter (is_expired now) rows))

unfoldable pub sweep_expired_sql : Statement Swept
unfolding expired
sweep_expired_sql now d =
    let doomed = expired now d.codes in
    some (
      record { count = length doomed; tokens = tokens_of doomed },
      record d { codes = remove_if (λ c. any (λ e. str_eq e.value c.value) doomed) d.codes },
    )

unfoldable pub check_unexpired : Code → M Code
check_unexpired c w = if ltb c.expires_at w.now then raise authcode_not_found w else pure c w

unfoldable pub put : Code → M (Unit {0})
put c = sql (put_sql c)

unfoldable pub get : String → M Code
unfolding check_unexpired
get value = do
  row ← sql (select_sql value)
  found ← or_raise row authcode_not_found
  check_unexpired found

unfoldable pub take_code : String → M Code
unfolding check_unexpired
take_code value = do
  row ← sql (take_sql value)
  found ← or_raise row authcode_not_found
  check_unexpired found

unfoldable pub sweep_expired : M Swept
sweep_expired = sql sweep_expired_sql
