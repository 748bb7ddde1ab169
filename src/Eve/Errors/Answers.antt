-- ===== src/Eve/Errors/Answers.antt =====
-- MapError of internal/usecase/session/errors.go and Handle of internal/usecase/eve/common.go: what a
-- tool answers for an error.
use eve_online_mcp.Prelude.{
  ℕ, ◌≡◌, refl, String, Bool, ◌||◌, Option, none, some, List, [], ◌∷◌, ◌++◌, if◌then◌else◌, any,
}
use eve_online_mcp.Write.Summary.{Args, Value}
use eve_online_mcp.Tools.Texts.{slice_of}
use eve_online_mcp.Eve.Errors.Sentences.{sentence_esi_limit}
use eve_online_mcp.Eve.Errors.{
  Failure, no_session, dead_session, missing_scope, missing_write_scope, invalid_grant, npc_corp,
  missing_corp_role, no_corporation, mail_cap, confirm_unknown, confirm_args, confirm_tool,
  unknown_capability, rate_limited, esi_error, sso_error, blocked, other, user_limited, is_error,
  as_validation, unresolved_names, tool_sentence,
}

abbrev pub kind_auth : String
kind_auth = "AuthError"

abbrev pub kind_write : String
kind_write = "WriteBlocked"

abbrev pub kind_user : String
kind_user = "UserRateLimited"

abbrev pub kind_esi_lim : String
kind_esi_lim = "EsiRateLimited"

abbrev pub kind_esi : String
kind_esi = "EsiError"

abbrev pub kind_error : String
kind_error = "Error"

unfoldable pub is_any : List Failure → List Failure → Bool
unfolding is_error
is_any chain fs = any (is_error chain) fs

unfoldable pub write_blocked : List Failure → Bool
unfolding is_any
write_blocked chain =
    is_any chain
      (mail_cap ∷ confirm_unknown ∷ confirm_args ∷ confirm_tool ∷ unknown_capability ∷ [])

unfoldable pub given : String → Option ℕ → Args → Args
given key none rest = rest
given key (some n) rest = (key, Value.int n) ∷ rest

unfoldable pub esi_fields : List Failure → Args
esi_fields [] = []
esi_fields (esi_error status ∷ chain) =
    ("kind", Value.text kind_esi) ∷ ("status", Value.int status) ∷ []
esi_fields (f ∷ chain) = esi_fields chain

unfoldable pub names_field : List String → Args
unfolding slice_of
names_field [] = []
names_field (n ∷ names) = ("names", slice_of (n ∷ names)) ∷ []

unfoldable pub field_of : Option (String × String) → Args
field_of none = []
field_of (some (field, invariant)) = ("field", Value.text field) ∷ []

-- The answers with the numbers of the first error of their type.
module _ (rfc3339 : ℕ → String) where
  unfoldable pub user_fields : List Failure → Args
  user_fields [] = []
  user_fields (user_limited retry_sec retry_at ∷ chain) =
      ("kind", Value.text kind_user)
      ∷ ("retry_after_seconds", Value.int retry_sec)
      ∷ ("retry_at", Value.text (rfc3339 retry_at))
      ∷ (
        "hint",
        Value.text "Wait until retry_at, then call the same tool once. Do not retry in a loop.",
      )
      ∷ []
  user_fields (f ∷ chain) = user_fields chain

  unfoldable pub limit_fields : List Failure → Args
  unfolding given
  limit_fields [] = []
  limit_fields (rate_limited status retry_sec retry_at remain reset_sec ∷ chain) =
      ("kind", Value.text kind_esi_lim)
      ∷ ("status", Value.int status)
      ∷ ("retry_after_seconds", Value.int retry_sec)
      ∷ ("retry_at", Value.text (rfc3339 retry_at))
      ∷ ("hint", Value.text sentence_esi_limit)
      ∷ given "error_limit_remain" remain (given "error_limit_reset_seconds" reset_sec [])
  limit_fields (f ∷ chain) = limit_fields chain

  unfoldable pub map_error : List Failure → Args
  unfolding is_any write_blocked is_error user_fields limit_fields esi_fields
  map_error chain =
      if is_any chain
        (no_session ∷ dead_session ∷ missing_scope ∷ invalid_grant ∷ missing_write_scope ∷ [])
      then ("kind", Value.text kind_auth) ∷ []
      else if is_any chain (npc_corp ∷ missing_corp_role ∷ no_corporation ∷ [])
      then ("kind", Value.text kind_error) ∷ []
      else if is_error chain sso_error
      then ("kind", Value.text kind_auth) ∷ []
      else if is_error chain blocked || write_blocked chain
      then ("kind", Value.text kind_write) ∷ []
      else if is_error chain (user_limited 0 0)
      then user_fields chain
      else if is_error chain (rate_limited 0 0 0 none none)
      then limit_fields chain
      else if is_error chain (esi_error 0)
      then esi_fields chain
      else ("kind", Value.text kind_error) ∷ []

  -- `Handle`: `error` and what belongs to some errors only. The amounts of a charge are left out.
  unfoldable pub handle : List Failure → Args
  unfolding map_error tool_sentence unresolved_names as_validation names_field field_of
  handle chain =
      ("error", Value.text (tool_sentence chain))
      ∷ (map_error chain ++ names_field (unresolved_names chain) ++ field_of (as_validation chain))

  -- An error that is wrapped with a message is answered as the error itself.
  pub handle-wrap : (chain : List Failure) → handle (other ∷ chain) ≡ handle chain
  unfolding handle
  handle-wrap chain = refl
