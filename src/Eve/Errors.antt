-- ===== src/Eve/Errors.antt =====
-- internal/usecase/eve/errors.go: what a tool says of an error.
pub mod Sentences
pub mod Answers
use eve_online_mcp.Prelude.{
  ℕ, ◌==◌, String, Bool, Option, none, some, List, [], ◌∷◌, if◌then◌else◌, str_eq, any,
}
use eve_online_mcp.Write.Summary.{◌++◌}
use eve_online_mcp.Tools.Texts.{sentence_unresolved}
use eve_online_mcp.Eve.Errors.Sentences.{
  sentence_auth, sentence_scope, sentence_grant, sentence_npc, sentence_role, sentence_corp,
  sentence_mail, sentence_confirm, sentence_confirm_args, sentence_confirm_tool,
  sentence_capability, sentence_allowance, sentence_budget, sentence_esi_limit, sentence_esi,
  sentence_write, sentence_cspa_unpriced, sentence_cspa_exceeds, sentence_generic,
}

-- What `errors.Is` and `errors.As` find in an error and in those that it wraps.
pub data Failure : Type 0 where
  no_session dead_session missing_scope missing_write_scope invalid_grant : Failure
  npc_corp missing_corp_role no_corporation mail_cap : Failure
  confirm_unknown confirm_args confirm_tool unknown_capability : Failure
  allowance_spent budget_spent cspa_unpriced : Failure
  preview_read cspa_exceeds sso_error blocked other : Failure
  user_limited : (retry_sec retry_at : ℕ) → Failure
  rate_limited : (status retry_sec retry_at : ℕ) (remain reset_sec : Option ℕ) → Failure
  esi_error : (status : ℕ) → Failure
  unresolved : (names : List String) → Failure
  validation : (field invariant : String) → Failure

-- Which of the errors it is, whatever it carries.
unfoldable pub tag : Failure → ℕ
tag no_session = 0
tag dead_session = 1
tag missing_scope = 2
tag missing_write_scope = 3
tag invalid_grant = 4
tag npc_corp = 5
tag missing_corp_role = 6
tag no_corporation = 7
tag mail_cap = 8
tag confirm_unknown = 9
tag confirm_args = 10
tag confirm_tool = 11
tag unknown_capability = 12
tag allowance_spent = 13
tag budget_spent = 14
tag cspa_unpriced = 15
tag (rate_limited status retry_sec retry_at remain reset_sec) = 16
tag (esi_error status) = 17
tag preview_read = 18
tag cspa_exceeds = 19
tag (unresolved names) = 20
tag sso_error = 21
tag blocked = 22
tag other = 23
tag (validation field invariant) = 24
tag (user_limited retry_sec retry_at) = 25

-- `errors.Is`, and `errors.As` where only the answer counts.
unfoldable pub is_error : List Failure → Failure → Bool
unfolding tag
is_error chain f = any (λ e. tag e == tag f) chain

unfoldable pub as_validation : List Failure → Option (String × String)
as_validation [] = none
as_validation (validation field invariant ∷ chain) = some (field, invariant)
as_validation (f ∷ chain) = as_validation chain

unfoldable pub unresolved_names : List Failure → List String
unresolved_names [] = []
unresolved_names (unresolved names ∷ chain) = names
unresolved_names (f ∷ chain) = unresolved_names chain

-- The sentence of the first row whose error is found.
unfoldable pub first_row : List Failure → String → List (Failure × String) → String
unfolding is_error
first_row chain fallback [] = fallback
first_row chain fallback ((f, s) ∷ rows) =
    let later = first_row chain fallback rows in if is_error chain f then s else later

abbrev pub is_rows : List (Failure × String)
is_rows =
    (no_session, sentence_auth)
    ∷ (dead_session, sentence_auth)
    ∷ (missing_scope, sentence_scope)
    ∷ (missing_write_scope, sentence_scope)
    ∷ (invalid_grant, sentence_grant)
    ∷ (npc_corp, sentence_npc)
    ∷ (missing_corp_role, sentence_role)
    ∷ (no_corporation, sentence_corp)
    ∷ (mail_cap, sentence_mail)
    ∷ (confirm_unknown, sentence_confirm)
    ∷ (confirm_args, sentence_confirm_args)
    ∷ (confirm_tool, sentence_confirm_tool)
    ∷ (unknown_capability, sentence_capability)
    ∷ (allowance_spent, sentence_allowance)
    ∷ (budget_spent, sentence_budget)
    ∷ (cspa_unpriced, sentence_cspa_unpriced)
    ∷ []

abbrev pub as_rows : List (Failure × String)
as_rows =
    (rate_limited 0 0 0 none none, sentence_esi_limit)
    ∷ (esi_error 0, sentence_esi)
    ∷ (preview_read, sentence_cspa_unpriced)
    ∷ (cspa_exceeds, sentence_cspa_exceeds)
    ∷ (unresolved [], sentence_unresolved)
    ∷ (sso_error, sentence_auth)
    ∷ (blocked, sentence_write)
    ∷ []

unfoldable pub sentence_from_is : List Failure → String
unfolding first_row
sentence_from_is chain = first_row chain "" is_rows

unfoldable pub sentence_from_as : List Failure → String
unfolding first_row
sentence_from_as chain = first_row chain sentence_generic as_rows

unfoldable pub sentence_of : List Failure → Option (String × String) → String
unfolding sentence_from_is sentence_from_as
sentence_of chain (some (field, invariant)) = field ++ " " ++ invariant
sentence_of chain none =
    let s = sentence_from_is chain in if str_eq s "" then sentence_from_as chain else s

unfoldable pub tool_sentence : List Failure → String
unfolding sentence_of as_validation
tool_sentence chain = sentence_of chain (as_validation chain)
