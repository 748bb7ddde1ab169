-- ===== src/Sso/Texts.antt =====
-- internal/adapter/sso/http/client.go, `ssoDetail` and `ssoJSONDetail`: what a refusal says.
use Prim.Native.Char.{code}
use eve_online_mcp.Prelude.{
  ℕ, String, Bool, true, false, ◌||◌, Option, none, some, if◌then◌else◌, ◌==◌, str_eq,
}
use eve_online_mcp.Write.Summary.{◌++◌}
use eve_online_mcp.Tools.Texts.{clip}

-- The rest of a text behind a prefix that it has.
unfoldable pub after_prefix : String → String → Option String
after_prefix String.[] s = some s
after_prefix (String.◌∷◌ c p) String.[] = none
after_prefix (String.◌∷◌ c p) (String.◌∷◌ d s) =
    let rest = after_prefix p s in if code c == code d then rest else none

abbrev is_some : Option String → Bool
is_some none = false
is_some (some s) = true

-- `strings.Contains`
unfoldable pub text_contains : String → String → Bool
unfolding after_prefix
text_contains part String.[] = is_some (after_prefix part "")
text_contains part (String.◌∷◌ c s) =
    is_some (after_prefix part (String.◌∷◌ c s)) || text_contains part s

-- The fields of an error in JSON, each as `j.Str` reads it.
pub record Detail : Type 0 where
  pub error : String
  pub message : String
  pub error_description : String

unfoldable pub joined : Detail → String
joined d =
    let e = if str_eq d.error "" then d.message else d.error in
    if str_eq e ""
    then d.error_description
    else if str_eq d.error_description ""
    then e
    else e ++ " - " ++ d.error_description

abbrev pub error_body_preview : ℕ
error_body_preview = 200

module _ (detail_of : String → Option Detail) where
  abbrev read_detail : Option Detail → String
  read_detail none = ""
  read_detail (some d) = joined d

  unfoldable pub sso_json_detail : String → String → String
  unfolding text_contains joined
  sso_json_detail content_type body =
      if text_contains "json" content_type then read_detail (detail_of body) else ""

  unfoldable pub sso_detail : String → String → String
  unfolding sso_json_detail text_contains clip
  sso_detail content_type body =
      let d = sso_json_detail content_type body in
      if str_eq d ""
      then (if text_contains "html" content_type
          then "the SSO rejected the request (bad client_id, wrong callback URL, or a refresh token that is no longer valid)"
          else clip error_body_preview body)
      else d
