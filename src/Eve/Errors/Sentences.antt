-- ===== src/Eve/Errors/Sentences.antt =====
-- internal/usecase/eve/errors.go: the sentences for errors.
use eve_online_mcp.Prelude.{String}

abbrev pub sentence_auth : String
sentence_auth =
    "This connection is not authorized. Re-authenticate the MCP server (Authentication required) and try again."

abbrev pub sentence_scope : String
sentence_scope =
    "This character is missing a required ESI scope. Re-authenticate the MCP server (Authentication required) and approve the full scope set."

abbrev pub sentence_grant : String
sentence_grant =
    "This connection's EVE grant was revoked or expired. Re-authenticate the MCP server (Authentication required) and try again."

abbrev pub sentence_npc : String
sentence_npc =
    "This character is in an NPC corporation. ESI corporation hangars, wallets and jobs only exist for player-created corporations. There is nothing for eve_corp_* to read. Call eve_corp_overview."

abbrev pub sentence_role : String
sentence_role =
    "This character does not hold the corporation role ESI requires. Location-specific roles do not unlock these endpoints. Call eve_corp_overview."

abbrev pub sentence_corp : String
sentence_corp = "ESI did not return a corporation for this character. Try again shortly."

abbrev pub sentence_mail : String
sentence_mail =
    "Mail budget exhausted: 5 mails in the last hour. Wait until an earlier send drops out of the rolling hour, then try again."

abbrev pub sentence_confirm : String
sentence_confirm =
    "That confirm_token is unknown or has expired. Call the tool again without a token to get a fresh preview."

abbrev pub sentence_confirm_args : String
sentence_confirm_args =
    "The arguments changed since the preview was generated, so the token was discarded. Request a new preview and confirm that one."

abbrev pub sentence_confirm_tool : String
sentence_confirm_tool =
    "This confirm_token was issued for a different tool. Call the intended tool again without a token to get a fresh preview."

abbrev pub sentence_capability : String
sentence_capability = "Unknown write capability."

abbrev pub sentence_allowance : String
sentence_allowance =
    "This character's ESI request allowance is spent. Wait until retry_at, then call the same tool once. Do not retry in a loop."

abbrev pub sentence_budget : String
sentence_budget =
    "This character's ESI error budget is spent. Wait until retry_at, then call the same tool once. Do not retry in a loop."

abbrev pub sentence_esi_limit : String
sentence_esi_limit =
    "CCP's ESI error limit is shared for this server's public IP. Wait until retry_at, then call the same tool once. Do not retry in a loop."

abbrev pub sentence_esi : String
sentence_esi = "ESI rejected this request. Call eve_auth_status if this keeps happening."

abbrev pub sentence_write : String
sentence_write =
    "This write was blocked. Call the same tool again without a confirm_token to get a fresh preview."

abbrev pub sentence_cspa_unpriced : String
sentence_cspa_unpriced =
    "The CSPA charge could not be priced, so nothing was attempted. Call eve_mail_send again shortly."

abbrev pub sentence_cspa_exceeds : String
sentence_cspa_exceeds =
    "The priced CSPA charge exceeds approved_cost. Raise approved_cost or drop recipients."

abbrev pub sentence_generic : String
sentence_generic = "The request failed. Call eve_auth_status, then retry the same tool."
