-- ===== src/Tests/Samples.antt =====
-- A small database: one character with two sessions, one consent to send a mail, one parked grant.
use eve_online_mcp.Prelude.{String, false, none, some, [], ◌∷◌}
use eve_online_mcp.Domain.{Confirm, SessionRow, Code, Character}
use eve_online_mcp.Store.{Db, World, Result, ok}
use eve_online_mcp.Write.Summary.{Args}
use eve_online_mcp.Write.Guard.Monad.{Guard, new_guard}
use eve_online_mcp.Write.Guard.{Authz, Record}
use eve_online_mcp.Grant.{ParkedGrant}

abbrev pub consent : Confirm
consent = record {
  value = "token";
  session_id = 7;
  tool = "eve_mail_send";
  args_digest = "digest";
  created_at = 1;
  expires_at = 300000000001;
}

abbrev pub session_row : SessionRow
session_row = record {
  id = 7;
  character_id = 90;
  refresh_token = some "old";
  scopes = [];
  mcp_client_id = "cursor";
  client_name = "Cursor";
  ip = "10.0.0.1";
  created_at = 1;
  valid_til = 2592000000000001;
  revoked_at = none;
}

abbrev pub parked : Code
parked = record {
  value = "code";
  character_id = 90;
  refresh_token = "new";
  scopes = [];
  mcp_client_id = "cursor";
  redirect_uri = "http://localhost/cb";
  code_challenge = "challenge";
  expires_at = 500;
}

abbrev pub pilot : Character
pilot = record { id = 90; name = "Pilot"; owner_hash = "hash"; created_at = 1; deleted_at = none }

abbrev pub sample_db : Db
sample_db = record {
  confirms = consent ∷ [];
  mutations = [];
  sessions = session_row ∷ [];
  next_session = 8;
  codes = parked ∷ [];
  logins = [];
  clients = [];
  characters = pilot ∷ [];
}

-- A world in which every exchange with the database goes well.
abbrev pub calm : World
calm = record {
  db = sample_db;
  now = 100;
  in_tx = false;
  fault = λ n. false;
  kept = λ n. false;
  calls = 0;
  revoked_at_ccp = [];
  mail_cap_rejections = 0;
  grant = record { refresh = ""; access = ""; expiry = 0 };
  tokens_asked = 0;
}

abbrev pub sample_guard : Guard
sample_guard = new_guard 90 7

abbrev pub sample_digest : Args → Result String
sample_digest args = ok "digest"

-- A second consent of the session, to file a mail away.
abbrev pub other_consent : Confirm
other_consent = record {
  value = "second";
  session_id = 7;
  tool = "eve_mail_mark";
  args_digest = "digest";
  created_at = 2;
  expires_at = 300000000002;
}

abbrev pub busy : World
busy = record calm { db = record sample_db { confirms = consent ∷ other_consent ∷ [] } }

abbrev pub mark_mail : Authz
mark_mail = record {
  tool = "eve_mail_mark";
  capability = "mail_organize";
  args = [];
  preview = [];
  token = "second";
  scopes = "esi-mail.organize_mail.v1" ∷ [];
}

abbrev pub sent : Record
sent = record {
  tool = "eve_mail_send";
  capability = "mail_send";
  args = [];
  outcome = "ok";
  esi_status = 0;
  error = "";
}

-- The mail that the consent is for.
abbrev pub send_mail : Authz
send_mail = record {
  tool = "eve_mail_send";
  capability = "mail_send";
  args = [];
  preview = [];
  token = "token";
  scopes = "esi-mail.send_mail.v1" ∷ [];
}

abbrev pub sample_grant : ParkedGrant
sample_grant = record {
  code = "code";
  character_id = 90;
  refresh_token = "new";
  scopes = [];
  mcp_client_id = "cursor";
  client_name = "Cursor";
  ip = "10.0.0.1";
}
