-- ===== src/Tools/Serve.antt =====
-- internal/usecase/eve/writes.go and common.go: the writing tools, by the call that a client makes.
use eve_online_mcp.Prelude.{String}
use eve_online_mcp.Store.{Result}
use eve_online_mcp.Write.Summary.{Args}
use eve_online_mcp.Tools.{Net, T, Answer}
use eve_online_mcp.Tools.Mail.{
  MailMarkIn, MailDeleteIn, MailSendIn, eve_mail_mark, eve_mail_delete, eve_mail_send,
}
use eve_online_mcp.Tools.Compose.{MailComposeIn, eve_mail_compose}
use eve_online_mcp.Tools.Contacts.{
  ContactsSetIn, ContactsDeleteIn, eve_contacts_set, eve_contacts_delete,
}
use eve_online_mcp.Tools.Fittings.{
  FittingSaveIn, FittingDeleteIn, eve_fitting_save, eve_fitting_delete,
}
use eve_online_mcp.Tools.Windows.{WaypointIn, OpenWindowIn, eve_ui_set_waypoint, eve_ui_open_window}
use eve_online_mcp.Tools.Calendar.{CalendarRespondIn, eve_calendar_respond}

pub data ToolCall : Type 0 where
  mail_mark : MailMarkIn → ToolCall
  mail_delete : MailDeleteIn → ToolCall
  mail_send : MailSendIn → ToolCall
  mail_compose : MailComposeIn → ToolCall
  contacts_set : ContactsSetIn → ToolCall
  contacts_delete : ContactsDeleteIn → ToolCall
  fitting_save : FittingSaveIn → ToolCall
  fitting_delete : FittingDeleteIn → ToolCall
  ui_set_waypoint : WaypointIn → ToolCall
  ui_open_window : OpenWindowIn → ToolCall
  calendar_respond : CalendarRespondIn → ToolCall

abbrev pub tool_of : ToolCall → String
tool_of (mail_mark in_) = "eve_mail_mark"
tool_of (mail_delete in_) = "eve_mail_delete"
tool_of (mail_send in_) = "eve_mail_send"
tool_of (mail_compose in_) = "eve_mail_compose"
tool_of (contacts_set in_) = "eve_contacts_set"
tool_of (contacts_delete in_) = "eve_contacts_delete"
tool_of (fitting_save in_) = "eve_fitting_save"
tool_of (fitting_delete in_) = "eve_fitting_delete"
tool_of (ui_set_waypoint in_) = "eve_ui_set_waypoint"
tool_of (ui_open_window in_) = "eve_ui_open_window"
tool_of (calendar_respond in_) = "eve_calendar_respond"

abbrev pub token_of : ToolCall → String
token_of (mail_mark in_) = in_.confirm_token
token_of (mail_delete in_) = in_.confirm_token
token_of (mail_send in_) = in_.confirm_token
token_of (mail_compose in_) = in_.confirm_token
token_of (contacts_set in_) = in_.confirm_token
token_of (contacts_delete in_) = in_.confirm_token
token_of (fitting_save in_) = in_.confirm_token
token_of (fitting_delete in_) = in_.confirm_token
token_of (ui_set_waypoint in_) = in_.confirm_token
token_of (ui_open_window in_) = in_.confirm_token
token_of (calendar_respond in_) = in_.confirm_token

module _ (net : Net) (digest : Args → Result String) (fresh : String) where
  unfoldable pub serve : ToolCall → T Answer
  unfolding eve_mail_mark eve_mail_delete eve_mail_send eve_mail_compose eve_contacts_set
      eve_contacts_delete eve_fitting_save eve_fitting_delete eve_ui_set_waypoint eve_ui_open_window
      eve_calendar_respond
  serve (mail_mark in_) = eve_mail_mark net digest fresh in_
  serve (mail_delete in_) = eve_mail_delete net digest fresh in_
  serve (mail_send in_) = eve_mail_send net digest fresh in_
  serve (mail_compose in_) = eve_mail_compose net digest fresh in_
  serve (contacts_set in_) = eve_contacts_set net digest fresh in_
  serve (contacts_delete in_) = eve_contacts_delete net digest fresh in_
  serve (fitting_save in_) = eve_fitting_save net digest fresh in_
  serve (fitting_delete in_) = eve_fitting_delete net digest fresh in_
  serve (ui_set_waypoint in_) = eve_ui_set_waypoint net digest fresh in_
  serve (ui_open_window in_) = eve_ui_open_window net digest fresh in_
  serve (calendar_respond in_) = eve_calendar_respond net digest fresh in_
