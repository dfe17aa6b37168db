-- ===== src/LuaConstants.antt =====
-- src/lua_constants.cpp: the table of error messages, and `sendError` of src/connection.cpp, which
-- looks a message up in it.
use fserv.Prelude.{Option, none, some, [], ◌∷◌, ◌++◌}
use fserv.Prelude.Bytes.{Bytes, codes, c_str}
use fserv.Prelude.Int.{ℤ}
use fserv.Prelude.Maps.{Map, int_eq, lookup}
use fserv.Json.{Jansson, given, text}
use fserv.Connection.{Connection, from_string, send}
use fserv.Server.Errors.{
  ferr_ok, ferr_bad_syntax, ferr_server_full, ferr_requires_ident, ferr_ident_failed,
  ferr_throttle_message, ferr_user_not_found, ferr_throttle_profile, ferr_unknown_command,
  ferr_banned_from_server, ferr_not_admin, ferr_already_ident, ferr_throttle_kinks,
  ferr_throttle_status, ferr_message_too_long, ferr_already_op, ferr_not_an_op,
  ferr_no_search_results, ferr_not_op, ferr_ignored, ferr_denied_on_op, ferr_channel_not_found,
  ferr_already_in_channel, ferr_too_many_from_ip, ferr_logged_in_again, ferr_already_banned,
  ferr_unknown_auth_method, ferr_bad_roll_format, ferr_bad_timeout_format, ferr_timed_out,
  ferr_kicked, ferr_already_channel_banned, ferr_not_channel_banned, ferr_not_invited,
  ferr_not_in_channel, ferr_invite_to_public, ferr_channel_banned, ferr_user_not_in_channel,
  ferr_throttle_search, ferr_throttle_staff_call, ferr_throttle_ad, ferr_chat_only, ferr_ads_only,
  ferr_too_many_search_terms, ferr_no_login_slot, ferr_too_many_search_results,
  ferr_too_many_channels, ferr_too_many_channel_bans, ferr_description_too_long,
  ferr_fatal_internal, ferr_lua, ferr_not_implemented, ferr_login_timed_out, ferr_unknown,
}

-- `errorMap`, by `initClass`: the name and the message of each code.
abbrev pub error_map : Map ℤ (Bytes × Bytes)
error_map =
    (ferr_ok, (codes "FERR_OK", codes "Operation completed successfully."))
    ∷ (ferr_bad_syntax, (codes "FERR_BAD_SYNTAX", codes "Syntax error."))
    ∷ (ferr_server_full, (codes "FERR_SERVER_FULL", codes "Server full."))
    ∷ (
      ferr_requires_ident,
      (codes "FERR_REQUIRES_IDENT", codes "This command requires that you have logged in."),
    )
    ∷ (ferr_ident_failed, (codes "FERR_IDENT_FAILED", codes "Identification failed."))
    ∷ (
      ferr_throttle_message,
      (
        codes "FERR_THROTTLE_MESSAGE",
        codes "You must wait one second between sending channel/private messages.",
      ),
    )
    ∷ (
      ferr_user_not_found,
      (codes "FERR_USER_NOT_FOUND", codes "The character requested was not found."),
    )
    ∷ (
      ferr_throttle_profile,
      (
        codes "FERR_THROTTLE_PROFILE",
        codes "You must wait ten seconds between requesting profiles.",
      ),
    )
    ∷ (ferr_unknown_command, (codes "FERR_UNKNOWN_COMMAND", codes "Unknown command."))
    ∷ (
      ferr_banned_from_server,
      (codes "FERR_BANNED_FROM_SERVER", codes "You are banned from the server."),
    )
    ∷ (
      ferr_not_admin,
      (codes "FERR_NOT_ADMIN", codes "This command requires that you be an administrator."),
    )
    ∷ (ferr_already_ident, (codes "FERR_ALREADY_IDENT", codes "Already identified."))
    ∷ (
      ferr_throttle_kinks,
      (codes "FERR_THROTTLE_KINKS", codes "You must wait ten seconds between requesting kinks."),
    )
    ∷ (
      ferr_throttle_status,
      (codes "FERR_THROTTLE_STATUS", codes "You must wait five seconds between status changes."),
    )
    ∷ (
      ferr_message_too_long,
      (codes "FERR_MESSAGE_TOO_LONG", codes "Message exceeded the maximum length."),
    )
    ∷ (
      ferr_already_op,
      (codes "FERR_ALREADY_OP", codes "This character is already a global moderator."),
    )
    ∷ (ferr_not_an_op, (codes "FERR_NOT_AN_OP", codes "This character is not a global moderator."))
    ∷ (
      ferr_no_search_results,
      (codes "FERR_NO_SEARCH_RESULTS", codes "There were no search results."),
    )
    ∷ (ferr_not_op, (codes "FERR_NOT_OP", codes "This command requires that you be a moderator."))
    ∷ (
      ferr_ignored,
      (codes "FERR_IGNORED", codes "This user does not wish to receive messages from you."),
    )
    ∷ (
      ferr_denied_on_op,
      (
        codes "FERR_DENIED_ON_OP",
        codes "This action can not be used on a moderator or administrator.",
      ),
    )
    ∷ (
      ferr_channel_not_found,
      (codes "FERR_CHANNEL_NOT_FOUND", codes "Could not locate the requested channel."),
    )
    ∷ (
      ferr_already_in_channel,
      (codes "FERR_ALREADY_IN_CHANNEL", codes "You are already in the requested channel."),
    )
    ∷ (
      ferr_too_many_from_ip,
      (codes "FERR_TOO_MANY_FROM_IP", codes "There are too many connections from your IP."),
    )
    ∷ (
      ferr_logged_in_again,
      (
        codes "FERR_LOGGED_IN_AGAIN",
        codes
            "You have been disconnected because this character has been logged in at another location.",
      ),
    )
    ∷ (ferr_already_banned, (codes "FERR_ALREADY_BANNED", codes "That account is already banned."))
    ∷ (
      ferr_unknown_auth_method,
      (codes "FERR_UNKNOWN_AUTH_METHOD", codes "Unknown authentication method requested."),
    )
    ∷ (
      ferr_bad_roll_format,
      (codes "FERR_BAD_ROLL_FORMAT", codes "There was a problem with your roll command."),
    )
    ∷ (
      ferr_bad_timeout_format,
      (
        codes "FERR_BAD_TIMEOUT_FORMAT",
        codes
            "The time given for the timeout was invalid. It must be a number between 1 and 90 minutes.",
      ),
    )
    ∷ (ferr_timed_out, (codes "FERR_TIMED_OUT", codes "You have been timed out from chat."))
    ∷ (ferr_kicked, (codes "FERR_KICKED", codes "You have been kicked from chat."))
    ∷ (
      ferr_already_channel_banned,
      (
        codes "FERR_ALREADY_CHANNEL_BANNED",
        codes "This character is already banned from the channel.",
      ),
    )
    ∷ (
      ferr_not_channel_banned,
      (
        codes "FERR_NOT_CHANNEL_BANNED",
        codes "This character is not currently banned from the channel.",
      ),
    )
    ∷ (
      ferr_not_invited,
      (codes "FERR_NOT_INVITED", codes "You may only join the requested channel with an invite."),
    )
    ∷ (
      ferr_not_in_channel,
      (codes "FERR_NOT_IN_CHANNEL", codes "You must be in a channel to send messages to it."),
    )
    ∷ (
      ferr_invite_to_public,
      (codes "FERR_INVITE_TO_PUBLIC", codes "You may not invite others to a public channel."),
    )
    ∷ (
      ferr_channel_banned,
      (codes "FERR_CHANNEL_BANNED", codes "You are banned from the requested channel."),
    )
    ∷ (
      ferr_user_not_in_channel,
      (codes "FERR_USER_NOT_IN_CHANNEL", codes "That character was not found in the channel."),
    )
    ∷ (
      ferr_throttle_search,
      (codes "FERR_THROTTLE_SEARCH", codes "You must wait five seconds between searches."),
    )
    ∷ (
      ferr_throttle_staff_call,
      (
        codes "FERR_THROTTLE_STAFF_CALL",
        codes
            "Please wait two minutes between calling moderators. If you need to make an addition or a correction to a report, please contact a moderator directly.",
      ),
    )
    ∷ (
      ferr_throttle_ad,
      (
        codes "FERR_THROTTLE_AD",
        codes "You may only post a role play ad to a channel every ten minutes.",
      ),
    )
    ∷ (
      ferr_chat_only,
      (
        codes "FERR_CHAT_ONLY",
        codes "This channel does not allow role play ads, only chat messages.",
      ),
    )
    ∷ (
      ferr_ads_only,
      (
        codes "FERR_ADS_ONLY",
        codes "This channel does not allow chat messages, only role play ads.",
      ),
    )
    ∷ (
      ferr_too_many_search_terms,
      (codes "FERR_TOO_MANY_SEARCH_TERMS", codes "There were too many search terms."),
    )
    ∷ (
      ferr_no_login_slot,
      (codes "FERR_NO_LOGIN_SLOT", codes "There are currently no free login slots."),
    )
    ∷ (
      ferr_too_many_search_results,
      (
        codes "FERR_TOO_MANY_SEARCH_RESULTS",
        codes "There are too many search results, please narrow your search.",
      ),
    )
    ∷ (
      ferr_too_many_channels,
      (
        codes "FERR_TOO_MANY_CHANNELS",
        codes "You have reached the maximum number of joined channels.",
      ),
    )
    ∷ (
      ferr_too_many_channel_bans,
      (codes "FERR_TOO_MANY_CHANNEL_BANS", codes "There are too many channel bans or timeouts."),
    )
    ∷ (
      ferr_description_too_long,
      (codes "FERR_DESCRIPTION_TOO_LONG", codes "The channel description provided was too long."),
    )
    ∷ (ferr_fatal_internal, (codes "FERR_FATAL_INTERNAL", codes "Fatal internal error."))
    ∷ (ferr_lua, (codes "FERR_LUA", codes "An error occurred while processing your command."))
    ∷ (
      ferr_not_implemented,
      (codes "FERR_NOT_IMPLEMENTED", codes "This command has not been implemented yet."),
    )
    ∷ (
      ferr_login_timed_out,
      (
        codes "FERR_LOGIN_TIMED_OUT",
        codes "A connection to the login server timed out. Please try again in a moment.",
      ),
    )
    ∷ (ferr_unknown, (codes "FERR_UNKNOWN", codes "An unknown error occurred."))
    ∷ []

abbrev message_or : Bytes → Option (Bytes × Bytes) → Bytes
message_or unknown none = unknown
message_or unknown (some (name, message)) = message

unfoldable pub get_error_message : ℤ → Bytes
get_error_message errorcode =
    message_or (message_or [] (lookup ferr_unknown error_map)) (lookup errorcode error_map)

module _ {J : Type 0} (j : Jansson J) where
  abbrev error_text : ℤ → J → Bytes
  error_text error message =
      codes "ERR "
      ++ c_str (
          j.json_dumps (
            j.json_object
              ((codes "number", j.json_integer error) ∷ (codes "message", message) ∷ [])))

  -- The message in UTF-8, or what stands in for it.
  abbrev checked_text : Bytes → Bytes → J
  checked_text instead message = given (text j instead) (j.json_string_checked (c_str message))

  unfoldable pub send_error : ℤ → Connection → Connection
  unfolding get_error_message
  send_error error con =
      (send (from_string (error_text error (text j (get_error_message error)))) con).0

  -- The overload that takes the message.
  unfoldable pub send_error_message : ℤ → Bytes → Connection → Connection
  send_error_message error message con =
      let node =
        checked_text
          (codes "There was an error encoding this error message. Please report this to Kira.")
          message in
      (send (from_string (error_text error node)) con).0

  unfoldable pub send_debug_reply : Bytes → Connection → Connection
  send_debug_reply message con =
      let node =
        checked_text (codes "Failed to parse the debug reply as a valid UTF-8 string.") message in
      let reply = j.json_dumps (j.json_object ((codes "message", node) ∷ [])) in
      (send (from_string (codes "ZZZ " ++ c_str reply)) con).0
