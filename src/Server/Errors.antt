-- ===== src/Server/Errors.antt =====
-- src/ferror.hpp: the codes that a command answers with.
use fserv.Prelude.Int.{ℤ, pos, negsuc}

abbrev pub ferr_ok : ℤ
ferr_ok = pos 0

abbrev pub ferr_bad_syntax : ℤ
ferr_bad_syntax = pos 1

abbrev pub ferr_server_full : ℤ
ferr_server_full = pos 2

abbrev pub ferr_requires_ident : ℤ
ferr_requires_ident = pos 3

abbrev pub ferr_ident_failed : ℤ
ferr_ident_failed = pos 4

abbrev pub ferr_throttle_message : ℤ
ferr_throttle_message = pos 5

abbrev pub ferr_user_not_found : ℤ
ferr_user_not_found = pos 6

abbrev pub ferr_throttle_profile : ℤ
ferr_throttle_profile = pos 7

abbrev pub ferr_unknown_command : ℤ
ferr_unknown_command = pos 8

abbrev pub ferr_banned_from_server : ℤ
ferr_banned_from_server = pos 9

abbrev pub ferr_not_admin : ℤ
ferr_not_admin = pos 10

abbrev pub ferr_already_ident : ℤ
ferr_already_ident = pos 11

abbrev pub ferr_throttle_kinks : ℤ
ferr_throttle_kinks = pos 13

abbrev pub ferr_throttle_status : ℤ
ferr_throttle_status = pos 14

abbrev pub ferr_message_too_long : ℤ
ferr_message_too_long = pos 15

abbrev pub ferr_already_op : ℤ
ferr_already_op = pos 16

abbrev pub ferr_not_an_op : ℤ
ferr_not_an_op = pos 17

abbrev pub ferr_no_search_results : ℤ
ferr_no_search_results = pos 18

abbrev pub ferr_not_op : ℤ
ferr_not_op = pos 19

abbrev pub ferr_ignored : ℤ
ferr_ignored = pos 20

abbrev pub ferr_denied_on_op : ℤ
ferr_denied_on_op = pos 21

abbrev pub ferr_channel_not_found : ℤ
ferr_channel_not_found = pos 26

abbrev pub ferr_already_in_channel : ℤ
ferr_already_in_channel = pos 28

abbrev pub ferr_too_many_from_ip : ℤ
ferr_too_many_from_ip = pos 30

abbrev pub ferr_logged_in_again : ℤ
ferr_logged_in_again = pos 31

abbrev pub ferr_already_banned : ℤ
ferr_already_banned = pos 32

abbrev pub ferr_unknown_auth_method : ℤ
ferr_unknown_auth_method = pos 33

abbrev pub ferr_bad_roll_format : ℤ
ferr_bad_roll_format = pos 36

abbrev pub ferr_bad_timeout_format : ℤ
ferr_bad_timeout_format = pos 38

abbrev pub ferr_timed_out : ℤ
ferr_timed_out = pos 39

abbrev pub ferr_kicked : ℤ
ferr_kicked = pos 40

abbrev pub ferr_already_channel_banned : ℤ
ferr_already_channel_banned = pos 41

abbrev pub ferr_not_channel_banned : ℤ
ferr_not_channel_banned = pos 42

abbrev pub ferr_not_invited : ℤ
ferr_not_invited = pos 44

abbrev pub ferr_not_in_channel : ℤ
ferr_not_in_channel = pos 45

abbrev pub ferr_invite_to_public : ℤ
ferr_invite_to_public = pos 47

abbrev pub ferr_channel_banned : ℤ
ferr_channel_banned = pos 48

abbrev pub ferr_user_not_in_channel : ℤ
ferr_user_not_in_channel = pos 49

abbrev pub ferr_throttle_search : ℤ
ferr_throttle_search = pos 50

abbrev pub ferr_throttle_staff_call : ℤ
ferr_throttle_staff_call = pos 54

abbrev pub ferr_throttle_ad : ℤ
ferr_throttle_ad = pos 56

abbrev pub ferr_chat_only : ℤ
ferr_chat_only = pos 59

abbrev pub ferr_ads_only : ℤ
ferr_ads_only = pos 60

abbrev pub ferr_too_many_search_terms : ℤ
ferr_too_many_search_terms = pos 61

abbrev pub ferr_no_login_slot : ℤ
ferr_no_login_slot = pos 62

abbrev pub ferr_too_many_search_results : ℤ
ferr_too_many_search_results = pos 72

abbrev pub ferr_too_many_channels : ℤ
ferr_too_many_channels = pos 73

abbrev pub ferr_too_many_channel_bans : ℤ
ferr_too_many_channel_bans = pos 74

abbrev pub ferr_description_too_long : ℤ
ferr_description_too_long = pos 75

abbrev pub ferr_fatal_internal : ℤ
ferr_fatal_internal = negsuc 0

abbrev pub ferr_lua : ℤ
ferr_lua = negsuc 1

abbrev pub ferr_not_implemented : ℤ
ferr_not_implemented = negsuc 2

abbrev pub ferr_login_timed_out : ℤ
ferr_login_timed_out = negsuc 3

abbrev pub ferr_unknown : ℤ
ferr_unknown = negsuc 4
