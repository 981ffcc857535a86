-- ===== src/Kongou/Tests.antt =====
-- A request that sets the zoom of a camera whose zoom is 7.
use sighttpd.Prelude.{
  Text, Bool, false, Option, none, some, [], ◌∷◌, ◌++◌, ◌≡◌, refl, codes, strspn, strcspn, strn_eq,
  text_eq, scan_int, scan_word, scan_char, digit_of, scan_digits, positive, negative, is_digit,
  atoi, atoi_sign, int_lt, print_int, decimal, digits, scan_hex, scan_zero, scan_number, scan_sign,
  tolower,
}
use sighttpd.Params.{foreach, append, append_text}
use sighttpd.Params.Parse.{parse_query, parse_delim, item_value, after_item}
use sighttpd.Request.{Request, get, http_1_1}
use sighttpd.Resource.{newline}
use sighttpd.Shell.{Popen, shell_copy, copied, copy_loop}
use sighttpd.Kongou.{
  Control, init_field, set_value, modify_at, name_text, kongou_get_field, kongou_field_init,
  kongou_field_got, lines_of, until_nul, scan_value, got_line, got_lines, kongou_control_init_short,
  no_field, no_fields, output_lines, kongou_control_get_all, init_fields, kongou_control_init,
  max_field,
}
use sighttpd.Kongou.Page.{
  Out, Reply, replied, has_word, kongou_body, set_command, answer, answer_query, set_query,
  set_params, finish_page, kongou_set_param, kongou_set_found, kongou_set_field, write,
  kongou_field_entries, kongou_field_rows, kongou_field_row,
}

-- kgctrl prints one line, for either command.
abbrev kgctrl : Popen
kgctrl cmd = some ((codes "5 7" ++ newline) ∷ [])

abbrev zoom : Request
zoom = record {
  original_reqline = codes "GET /kongou.html?EZOOM=16 HTTP/1.1";
  method = get;
  path = codes "/kongou.html?EZOOM=16";
  version = http_1_1;
}

abbrev never : Text → Bool
never cmd = false

abbrev zoom_control : Option Control
zoom_control = kongou_control_init kgctrl (0 ∷ []) (has_word (codes "full") zoom.path)

abbrev control_of : Option Control → Control
control_of none = []
control_of (some control) = control

abbrev out_of : Reply → Out
out_of (replied out) = out
out_of _ = record { written = []; commands = [] }

abbrev zoom_reply : Reply
zoom_reply = kongou_body 20 kgctrl (0 ∷ []) never zoom

-- The one command that it runs.
zoom_commands : (out_of zoom_reply).commands ≡ codes "kgctrl set 5 5 16" ∷ []
unfolding init_field set_value modify_at kongou_field_init kongou_field_got lines_of until_nul
    scan_value got_line got_lines kongou_control_init_short no_field no_fields output_lines
    kongou_control_get_all init_fields kongou_control_init shell_copy copied copy_loop scan_int
    scan_word scan_char digit_of scan_digits positive negative is_digit strspn strcspn strn_eq
    has_word scan_hex scan_zero scan_number scan_sign tolower kongou_body answer answer_query
    parse_query parse_delim item_value after_item append append_text set_query set_params foreach
    kongou_set_param kongou_set_found kongou_set_field kongou_get_field name_text text_eq atoi
    atoi_sign int_lt write finish_page kongou_field_entries kongou_field_rows kongou_field_row
    set_command print_int decimal digits
zoom_commands = refl

no_field_found : kongou_get_field (no_fields max_field) [] ≡ some no_field
unfolding kongou_get_field name_text no_fields no_field text_eq
no_field_found = refl
