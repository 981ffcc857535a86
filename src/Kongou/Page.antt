-- ===== src/Kongou/Page.antt =====
-- src/kongou.c: the texts that are written to the client, the calls of system(3), and the resource.
use sighttpd.Prelude.{
  ℕ, Text, Bool, true, Option, none, some, List, [], ◌∷◌, ◌++◌, ◌==◌, ◌||◌, if◌then◌else◌, codes,
  drop, length, strn_eq, strcspn, int_lt, atoi, print_int, print_hex,
}
use sighttpd.Params.{Params, foreach}
use sighttpd.Params.Parse.{parse_query}
use sighttpd.Request.{Request}
use sighttpd.Resource.{Resource, ResourceCheck, ResourceHead, ResourceBody, resource_new, newline}
use sighttpd.Status.{ok, http_status_line}
use sighttpd.Shell.{Popen}
use sighttpd.Kongou.{Field, Control, name_text, kongou_get_field, kongou_control_init}

-- What has gone to the descriptor and to system(3), in their order.
pub record Out : Type 0 where
  pub written : Text
  pub commands : List Text

unfoldable pub write : Text → Out → Out
write t out = record out { written = out.written ++ t }

-- The text of the format for a value that is out of range.
unfoldable pub range_text : (key : Text) (val : ℕ) → Field → Text
range_text key val field =
    codes "<li>"
    ++ (key
        ++ (codes ": Value 0x"
            ++ (print_hex val
                ++ (codes " out of range (0x"
                    ++ (print_hex field.range_min
                        ++ (codes " - 0x"
                            ++ (print_hex field.range_max
                                ++ (codes ")" ++ (newline ++ codes "</li>")))))))))

-- `cmd`
unfoldable pub set_command : Field → (val : ℕ) → Text
set_command field val =
    codes "kgctrl set 5 " ++ (print_int field.number ++ (codes " " ++ print_int val))

unfoldable pub set_text : (key : Text) (val : ℕ) (cmd : Text) → Text
set_text key val cmd =
    codes "<li>Set "
    ++ (key ++ (codes " to " ++ (print_int val ++ (codes ": <tt>" ++ (cmd ++ codes "</tt>")))))

-- `system_fails` says of each command whether system(3) returns -1 for it.
unfoldable pub kongou_set_field :
    (system_fails : Text → Bool) (key : Text) (val : ℕ) → Field → Out → Out
kongou_set_field system_fails key val field out =
    if val == field.value
    then out
    else if int_lt val field.range_min || int_lt field.range_max val
    then write (range_text key val field) out
    else (let cmd = set_command field val in
        let said = write (set_text key val cmd) out in
        let ran = record said { commands = said.commands ++ cmd ∷ [] } in
        write (codes "</li>" ++ newline)
          (write (if system_fails cmd then codes ": ERROR" else codes ": OK") ran))

unfoldable pub kongou_set_found :
    (system_fails : Text → Bool) (key value : Text) → Option Field → Out → Out
kongou_set_found system_fails key value none out = out
kongou_set_found system_fails key value (some field) out =
    kongou_set_field system_fails key (atoi value) field out

-- `kongou_set_param`, whose result is 0. The key and the value of an entry are not NULL.
unfoldable pub kongou_set_param :
    (system_fails : Text → Bool) → Control → (key value : Text) → Out → Out × ℕ
kongou_set_param system_fails control key value out =
    (kongou_set_found system_fails key value (kongou_get_field control key) out, 0)

unfoldable pub form_text : Text
form_text =
    codes "<form action=\"/kongou.html\" method=\"GET\">"
    ++ (newline ++ (codes "<table>" ++ newline))

unfoldable pub row_text : Field → Text
row_text field =
    codes "<tr><th>"
    ++ (name_text field
        ++ (codes "</th><td><input name=\""
            ++ (name_text field
                ++ (codes "\" value=\"0x"
                    ++ (print_hex field.value ++ (codes "\"/></td></tr>" ++ newline))))))

-- `if (*field->name != '\0')`
unfoldable pub kongou_field_row : Text → Field → Out → Out
kongou_field_row [] field out = out
kongou_field_row (c ∷ name) field out = write (row_text field) out

unfoldable pub kongou_field_rows : Control → Out → Out
kongou_field_rows [] out = out
kongou_field_rows (field ∷ control) out =
    kongou_field_rows control (kongou_field_row field.name field out)

-- `kongou_field_entries`
unfoldable pub kongou_field_entries : Control → Out → Out
kongou_field_entries control out =
    write (codes "</table><input type=\"submit\" value=\"Set\"></form>" ++ newline)
      (kongou_field_rows control (write form_text out))

-- `strstr (path, word) != NULL`
unfoldable pub has_word : (word path : Text) → Bool
has_word word [] = strn_eq [] word (length word)
has_word word (c ∷ path) =
    let later = has_word word path in if strn_eq (c ∷ path) word (length word) then true else later

-- What comes of `kongou_body`: `stray` where a field is outside of the array or a name leaves `name[64]`, `running` where the loop of `params_new_parse` is not ended by the fuel.
pub data Reply : Type 0 where
  stray running : Reply
  replied : Out → Reply

unfoldable pub kongou_head_text : Text
kongou_head_text = codes "<html><head><title>Kongou</title></head><body><h1>Kongou</h1>"

unfoldable pub kongou_foot : Text
kongou_foot = codes "</body></html>"

-- The list of what is set.
unfoldable pub set_params : (system_fails : Text → Bool) → Control → Params → Out → Out
set_params system_fails control query out =
    write (codes "</ul><hr/>")
      (foreach query (kongou_set_param system_fails control) (write (codes "<ul>") out)).0

unfoldable pub finish_page : Control → Out → Reply
finish_page control out = replied (write kongou_foot (kongou_field_entries control out))

unfoldable pub set_query : (system_fails : Text → Bool) → Control → Option Params → Out → Reply
set_query system_fails control none out = Reply.running
set_query system_fails control (some query) out =
    finish_page control (set_params system_fails control query out)

-- From `q` on: what is left of the path from the first question mark.
unfoldable pub answer_query :
    (fuel : ℕ) (system_fails : Text → Bool) → Control → (q : Text) → Out → Reply
answer_query fuel system_fails control [] out = finish_page control out
answer_query fuel system_fails control (c ∷ q) out =
    set_query system_fails control (parse_query fuel q (length q)) out

unfoldable pub answer :
    (fuel : ℕ) (system_fails : Text → Bool) (path : Text) → Option Control → Reply
answer fuel system_fails path none = stray
answer fuel system_fails path (some control) =
    answer_query fuel system_fails control (drop (strcspn path (codes "?")) path)
      (record { written = kongou_head_text; commands = [] })

-- `kongou_body`
unfoldable pub kongou_body :
    (fuel : ℕ) → Popen → (rest : Text) (system_fails : Text → Bool) → Request → Reply
kongou_body fuel popen rest system_fails request =
    answer fuel system_fails request.path
      (kongou_control_init popen rest (has_word (codes "full") request.path))

unfoldable pub kongou_check : ResourceCheck
kongou_check request = strn_eq request.path (codes "/kongou") 7

-- `kongou_append_headers` returns nothing: what its caller takes for its result is `unreturned`.
unfoldable pub kongou_head : (unreturned : Params → Params) → ResourceHead
kongou_head unreturned request request_headers response_headers =
    (http_status_line ok, unreturned response_headers)

-- `kongou_resource`; what the client is sent where `kongou_body` ends is `body`.
unfoldable pub kongou_resource : (unreturned : Params → Params) → ResourceBody → Resource
kongou_resource unreturned body = resource_new kongou_check (kongou_head unreturned) body
