-- ===== src/Kongou/Fits.antt =====
-- The buffers `char buf[1024], cmd[64]` of src/kongou.c.
use sighttpd.Prelude.{
  ℕ, ◌<◌, ◌≤◌, [], ◌∷◌, ◌≡◌, sym, subst, Text, some, arith, length, length-append, length-print_int,
  length-print_hex,
}
use sighttpd.Kongou.{Field, Control, name_text, kongou_get_field}
use sighttpd.Kongou.Fields.{IsControl}
use sighttpd.Kongou.Control.{kongou_get_field_lem}
use sighttpd.Kongou.Page.{range_text, set_command, set_text, row_text}

length-name_text : (field : Field) → length field.name ≤ 32 → length (name_text field) ≤ 33
unfolding name_text
length-name_text field h =
    ground (arith, length-append field.name [], length-append field.name (field.number ∷ []))

length-set_command : (field : Field) (val : ℕ) → length (set_command field val) < 64
unfolding set_command
length-set_command field val =
    grind (arith, length-append, length-print_int field.number, length-print_int val)

length-set_text :
    (key : Text) (val : ℕ) (cmd : Text)
    → length key ≤ 33
    → length cmd < 64
    → length (set_text key val cmd) < 1024
unfolding set_text
length-set_text key val cmd h k = grind (arith, length-append, length-print_int val)

length-range_text :
    (key : Text) (val : ℕ) (field : Field)
    → length key ≤ 33
    → length (range_text key val field) < 1024
unfolding range_text
length-range_text key val field h = grind (
  arith,
  length-append,
  length-print_hex val,
  length-print_hex field.range_min,
  length-print_hex field.range_max,
)

length-row_text : (field : Field) → length (name_text field) ≤ 33 → length (row_text field) < 1024
unfolding row_text
length-row_text field h = grind (arith, length-append, length-print_hex field.value)

-- For each field that `kongou_get_field` finds in an array that `kongou_control_init` leaves, and each value
-- given for it, the command and the texts that are printed of it fit their buffers with a NUL.
pub kongou_get_field-fits :
    (control : Control) (key : Text) (field : Field) (val : ℕ)
    → IsControl control
    → kongou_get_field control key ≡ some field
    → (length (set_command field val) < 64)
      × (length (set_text key val (set_command field val)) < 1024)
      × (length (range_text key val field) < 1024)
      × (length (row_text field) < 1024)
kongou_get_field-fits control key field val c e =
    let (name, h, cut, found) = kongou_get_field_lem 0 control key field c.fields e in
    let ends = length-name_text field h in
    let short : length key ≤ 33 = subst (λ t. length t ≤ 33) (sym name) ends in
    (
      length-set_command field val,
      length-set_text key val (set_command field val) short (length-set_command field val),
      length-range_text key val field short,
      length-row_text field ends,
    )
