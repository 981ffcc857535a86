-- ===== src/Kongou.antt =====
-- src/kongou.c: the page that shows and sets the controls of a camera through the command kgctrl.
pub mod Page
pub mod Fields
pub mod Control
pub mod Fits
mod Tests
use sighttpd.Prelude.{
  ℕ, zero, suc, Text, Bool, true, false, Option, none, some, take, ltb, List, [], ◌∷◌, ◌++◌, ◌==◌,
  if◌then◌else◌, ◌>>=◌, ◌||◌, codes, leb, length, text_eq, scan_int, scan_word, scan_char, strspn,
  drop,
}
use sighttpd.Shell.{Popen, shell_copy}

-- `struct kongou_field`: `name` is what stands in its array of 32 bytes before a NUL, all of it where there
-- is none; an `int` is a natural below 2 ^ 32 in two's complement.
pub record Field : Type 0 where
  pub name : Text
  pub number : ℕ
  pub range_min : ℕ
  pub range_max : ℕ
  pub dflt : ℕ
  pub value : ℕ

-- `MAX_FIELD`, `MAX_NAME`
abbrev pub max_field : ℕ
max_field = 128

abbrev pub max_name : ℕ
max_name = 32

-- `struct kongou_control`
abbrev pub Control : Type 0
Control = List Field

-- The C string at `field->name`. Where the array of the name holds no NUL, the string goes on in the number
-- that follows it: this is how it is laid out with the lowest byte first, and as a place in the
-- array of fields is below 128, the second byte is the NUL.
unfoldable pub name_text : Field → Text
name_text field =
    if ltb (length field.name) max_name
    then field.name
    else field.name ++ (if field.number == 0 then [] else field.number ∷ [])

-- `kongou_get_field`
unfoldable pub kongou_get_field : Control → Text → Option Field
kongou_get_field [] fieldname = none
kongou_get_field (field ∷ fields) fieldname =
    if text_eq fieldname (name_text field) then some field else kongou_get_field fields fieldname

-- A write to `control->fields[no]`.
unfoldable pub modify_at : ℕ → (Field → Field) → Control → Control
modify_at number f [] = []
modify_at zero f (field ∷ fields) = f field ∷ fields
modify_at (suc number) f (field ∷ fields) = field ∷ modify_at number f fields

-- `strncpy` takes 32 bytes of the name at most, and then puts no NUL.
unfoldable pub init_field :
    (number : ℕ) (name : Text) (range_min range_max dflt : ℕ) → Field → Field
init_field number name range_min range_max dflt field = record field {
  number = number;
  name = take max_name name;
  range_min = range_min;
  range_max = range_max;
  dflt = dflt;
}

-- `kongou_field_init`: `none` where it writes outside of the array of fields.
unfoldable pub kongou_field_init :
    Control → (number : ℕ) (name : Text) (range_min range_max dflt : ℕ) → Option Control
kongou_field_init control number name range_min range_max dflt =
    if leb max_field number
    then none
    else some (modify_at number (init_field number name range_min range_max dflt) control)

unfoldable pub set_value : ℕ → Field → Field
set_value value field = record field { value = value }

-- `kongou_field_got`: `none` where it writes outside of the array.
unfoldable pub kongou_field_got : Control → (number value : ℕ) → Option Control
kongou_field_got control number value =
    if leb max_field number then none else some (modify_at number (set_value value) control)

-- The lines that `while (*prev_line && (line = strchr (prev_line, '\n')) != NULL)` goes through; what
-- stands behind the last line end is not read.
unfoldable pub lines_of : Text → (prev_line : Text) → List Text
lines_of [] prev_line = []
lines_of (c ∷ s) prev_line =
    if c == 10 then prev_line ∷ lines_of s [] else lines_of s (prev_line ++ c ∷ [])

-- `shell_copy` puts no NUL behind the output: the lines are those of the output and of what the rest
-- of `buf` happens to hold, up to the first NUL.
unfoldable pub until_nul : Text → Text
until_nul [] = []
until_nul (c ∷ s) = if c == 0 then [] else c ∷ until_nul s

-- `sscanf (prev_line, "%i %i", &no, &value) == 2`
unfoldable pub scan_value : Text → Option (ℕ × ℕ)
scan_value line = do (number, s) ← scan_int line; (value, t) ← scan_int s; some (number, value)

unfoldable pub got_line : Text → Control → Option Control
got_line line control = elim (scan_value line) [
  | none ↦ some control
  | some (number, value) ↦ kongou_field_got control number value
]

unfoldable pub got_lines : List Text → Control → Option Control
got_lines [] control = some control
got_lines (line ∷ lines) control = do control' ← got_line line control; got_lines lines control'

-- What `kgctrl info` tells of a field.
pub record Info : Type 0 where
  pub number : ℕ
  pub name : Text
  pub range_min : ℕ
  pub range_max : ℕ
  pub dflt : ℕ

-- `sscanf (prev_line, "%i %s %i %i - %i %i", ...) == 6`
unfoldable pub scan_info : Text → Option Info
scan_info line = do
  (number, a) ← scan_int line
  (name, b) ← scan_word a
  (plen, c) ← scan_int b
  (range_min, d) ← scan_int c
  e ← scan_char b'-' (drop (strspn d (codes " ")) d)
  (range_max, f) ← scan_int e
  (dflt, g) ← scan_int f
  some (record {
    number = number;
    name = name;
    range_min = range_min;
    range_max = range_max;
    dflt = dflt;
  })

-- `char name[64]`
abbrev pub name_size : ℕ
name_size = 64

-- What `%s` writes, before what follows it is read.
unfoldable pub scanned_name : Text → Option Text
scanned_name line = do (number, a) ← scan_int line; (name, b) ← scan_word a; some name

-- Whether the name with its NUL is too long for `name`.
unfoldable pub name_overflows : Text → Bool
name_overflows line = elim (scanned_name line) [
  | none ↦ false
  | some name ↦ leb name_size (length name)
]

unfoldable pub init_info : Control → Option Info → Option Control
init_info control none = some control
init_info control (some i) =
    kongou_field_init control i.number i.name i.range_min i.range_max i.dflt

-- `none` where a name leaves its array.
unfoldable pub info_line : Text → Control → Option Control
info_line line control = if name_overflows line then none else init_info control (scan_info line)

unfoldable pub info_lines : List Text → Control → Option Control
info_lines [] control = some control
info_lines (line ∷ lines) control = do control' ← info_line line control; info_lines lines control'

-- `kongou_control_init_short`
unfoldable pub kongou_control_init_short : Control → Option Control
kongou_control_init_short control = do
  a ← kongou_field_init control 5 (codes "EZOOM") 0 224 0
  b ← kongou_field_init a 6 (codes "MIRROR") 0 3 0
  kongou_field_init b 7 (codes "EFFECT") 0 3 0

-- `memset (control, 0, sizeof(struct kongou_control))`
unfoldable pub no_field : Field
no_field = record { name = []; number = 0; range_min = 0; range_max = 0; dflt = 0; value = 0 }

unfoldable pub no_fields : ℕ → Control
no_fields zero = []
no_fields (suc n) = no_field ∷ no_fields n

-- What the loops read of the output `out` that `shell_copy` put into `buf`, with `rest` behind it.
unfoldable pub output_lines : (out rest : Text) → List Text
output_lines out rest = lines_of (until_nul (out ++ rest)) []

module _ (popen : Popen) (rest : Text) where
  -- `kongou_control_get_all`
  unfoldable pub kongou_control_get_all : Control → Option Control
  kongou_control_get_all control =
      let out = shell_copy popen 8192 (codes "kgctrl get-all 5") in
      if length out == 0 then some control else got_lines (output_lines out rest) control

  -- `kongou_control_init` behind the call of `kongou_control_get_all`.
  unfoldable pub init_fields : (full : Bool) → Control → Option Control
  init_fields false control = kongou_control_init_short control
  init_fields true control =
      let out = shell_copy popen 8192 (codes "kgctrl info") in
      if length out == 0
      then kongou_control_init_short control
      else info_lines (output_lines out rest) control

  -- `kongou_control_init`
  unfoldable pub kongou_control_init : (full : Bool) → Option Control
  kongou_control_init full = do
    control ← kongou_control_get_all (no_fields max_field)
    init_fields full control
