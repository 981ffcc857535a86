-- ===== src/Kongou/Fields.antt =====
-- What holds of the array of fields of src/kongou.c, however kgctrl answers.
use sighttpd.Prelude.{
  ℕ, zero, suc, ◌+◌, ◌<◌, ◌≢◌, ◌≤◌, ◌^◌, ◌≡◌, length-take, refl, ap, subst, ◌∙◌, Text, Bool, true,
  false, Option, none, some, [], ◌∷◌, arith, length, leb, if◌then◌else◌,
}
use sighttpd.Kongou.{
  Field, Control, max_field, max_name, modify_at, init_field, set_value, kongou_field_init,
  kongou_field_got, no_field, no_fields,
}

-- The array of the name has 32 bytes, a field with a name has the number of its place, and the value is
-- an `int`.
pub record IsFieldAt (i : ℕ) (field : Field) : Type 0 where
  pub short : length field.name ≤ max_name
  pub placed : field.name ≢ [] → field.number ≡ i
  pub cut : field.value < 2 ^ 32

abbrev pub AreFieldsFrom : ℕ → Control → Type 0
AreFieldsFrom i [] = Unit
AreFieldsFrom i (field ∷ fields) = IsFieldAt i field × AreFieldsFrom (suc i) fields

pub record IsControl (control : Control) : Type 0 where
  pub size : length control ≡ max_field
  pub fields : AreFieldsFrom 0 control

modify_at-AreFieldsFrom :
    (i number : ℕ) (f : Field → Field) (control : Control)
    → ((field : Field) → IsFieldAt (i + number) field → IsFieldAt (i + number) (f field))
    → AreFieldsFrom i control
    → AreFieldsFrom i (modify_at number f control)
unfolding modify_at
modify_at-AreFieldsFrom i number f [] h a = tt
modify_at-AreFieldsFrom i zero f (field ∷ fields) h (a, as_) = (
  subst (λ k. IsFieldAt k (f field)) {x = i + 0} {y = i} (omega arith)
      (h field (subst (λ k. IsFieldAt k field) {x = i} {y = i + 0} (omega arith) a)),
  as_,
)
modify_at-AreFieldsFrom i (suc number) f (field ∷ fields) h (a, as_) = (
  a,
  modify_at-AreFieldsFrom (suc i) number f fields
      (subst (λ k. (g : Field) → IsFieldAt k g → IsFieldAt k (f g)) {x = i + suc number}
        {y = suc i + number} (omega arith) h)
      as_,
)

length-modify_at :
    (number : ℕ) (f : Field → Field) (control : Control)
    → length (modify_at number f control) ≡ length control
unfolding modify_at
length-modify_at number f [] = refl
length-modify_at zero f (field ∷ fields) = refl
length-modify_at (suc number) f (field ∷ fields) = ap suc (length-modify_at number f fields)

modify_at-IsControl :
    (number : ℕ) (f : Field → Field) (control : Control)
    → ((field : Field) → IsFieldAt number field → IsFieldAt number (f field))
    → IsControl control
    → IsControl (modify_at number f control)
modify_at-IsControl number f control h c = record {
  size = length-modify_at number f control ∙ c.size;
  fields =
      modify_at-AreFieldsFrom 0 number f control
        (subst (λ k. (g : Field) → IsFieldAt k g → IsFieldAt k (f g)) {x = number} {y = 0 + number}
          (omega arith) h)
        c.fields;
}

some-inj : (a b : Control) → some a ≡ some b → a ≡ b
some-inj a b e = ap (λ o. elim o [ none ↦ a | some c ↦ c ]) e

-- What an operation that can fail gives is good where it gives something.
pub record Keeps (o : Option Control) : Type 0 where
  pub kept : (control : Control) → o ≡ some control → IsControl control

Keeps-none : Keeps none
Keeps-none = record { kept = λ control e. absurd (ground (arith, e)) }

Keeps-some : (control : Control) → IsControl control → Keeps (some control)
Keeps-some control c = record { kept = λ d e. subst IsControl (some-inj control d e) c }

if-Keeps :
    (b : Bool) (o p : Option Control)
    → (b ≡ true → Keeps o)
    → (b ≡ false → Keeps p)
    → Keeps (if b then o else p)
if-Keeps true o p h k = h refl
if-Keeps false o p h k = k refl

pub kongou_field_init-Keeps :
    (control : Control) (number : ℕ) (name : Text) (range_min range_max dflt : ℕ)
    → IsControl control
    → Keeps (kongou_field_init control number name range_min range_max dflt)
unfolding kongou_field_init init_field
kongou_field_init-Keeps control number name range_min range_max dflt c =
    let f = init_field number name range_min range_max dflt in
    if-Keeps (leb max_field number) none (some (modify_at number f control)) (λ e. Keeps-none)
      λ e. Keeps-some (modify_at number f control) (
        modify_at-IsControl number f control
          (λ field a. record {
            short = omega (arith, length-take max_name name);
            placed = λ p. refl;
            cut = a.cut;
          })
          c)

pub kongou_field_got-Keeps :
    (control : Control) (number value : ℕ)
    → value < 2 ^ 32
    → IsControl control
    → Keeps (kongou_field_got control number value)
unfolding kongou_field_got set_value
kongou_field_got-Keeps control number value h c =
    if-Keeps (leb max_field number) none (some (modify_at number (set_value value) control))
      (λ e. Keeps-none)
      λ e. Keeps-some (modify_at number (set_value value) control) (
        modify_at-IsControl number (set_value value) control
          (λ field a. record { short = a.short; placed = a.placed; cut = h }) c)

-- The second number that `sscanf` gives is an `int`.
abbrev GivesInt : Option (ℕ × ℕ) → Type 0
GivesInt none = Unit
GivesInt (some (number, value)) = value < 2 ^ 32

no_fields-AreFieldsFrom : (i n : ℕ) → AreFieldsFrom i (no_fields n)
unfolding no_fields no_field
no_fields-AreFieldsFrom i zero = tt
no_fields-AreFieldsFrom i (suc n) = (
  record { short = omega arith; placed = λ h. absurd (h refl); cut = omega arith },
  no_fields-AreFieldsFrom (suc i) n,
)

length-no_fields : (n : ℕ) → length (no_fields n) ≡ n
unfolding no_fields
length-no_fields zero = refl
length-no_fields (suc n) = ap suc (length-no_fields n)

pub no_fields-IsControl : IsControl (no_fields max_field)
no_fields-IsControl = record {
  size = length-no_fields max_field;
  fields = no_fields-AreFieldsFrom 0 max_field;
}
