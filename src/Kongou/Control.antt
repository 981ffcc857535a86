-- ===== src/Kongou/Control.antt =====
-- Which commands `kongou_body` of src/kongou.c runs.
use sighttpd.Prelude.{
  ℕ, zero, suc, ◌+◌, ◌<◌, ◌≤◌, ◌^◌, ◌≢◌, ◌≡◌, refl, ap, subst, sym, ◌∙◌, Text, false, Option, none,
  some, [], ◌∷◌, arith, length, All, ◌==◌, Bool-cases, inl, inr, text_eq, text_eq_sound, int_lt,
}
use sighttpd.Params.{Params}
use sighttpd.Request.{Request}
use sighttpd.Kongou.{Field, Control, max_name, name_text, kongou_get_field}
use sighttpd.Kongou.Fields.{AreFieldsFrom}
use sighttpd.Kongou.Page.{Out, set_command}

-- `control->fields[i]`
unfoldable pub field_at : Control → ℕ → Option Field
field_at [] i = none
field_at (field ∷ fields) zero = some field
field_at (field ∷ fields) (suc i) = field_at fields i

-- A command that sets a named field of the array, by the number of its place, to an `int` in its range that
-- is not the one it has, which is an `int` too.
pub record IsAllowed (control : Control) (cmd : Text) : Type 0 where
  pub field : Field
  pub val : ℕ
  pub place : field_at control field.number ≡ some field
  pub named : field.name ≢ []
  pub val_cut : val < 2 ^ 32
  pub value_cut : field.value < 2 ^ 32
  pub low : int_lt val field.range_min ≡ false
  pub high : int_lt field.range_max val ≡ false
  pub changed : (val == field.value) ≡ false
  pub sets : cmd ≡ set_command field val

some-inj : {A : Type 0} (a b : A) → some a ≡ some b → a ≡ b
some-inj a b e = ap (λ o. elim o [ none ↦ a | some c ↦ c ]) e

name_text_nil : (field : Field) → field.name ≡ [] → name_text field ≡ []
unfolding name_text
name_text_nil field e = ground (arith, e)

-- The field that `kongou_get_field` finds has the name and is at the place of its number.
pub kongou_get_field_lem :
    (i : ℕ) (control : Control) (key : Text) (field : Field)
    → AreFieldsFrom i control
    → kongou_get_field control key ≡ some field
    → (key ≡ name_text field)
      × (length field.name ≤ max_name)
      × (field.value < 2 ^ 32)
      × (key ≢ []
          → (field.name ≢ [])
            × (k : ℕ) × (field.number ≡ i + k)
            × (field_at control k ≡ some field))
unfolding kongou_get_field field_at
kongou_get_field_lem i [] key field a e = absurd (ground (arith, e))
kongou_get_field_lem i (f ∷ fields) key field (a, b) e =
    elim (Bool-cases (text_eq key (name_text f))) [
      | inl q ↦
          let same : f ≡ field = some-inj f field (sym (rw q refl) ∙ e) in
          let name : key ≡ name_text f = text_eq_sound key (name_text f) q in
          let named : key ≢ [] → f.name ≢ [] = λ h z. h (name ∙ name_text_nil f z) in
          (
            name ∙ ap name_text same,
            subst (λ g. length g.name ≤ max_name) same a.short,
            subst (λ g. g.value < 2 ^ 32) same a.cut,
            λ h. (
              subst (λ g. g.name ≢ []) same (named h),
              0,
              sym (ap (λ g. g.number) same) ∙ (a.placed (named h) ∙ omega arith),
              ap (λ g. some g) same,
            ),
          )
      | inr q ↦
          let (name, short, cut, found) =
            kongou_get_field_lem (suc i) fields key field b (sym (rw q refl) ∙ e) in
          (
            name,
            short,
            cut,
            λ h. let (named, k, n, p) = found h in (named, suc k, n ∙ omega arith, p),
          )
    ]

abbrev AllowsAll : Control → Out → Type 0
AllowsAll control out = All (IsAllowed control) out.commands

-- The keys that a query gives are not empty.
abbrev AreNamed : Params → Type 0
AreNamed = All (λ p. p.key ≢ [])
