-- ===== src/Params/Parse/Loop.antt =====
-- When the loop of `params_new_parse_delim` (src/params.c) ends.
use sighttpd.Prelude.{
  ℕ, suc, zero, ◌+◌, ◌-◌, ◌≤◌, ◌<◌, ◌⊎◌, Text, none, some, [], ◌∷◌, ◌≡◌, refl, arith, take, drop,
  length, strcspn, strspn, strcspn_le, length-drop, min,
}
use sighttpd.Params.{Params, append}
use sighttpd.Params.Parse.{item_value, after_item, parse_delim}

-- An item from which the loop does not move on: it is not empty, and has no name or no value
-- delimiter behind its name.
abbrev pub IsStuck : Text → Text → Text → Type 0
IsStuck val_delim end_delim key =
    (0 < strcspn key end_delim)
    × ((strcspn key val_delim ≡ 0) ⊎ (strcspn key end_delim ≤ strcspn key val_delim))

pub strcspn-take : (n : ℕ) (s set : Text) → strcspn (take n s) set ≡ min n (strcspn s set)
unfolding strcspn
strcspn-take zero s set = omega arith
strcspn-take (suc n) [] set = omega arith
strcspn-take (suc n) (c ∷ s) set = ground (arith, strcspn-take n s set)

IsStuck-take :
    (val_delim end_delim key : Text)
    → IsStuck val_delim end_delim key
    → IsStuck val_delim end_delim (take (strcspn key end_delim) key)
IsStuck-take val_delim end_delim key (h, k) =
    let end = strcspn key end_delim in
    ground (arith, strcspn-take end key end_delim, strcspn-take end key val_delim)

-- An item with no value delimiter, or with nothing before it, keeps the loop of
-- `params_new_parse_delim` running forever: no amount of fuel ends it.
pub parse_delim-diverges :
    (fuel : ℕ) (val_delim end_delim key : Text) (ps : Params)
    → IsStuck val_delim end_delim key
    → parse_delim fuel val_delim end_delim key ps ≡ none
unfolding parse_delim
parse_delim-diverges zero val_delim end_delim key ps h = refl
parse_delim-diverges (suc fuel) val_delim end_delim key ps h = ground (
  arith,
  parse_delim-diverges fuel val_delim end_delim (take (strcspn key end_delim) key) ps
      (IsStuck-take val_delim end_delim key h),
)

length-after_item :
    (end_delim key : Text) (end : ℕ) → length (after_item end_delim key end) ≤ length key - end
unfolding after_item
length-after_item end_delim key end =
    omega (arith, length-drop (end + strspn (drop end key) end_delim) key)

-- One round for each byte and one more are enough for the loop of `params_new_parse_delim`: with
-- any two such amounts of fuel it comes to the same, so that it runs forever if it is not done by
-- then.
pub parse_delim-fuel :
    (fuel more : ℕ) (val_delim end_delim key : Text) (ps : Params)
    → length key < fuel
    → length key < more
    → parse_delim fuel val_delim end_delim key ps ≡ parse_delim more val_delim end_delim key ps
unfolding parse_delim
parse_delim-fuel zero more val_delim end_delim key ps h k = absurd (omega arith)
parse_delim-fuel (suc fuel) zero val_delim end_delim key ps h k = absurd (omega arith)
parse_delim-fuel (suc fuel) (suc more) val_delim end_delim key ps h k =
    let val = strcspn key val_delim in
    let end = strcspn key end_delim in
    ground (
      arith,
      strcspn_le key end_delim,
      length-after_item end_delim key end,
      parse_delim-fuel fuel more val_delim end_delim (after_item end_delim key end)
          (append ps (some (take val key)) (some (item_value val_delim key val end))),
      IsStuck-take val_delim end_delim key,
      parse_delim-diverges fuel val_delim end_delim (take end key) ps,
      parse_delim-diverges more val_delim end_delim (take end key) ps,
    )
