-- ===== src/Params/Parse.antt =====
-- `params_new_parse` of src/params.c for query strings, and its loop over `key=value` items. The
-- state of the loop is the C string that `key` points to: what the loop writes behind it is never
-- read again.
pub mod Loop
pub mod RoundTrip
use sighttpd.Prelude.{
  ℕ, suc, zero, ◌+◌, ◌-◌, Text, Option, none, some, List, [], if◌then◌else◌, ◌&&◌, ◌==◌, ltb, codes,
  take, drop, strcspn, strspn,
}
use sighttpd.Params.{Params, append}

-- Where the value of the item starts, behind the delimiters, and its text up to `end`.
unfoldable pub item_value : Text → Text → ℕ → ℕ → Text
item_value val_delim key val end =
    let start = val + strspn (drop val key) val_delim in take (end - start) (drop start key)

-- The text behind the item and its end delimiters.
unfoldable pub after_item : Text → Text → ℕ → Text
after_item end_delim key end = drop (end + strspn (drop end key) end_delim) key

-- The loop of `params_new_parse_delim`; `none` is a loop that the fuel does not end. `end` is NULL
-- where no byte stands before the first end delimiter, and `val` is NULL where no byte stands
-- before the first value delimiter or where that is behind `end`. With `val` NULL the item is cut
-- at `end`, and `key` is not moved.
unfoldable pub parse_delim : ℕ → Text → Text → Text → Params → Option Params
parse_delim zero val_delim end_delim key ps = none
parse_delim (suc fuel) val_delim end_delim key ps =
    let val = strcspn key val_delim in
    let end = strcspn key end_delim in
    let next =
      parse_delim fuel val_delim end_delim (after_item end_delim key end)
        (append ps (some (take val key)) (some (item_value val_delim key val end))) in
    let same = parse_delim fuel val_delim end_delim (take end key) ps in
    if end == 0 then some ps else if ltb 0 val && ltb val end then next else same

-- `params_new_parse_query`: a copy of `len` bytes, cut at `=` and `&`.
unfoldable pub parse_query : ℕ → Text → ℕ → Option Params
parse_query fuel query_string len =
    parse_delim fuel (codes "=") (codes "&") (take len query_string) []
