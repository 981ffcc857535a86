-- ===== src/Params/Parse/RoundTrip.antt =====
-- What `params_snprint` of src/params.c prints, `params_new_parse` reads back.
use sighttpd.Prelude.{
  ℕ, suc, zero, ◌+◌, ◌-◌, ◌≤◌, ◌<◌, ◌≢◌, Text, none, some, [], ◌∷◌, ◌++◌, ◌≡◌, refl, ◌∙◌, ap, sym,
  arith, true, false, one_of, take, drop, length, strcspn, strspn, All, All-append, Avoids,
  StartsOutside, StartsInside, strcspn-append, strspn-append, take-length-append,
  drop-length-append, drop-append, length-append, append_assoc, append-nil, codes, strcase_eq,
  strcase_eq_symm, min, take_all, ==_ne, lt→ltb, take_congr, ◌>>=◌,
}
use sighttpd.Params.{Param, Params, append, append_text, get}
use sighttpd.Params.Unique.{IsUnique}
use sighttpd.Params.Print.{query, line, text, printed, snprint, snprint-query, int_end}
use sighttpd.Params.Parse.{item_value, after_item, parse_delim, parse_query}

-- A key or value that the delimiters do not cut.
pub record IsItem (val_delim end_delim : Text) (p : Param) : Type 0 where
  pub named : p.key ≢ []
  pub key_val : Avoids val_delim p.key
  pub key_end : Avoids end_delim p.key
  pub value_val : StartsOutside val_delim p.value
  pub value_end : Avoids end_delim p.value

length_pos : (t : Text) → t ≢ [] → 0 < length t
length_pos [] h = absurd (h refl)
length_pos (x ∷ t) h = omega arith

-- One item between delimiters `c ∷ d` and `e`.
abbrev pub item : Text → Text → Param → Text → Text
item d e p rest = p.key ++ (d ++ (p.value ++ (e ++ rest)))

StartsOutside-append :
    (set a b : Text) → StartsOutside set a → StartsOutside set b → StartsOutside set (a ++ b)
StartsOutside-append set [] b h k = k
StartsOutside-append set (c ∷ a) b h k = h

module _ (val_delim end_delim : Text) where
  item_value-append :
      (k d v r : Text)
      → All (λ x. one_of val_delim x ≡ true) d
      → StartsOutside val_delim (v ++ r)
      → item_value val_delim (k ++ (d ++ (v ++ r))) (length k) (length ((k ++ d) ++ v)) ≡ v
  unfolding item_value
  item_value-append k d v r inside out =
      let text = k ++ (d ++ (v ++ r)) in
      let span : strspn (drop (length k) text) val_delim ≡ length d =
        ap (λ t. strspn t val_delim) (drop-length-append k (d ++ (v ++ r)))
        ∙ strspn-append d (v ++ r) val_delim inside out in
      let rest : drop (length k + length d) text ≡ v ++ r =
        drop-append k (d ++ (v ++ r)) (length d) ∙ drop-length-append d (v ++ r) in
      rw (span, rest)
        (take_congr _ (length v) (v ++ r)
            (omega (arith, length-append (k ++ d) v, length-append k d))
          ∙ take-length-append v r)

  after_item-append :
      (a e r : Text)
      → All (λ x. one_of end_delim x ≡ true) e
      → StartsOutside end_delim r
      → after_item end_delim (a ++ (e ++ r)) (length a) ≡ r
  unfolding after_item
  after_item-append a e r ends out =
      let span : strspn (drop (length a) (a ++ (e ++ r))) end_delim ≡ length e =
        ap (λ t. strspn t end_delim) (drop-length-append a (e ++ r))
        ∙ strspn-append e r end_delim ends out in
      rw span (drop-append a (e ++ r) (length e) ∙ drop-length-append e r)

  parse_delim-item :
      (fuel : ℕ) (c : ℕ) (d : Text) (p : Param) (e rest : Text) (ps : Params)
      → IsItem val_delim end_delim p
      → All (λ x. one_of val_delim x ≡ true) (c ∷ d)
      → Avoids end_delim (c ∷ d)
      → All (λ x. one_of end_delim x ≡ true) e
      → StartsInside end_delim (e ++ rest)
      → StartsOutside val_delim (e ++ rest)
      → StartsOutside end_delim rest
      → parse_delim (suc fuel) val_delim end_delim (item (c ∷ d) e p rest) ps
        ≡ parse_delim fuel val_delim end_delim rest (append ps (some p.key) (some p.value))
  unfolding parse_delim
  parse_delim-item fuel c d p e rest ps h inside outside ends inE outV outE =
      let k = p.key in
      let v = p.value in
      let text = item (c ∷ d) e p rest in
      let kd = k ++ (c ∷ d) in
      let kdv = kd ++ v in
      let split : text ≡ kdv ++ (e ++ rest) =
        sym (append_assoc k (c ∷ d) (v ++ (e ++ rest))) ∙ sym (append_assoc kd v (e ++ rest)) in
      let val : strcspn text val_delim ≡ length k =
        strcspn-append k _ val_delim h.key_val inside.0 in
      let end : strcspn text end_delim ≡ length kdv =
        ap (λ t. strcspn t end_delim) split
        ∙ strcspn-append kdv (e ++ rest) end_delim
            (All-append _ kd v (All-append _ k (c ∷ d) h.key_end outside) h.value_end) inE in
      let value : item_value val_delim text (length k) (length kdv) ≡ v =
        item_value-append k (c ∷ d) v (e ++ rest) inside
          (StartsOutside-append val_delim v (e ++ rest) h.value_val outV) in
      let after : after_item end_delim text (length kdv) ≡ rest =
        ap (λ t. after_item end_delim t (length kdv)) split
        ∙ after_item-append kdv e rest ends outE in
      let name : take (length k) text ≡ k = take-length-append k _ in
      let long : length kdv ≡ length k + suc (length d) + length v =
        omega (arith, length-append kd v, length-append k (c ∷ d)) in
      let some_key : 0 < length k = length_pos k h.named in
      rw (val, end, value, after, name)
        (rw
          (
            ==_ne (length kdv) 0 (omega arith),
            lt→ltb 0 (length k) some_key,
            lt→ltb (length k) (length kdv) (omega arith),
          )
          refl)

get-ne :
    (acc : Params) (p : Param) (ps : Params) (k : Text)
    → get (acc ++ p ∷ ps) k ≡ none
    → strcase_eq p.key k ≡ false
unfolding get
get-ne [] p ps k h = ground arith
get-ne (a ∷ acc) p ps k h = ground (arith, get-ne acc p ps k)

append_text-fresh :
    (acc : Params) (p : Param) (ps : Params)
    → IsUnique (acc ++ p ∷ ps)
    → append_text acc p.key p.value ≡ acc ++ p ∷ []
unfolding append_text
append_text-fresh [] p ps h = refl
append_text-fresh (a ∷ acc) p ps (ha, h) =
    rw (strcase_eq_symm a.key p.key, get-ne acc p ps a.key ha)
      (ap (λ t. a ∷ t) (append_text-fresh acc p ps h))

StartsOutside-key :
    (key b : Text)
    → Avoids (codes "&") key
    → StartsOutside (codes "&") b
    → StartsOutside (codes "&") (key ++ b)
StartsOutside-key [] b h k = k
StartsOutside-key (c ∷ key) b h k = h.0

abbrev pub IsQueryItem : Param → Type 0
IsQueryItem = IsItem (codes "=") (codes "&")

-- The query string of a set, without the last `&`.
abbrev pub items : Params → Text
items [] = []
items (p ∷ []) = item (codes "=") [] p []
items (p ∷ q ∷ ps) = item (codes "=") (codes "&") p (items (q ∷ ps))

printed-items : (p : Param) (ps : Params) → printed query (p ∷ ps) ≡ items (p ∷ ps) ++ codes "&"
unfolding printed line
printed-items p [] = simp (append_assoc, append-nil)
printed-items p (q ∷ ps) = rw (printed-items q ps) (simp (append_assoc))

StartsOutside-items :
    (q : Param) (ps : Params) → IsQueryItem q → StartsOutside (codes "&") (items (q ∷ ps))
StartsOutside-items q [] h = StartsOutside-key q.key (codes "=" ++ (q.value ++ [])) h.key_end refl
StartsOutside-items q (r ∷ ps) h = StartsOutside-key q.key _ h.key_end refl

parse_delim-nil :
    (fuel : ℕ) (val_delim end_delim : Text) (ps : Params)
    → parse_delim (suc fuel) val_delim end_delim [] ps ≡ some ps
unfolding parse_delim strcspn
parse_delim-nil fuel val_delim end_delim ps = refl

parse_delim-items :
    (fuel : ℕ) (p : Param) (ps acc : Params)
    → All IsQueryItem (p ∷ ps)
    → IsUnique (acc ++ p ∷ ps)
    → length ps + 1 < fuel
    → parse_delim fuel (codes "=") (codes "&") (items (p ∷ ps)) acc ≡ some (acc ++ p ∷ ps)
unfolding append
parse_delim-items zero p ps acc h u f = absurd (omega arith)
parse_delim-items (suc zero) p ps acc h u f = absurd (omega arith)
parse_delim-items (suc (suc fuel)) p [] acc h u f =
    parse_delim-item (codes "=") (codes "&") (suc fuel) b'=' [] p [] [] acc h.0 (refl, tt)
      (refl, tt) tt tt tt tt
    ∙ parse_delim-nil fuel (codes "=") (codes "&") _
    ∙ ap some (append_text-fresh acc p [] u)
parse_delim-items (suc (suc fuel)) p (q ∷ ps) acc h u f =
    parse_delim-item (codes "=") (codes "&") (suc fuel) b'=' [] p (codes "&") (items (q ∷ ps)) acc
      h.0 (refl, tt) (refl, tt) (refl, tt) refl refl (StartsOutside-items q ps h.1.0)
    ∙ rw (append_text-fresh acc p (q ∷ ps) u) (
        parse_delim-items (suc fuel) q ps (acc ++ p ∷ []) h.1
          (rw (append_assoc acc (p ∷ []) (q ∷ ps)) u) (omega arith)
        ∙ ap some (append_assoc acc (p ∷ []) (q ∷ ps)))

length-items : (p : Param) (ps : Params) → length ps < length (items (p ∷ ps))
length-items p [] = simp length-append (omega arith)
length-items p (q ∷ ps) = simp length-append (omega (arith, length-items q ps))

snprint-items :
    (n : ℕ) (p : Param) (ps : Params)
    → length (printed query (p ∷ ps)) ≤ n
    → length (printed query (p ∷ ps)) < int_end
    → snprint n (p ∷ ps) query ≡ some (some (items (p ∷ ps)), length (items (p ∷ ps)))
snprint-items n p ps fits small =
    let full = printed query (p ∷ ps) in
    let its = items (p ∷ ps) in
    let long : length full ≡ length its + 1 =
      ap length (printed-items p ps) ∙ length-append its (codes "&") in
    let some_room : 0 < n = omega arith in
    let cut : take (min (length full - 1) (n - 1)) full ≡ its =
      take_congr _ (length its) full (omega arith)
      ∙ ap (take (length its)) (printed-items p ps)
      ∙ take-length-append its (codes "&") in
    let count : length full - 1 ≡ length its = omega arith in
    snprint-query n p ps some_room small
    ∙ rw (==_ne (length full) (n + 1) (omega arith), cut, count) refl

-- A query string that `params_snprint` prints into a buffer that holds it, and that an `int` can count, is read back by
-- `params_new_parse` as the same parameters in the same order, if the keys are unique and not
-- empty, keys and values hold no `&`, no key holds `=` and no value starts with `=`.
pub parse_query-snprint :
    (n : ℕ) (p : Param) (ps : Params)
    → All IsQueryItem (p ∷ ps)
    → IsUnique (p ∷ ps)
    → length (printed query (p ∷ ps)) ≤ n
    → length (printed query (p ∷ ps)) < int_end
    → (snprint n (p ∷ ps) query >>= λ r. parse_query (suc (suc (length (text r.0)))) (text r.0) r.1)
      ≡ some (p ∷ ps)
unfolding parse_query
parse_query-snprint n p ps h u fits small = rw (snprint-items n p ps fits small) (
    rw (take_all (length (items (p ∷ ps))) (items (p ∷ ps)) (omega arith))
      (parse_delim-items _ p ps [] h u (omega (arith, length-items p ps))))
