-- ===== src/Params/Headers/Canon.antt =====
-- `headers_canonicalize` of src/params.c: its loop ends, and when it leaves its block.
use sighttpd.Prelude.{
  ℕ, suc, zero, ◌+◌, ◌≤◌, ◌<◌, ◌≢◌, Text, [], ◌∷◌, ◌++◌, ◌≡◌, arith, true, false, codes, drop,
  length, strcspn, strspn, length-drop, one_of, Bool-cases, inl, inr,
}
use sighttpd.Params.Print.{crlf}
use sighttpd.Params.Headers.{
  Canonical, spht, lws, skip_word, skip_spht, word_out, finish, canonicalize, headers_canonicalize,
  canonical,
}

strcspn_pos : (x : ℕ) (s set : Text) → one_of set x ≡ false → 0 < strcspn (x ∷ s) set
unfolding strcspn
strcspn_pos x s set h = ground arith

strcspn_zero : (x : ℕ) (s set : Text) → one_of set x ≡ true → strcspn (x ∷ s) set ≡ 0
unfolding strcspn
strcspn_zero x s set h = ground arith

strspn_pos : (x : ℕ) (s set : Text) → one_of set x ≡ true → 0 < strspn (x ∷ s) set
unfolding strspn
strspn_pos x s set h = ground arith

strspn_zero : (x : ℕ) (s set : Text) → one_of set x ≡ false → strspn (x ∷ s) set ≡ 0
unfolding strspn
strspn_zero x s set h = ground arith

one_of-lws : (x : ℕ) → one_of lws x ≡ true → one_of spht x ≡ false → one_of crlf x ≡ true
one_of-lws x h k = ground arith

-- The three spans of a round read at least one byte of a text that is not empty.
progress :
    (x : ℕ) (s : Text)
    → let eol = skip_spht (skip_word (x ∷ s)) in length (drop (strspn eol crlf) eol) ≤ length s
progress x s = elim (Bool-cases (one_of lws x)) [
  | inr word ↦
      let W = strcspn (x ∷ s) lws in
      let A = strspn (drop W (x ∷ s)) spht in
      let B = strspn (drop A (drop W (x ∷ s))) crlf in
      omega (
        arith,
        strcspn_pos x s lws word,
        length-drop B (drop A (drop W (x ∷ s))),
        length-drop A (drop W (x ∷ s)),
        length-drop W (x ∷ s),
      )
  | inl white ↦ rw (strcspn_zero x s lws white) (elim (Bool-cases (one_of spht x)) [
    | inl blank ↦
        let A = strspn (x ∷ s) spht in
        let B = strspn (drop A (x ∷ s)) crlf in
        omega
          (arith, strspn_pos x s spht blank, length-drop B (drop A (x ∷ s)), length-drop A (x ∷ s))
    | inr eol ↦ rw (strspn_zero x s spht eol) (
        omega (
          arith,
          strspn_pos x s crlf (one_of-lws x white eol),
          length-drop (strspn (x ∷ s) crlf) (x ∷ s),
        ))
  ])
]

finish-ne-running :
    (size : ℕ) (n : Text) (r : Canonical)
    → r ≢ Canonical.running
    → finish size n r ≢ Canonical.running
unfolding finish
finish-ne-running size n r h = ground arith

canonicalize-ends :
    (fuel size : ℕ) (c n : Text) → length c < fuel → canonicalize fuel size c n ≢ Canonical.running
unfolding canonicalize
canonicalize-ends zero size c n h = absurd (omega arith)
canonicalize-ends (suc fuel) size [] n h = finish-ne-running size n _ (cc)
canonicalize-ends (suc fuel) size (x ∷ s) n h =
    let n' = n ++ word_out (x ∷ s) in
    let eol = skip_spht (skip_word (x ∷ s)) in
    let next = drop (strspn eol crlf) eol in
    ground (
      arith,
      progress x s,
      length-drop (strspn eol crlf) eol,
      length-drop (strspn next spht) next,
      finish-ne-running size n' (canonical n'),
      canonicalize-ends fuel size eol n',
      canonicalize-ends fuel size (skip_spht next) (n' ++ codes " "),
      canonicalize-ends fuel size next (n' ++ crlf),
    )

-- The loop of `headers_canonicalize` ends on every input: a round for each byte and one more are
-- enough.
pub headers_canonicalize-ends :
    (input : Text) (fuel : ℕ)
    → length input < fuel
    → headers_canonicalize fuel input ≢ Canonical.running
unfolding headers_canonicalize
headers_canonicalize-ends input fuel h = canonicalize-ends fuel (length input + 1) input [] h
