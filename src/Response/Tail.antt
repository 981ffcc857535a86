-- ===== src/Response/Tail.antt =====
-- What stands behind the empty line of the headers is not read by src/params.c.
use sighttpd.Prelude.{
  ℕ, suc, zero, ◌+◌, ◌≤◌, ◌<◌, ◌≢◌, ◌⊎◌, Text, true, false, [], ◌∷◌, ◌++◌, ◌≡◌, refl, ◌∙◌, sym, ap,
  ap₂, arith, codes, take, drop, length, strcspn, strspn, length-drop, Bool-cases, inl, inr, ltb,
  if◌then◌else◌, ◌==◌, ==_ne, take_all, ltb→lt, ltb→le,
}
use sighttpd.Params.Print.{crlf}
use sighttpd.Params.Headers.{
  Canonical, canonical, count, spht, lws, skip_word, skip_spht, word_out, finish, ends_headers,
  canonicalize,
}
use sighttpd.Response.Spans.{
  strcspn-longer, strspn-longer, strspn_le, take-longer, drop-longer, drop_all,
}

count-append : (d : ℕ) (a b : Text) → count d (a ++ b) ≡ count d a + count d b
unfolding count
count-append d [] b = omega arith
count-append d (x ∷ a) b = omega (arith, count-append d a b)

ends_headers-longer : (a b : Text) → ends_headers a ≡ true → ends_headers (a ++ b) ≡ true
unfolding ends_headers
ends_headers-longer a b h = ground (arith, count-append 13 a b, count-append 10 a b)

-- A span of the whole text goes on behind it.
strspn-whole :
    (a b set : Text) → strspn a set ≡ length a → strspn (a ++ b) set ≡ length a + strspn b set
unfolding strspn
strspn-whole [] b set h = omega arith
strspn-whole (c ∷ a) b set h = ground (arith, strspn-whole a b set)

take-whole : (a b : Text) (k : ℕ) → take (length a + k) (a ++ b) ≡ a ++ take k b
take-whole [] b k = ap (λ i. take i b) {x = 0 + k} {y = k} (omega arith)
take-whole (x ∷ a) b k =
    ap (λ i. take i (x ∷ (a ++ b))) {x = suc (length a) + k} {y = suc (length a + k)} (omega arith)
    ∙ ap (λ t. x ∷ t) (take-whole a b k)

-- A round behind its word: `eol` is the text from the line end on.
round_end : (fuel size : ℕ) (n eol : Text) → Canonical
round_end fuel size n eol =
    let span = strspn eol crlf in
    let next = drop span eol in
    if span == 0
    then canonicalize fuel size eol n
    else if ends_headers (take span eol)
    then finish size n (canonical n)
    else if ltb 0 (strspn next spht)
    then canonicalize fuel size (skip_spht next) (n ++ codes " ")
    else canonicalize fuel size next (n ++ crlf)

canonicalize-round_end :
    (fuel size x : ℕ) (s n : Text)
    → canonicalize (suc fuel) size (x ∷ s) n
      ≡ round_end fuel size (n ++ word_out (x ∷ s)) (skip_spht (skip_word (x ∷ s)))
unfolding canonicalize round_end
canonicalize-round_end fuel size x s n = refl

-- The loop ends without a text where it comes to the end of its input.
canonicalize_nil : (fuel size : ℕ) (n r : Text) → canonicalize fuel size [] n ≢ canonical r
unfolding canonicalize finish
canonicalize_nil zero size n r e = absurd (ground (arith, e))
canonicalize_nil (suc fuel) size n r e = absurd (ground (arith, e))

canonicalize_no_fuel : (size : ℕ) (c n r : Text) → canonicalize zero size c n ≢ canonical r
unfolding canonicalize
canonicalize_no_fuel size c n r e = absurd (ground (arith, e))

finish-larger :
    (size more : ℕ) (n r : Text)
    → size ≤ more
    → finish size n (canonical n) ≡ canonical r
    → finish more n (canonical n) ≡ canonical r
unfolding finish
finish-larger size more n r h e = ground arith

nil-cases : (t : Text) → (t ≡ []) ⊎ (0 < length t)
nil-cases [] = inl refl
nil-cases (x ∷ t) = inr (omega arith)

skip_spht-longer : (a b : Text) → 0 < length (skip_spht a) → skip_spht (a ++ b) ≡ skip_spht a ++ b
skip_spht-longer a b h =
    let few : strspn a spht < length a = omega (arith, length-drop (strspn a spht) a) in
    ap (λ k. drop k (a ++ b)) (strspn-longer a b spht few)
    ∙ drop-longer (strspn a spht) a b (omega arith)

skip_word-longer : (a b : Text) → 0 < length (skip_word a) → skip_word (a ++ b) ≡ skip_word a ++ b
skip_word-longer a b h =
    let few : strcspn a lws < length a = omega (arith, length-drop (strcspn a lws) a) in
    ap (λ k. drop k (a ++ b)) (strcspn-longer a b lws few)
    ∙ drop-longer (strcspn a lws) a b (omega arith)

spht-longer : (a b : Text) → 0 < length a → ltb 0 (strspn (a ++ b) spht) ≡ ltb 0 (strspn a spht)
unfolding strspn
spht-longer [] b h = absurd (omega arith)
spht-longer (c ∷ a) b h = ground arith

abbrev Continues : ℕ → Text → Type 0
Continues fuel junk =
    (size more : ℕ) (c n r : Text)
    → size ≤ more
    → canonicalize fuel size c n ≡ canonical r
    → canonicalize fuel more (c ++ junk) n ≡ canonical r

-- By the three tests of a round, and what each is for the longer text.
module _ (fuel : ℕ) (junk : Text) (go : Continues fuel junk) (size more : ℕ) (n r : Text)
    (le : size ≤ more) where
  folded-longer :
      (next : Text)
      → canonicalize fuel size (skip_spht next) (n ++ codes " ") ≡ canonical r
      → canonicalize fuel more (skip_spht (next ++ junk)) (n ++ codes " ") ≡ canonical r
  folded-longer next h = elim (nil-cases (skip_spht next)) [
    | inl e ↦ absurd (
        canonicalize_nil fuel size (n ++ codes " ") r
          (ap (λ t. canonicalize fuel size t (n ++ codes " ")) (sym e) ∙ h))
    | inr p ↦
        ap (λ t. canonicalize fuel more t (n ++ codes " ")) (skip_spht-longer next junk p)
        ∙ go size more (skip_spht next) (n ++ codes " ") r le h
  ]

  inside-longer :
      (eol : Text)
      → strspn eol crlf < length eol
      → round_end fuel size n eol ≡ canonical r
      → round_end fuel more n (eol ++ junk) ≡ canonical r
  unfolding round_end
  inside-longer eol few h =
      let span = strspn eol crlf in
      let next = drop span eol in
      let some_next : 0 < length next = omega (arith, length-drop span eol) in
      rw
        (
          strspn-longer eol junk crlf few,
          drop-longer span eol junk (omega arith),
          take-longer span eol junk (omega arith),
          spht-longer next junk some_next,
        )
        (elim (Bool-cases (span == 0)) [
          | inl e ↦ rw e (go size more eol n r le (rw e at h))
          | inr e ↦ rw e (elim (Bool-cases (ends_headers (take span eol))) [
            | inl f ↦ rw f (finish-larger size more n r le (rw (e, f) at h))
            | inr f ↦ rw f (elim (Bool-cases (ltb 0 (strspn next spht))) [
              | inl g ↦ rw g (folded-longer next (rw (e, f, g) at h))
              | inr g ↦ rw g (go size more next (n ++ crlf) r le (rw (e, f, g) at h))
            ])
          ])
        ])

  whole-longer :
      (eol : Text)
      → 0 < length eol
      → strspn eol crlf ≡ length eol
      → round_end fuel size n eol ≡ canonical r
      → round_end fuel more n (eol ++ junk) ≡ canonical r
  unfolding round_end strspn
  whole-longer eol p all h =
      let k = strspn junk crlf in
      let nothing : drop (length eol) eol ≡ [] = drop_all (length eol) eol (omega arith) in
      let e : (length eol == 0) ≡ false = ==_ne (length eol) 0 (λ z. absurd (omega (arith, z))) in
      let e' : (length eol + k == 0) ≡ false =
        ==_ne (length eol + k) 0 (λ z. absurd (omega (arith, z))) in
      let h' = rw (all, e, take_all (length eol) eol (omega arith), nothing) at h in
      rw (strspn-whole eol junk crlf all, e', take-whole eol junk k)
        (elim (Bool-cases (ends_headers eol)) [
          | inl f ↦
              rw (ends_headers-longer eol (take k junk) f)
                (finish-larger size more n r le (rw f at h'))
          | inr f ↦ absurd (canonicalize_nil fuel size (n ++ crlf) r (rw f at h'))
        ])

  round_end-longer :
      (eol : Text)
      → 0 < length eol
      → round_end fuel size n eol ≡ canonical r
      → round_end fuel more n (eol ++ junk) ≡ canonical r
  round_end-longer eol p h = elim (Bool-cases (ltb (strspn eol crlf) (length eol))) [
    | inl f ↦ inside-longer eol (ltb→lt (strspn eol crlf) (length eol) f) h
    | inr f ↦
        whole-longer eol p
          (omega (arith, strspn_le eol crlf, ltb→le (strspn eol crlf) (length eol) f)) h
  ]

round_end_nil : (fuel size : ℕ) (n : Text) → round_end fuel size n [] ≡ canonicalize fuel size [] n
unfolding round_end strspn
round_end_nil fuel size n = refl

word_out-longer : (a b : Text) → 0 < length (skip_word a) → word_out (a ++ b) ≡ word_out a
unfolding word_out
word_out-longer a b h =
    let few : strcspn a lws < length a = omega (arith, length-drop (strcspn a lws) a) in
    rw (skip_word-longer a b h, spht-longer (skip_word a) b h, strcspn-longer a b lws few)
      (ap (λ t. t ++ (if ltb 0 (strspn (skip_word a) spht) then codes " " else []))
        (take-longer (strcspn a lws) a b (omega arith)))

-- The text that `headers_canonicalize` makes of headers is that of its lines up to the empty one: what
-- stands behind them changes nothing.
pub canonicalize-longer : (fuel : ℕ) (junk : Text) → Continues fuel junk
canonicalize-longer zero junk size more c n r le h = absurd (canonicalize_no_fuel size c n r h)
canonicalize-longer (suc fuel) junk size more [] n r le h =
    absurd (canonicalize_nil (suc fuel) size n r h)
canonicalize-longer (suc fuel) junk size more (x ∷ s) n r le h =
    let c = x ∷ s in
    let n' = n ++ word_out c in
    let h' = sym (canonicalize-round_end fuel size x s n) ∙ h in
    elim (nil-cases (skip_spht (skip_word c))) [
      | inl e ↦ absurd (
          canonicalize_nil fuel size n' r
            (sym (round_end_nil fuel size n') ∙ (ap (round_end fuel size n') (sym e) ∙ h')))
      | inr p ↦
          let q : 0 < length (skip_word c) =
            omega (arith, length-drop (strspn (skip_word c) spht) (skip_word c)) in
          let eol : skip_spht (skip_word (c ++ junk)) ≡ skip_spht (skip_word c) ++ junk =
            ap skip_spht (skip_word-longer c junk q) ∙ skip_spht-longer (skip_word c) junk p in
          canonicalize-round_end fuel more x (s ++ junk) n
          ∙ (ap₂ (round_end fuel more) (ap (λ t. n ++ t) (word_out-longer c junk q)) eol
              ∙ round_end-longer fuel junk (canonicalize-longer fuel junk) size more n' r le
                  (skip_spht (skip_word c)) p h')
    ]
