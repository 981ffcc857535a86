-- ===== src/Params/Headers/Fits.antt =====
-- `headers_canonicalize` of src/params.c on lines that end in CRLF: it stays in its block.
use sighttpd.Prelude.{
  ℕ, suc, zero, ◌+◌, ◌≤◌, ◌<◌, ◌≢◌, Text, [], ◌∷◌, ◌++◌, ◌≡◌, refl, arith, false, ◌⊎◌, codes, drop,
  take, length, strcspn, strspn, length-drop, length-append, length-take, one_of, Bool-cases, inl,
  inr, strcspn_le,
}
use sighttpd.Params.Print.{crlf}
use sighttpd.Params.Headers.{
  Canonical, spht, lws, skip_word, skip_spht, word_out, finish, canonicalize, headers_canonicalize,
  canonical, null,
}
use sighttpd.Params.Headers.Canon.{headers_canonicalize-ends}

-- CR and LF occur as CR LF alone.
abbrev pub IsCrlf : Text → Type 0
IsCrlf [] = Unit
IsCrlf (c ∷ []) = one_of crlf c ≡ false
IsCrlf (c ∷ d ∷ s) = ((c ≡ 13) × (d ≡ 10) × IsCrlf s) ⊎ ((one_of crlf c ≡ false) × IsCrlf (d ∷ s))

IsCrlf-tail : (c : ℕ) (s : Text) → one_of crlf c ≡ false → IsCrlf (c ∷ s) → IsCrlf s
IsCrlf-tail c [] h k = tt
IsCrlf-tail c (d ∷ s) h (inl (a, b, k)) = absurd (ground arith)
IsCrlf-tail c (d ∷ s) h (inr (a, k)) = k

skip_word-IsCrlf : (c : Text) → IsCrlf c → IsCrlf (skip_word c)
unfolding strcspn
skip_word-IsCrlf [] k = tt
skip_word-IsCrlf (x ∷ c) k = elim (Bool-cases (one_of lws x)) [
  | inl white ↦ rw white k
  | inr word ↦ rw word (skip_word-IsCrlf c (IsCrlf-tail x c (ground arith) k))
]

skip_spht-IsCrlf : (c : Text) → IsCrlf c → IsCrlf (skip_spht c)
unfolding strspn
skip_spht-IsCrlf [] k = tt
skip_spht-IsCrlf (x ∷ c) k = elim (Bool-cases (one_of spht x)) [
  | inl blank ↦ rw blank (skip_spht-IsCrlf c (IsCrlf-tail x c (ground arith) k))
  | inr other ↦ rw other k
]

-- A block of CR and LF has two bytes at least.
block-IsCrlf :
    (c : Text)
    → IsCrlf c
    → IsCrlf (drop (strspn c crlf) c) × ((strspn c crlf ≡ 0) ⊎ (2 ≤ strspn c crlf))
unfolding strspn
block-IsCrlf [] k = (tt, inl refl)
block-IsCrlf (x ∷ []) k = rw k (k, inl refl)
block-IsCrlf (x ∷ y ∷ c) (inl (a, b, k)) = rw (a, b) ((block-IsCrlf c k).0, inr (omega arith))
block-IsCrlf (x ∷ y ∷ c) (inr (a, k)) = rw a (inr (a, k), inl refl)

strspn_le : (a set : Text) → strspn a set ≤ length a
unfolding strspn
strspn_le [] set = omega arith
strspn_le (c ∷ a) set = ground (arith, strspn_le a set)

length-word_out : (c : Text) → length (word_out c) + length (skip_spht (skip_word c)) ≤ length c
unfolding word_out
length-word_out c =
    let w = strcspn c lws in
    let a = strspn (skip_word c) spht in
    ground (
      arith,
      length-append (take w c) (codes " "),
      length-append (take w c) [],
      length-take w c,
      length-drop w c,
      length-drop a (skip_word c),
      strcspn_le c lws,
      strspn_le (skip_word c) spht,
    )

finish-ne-overflow :
    (size : ℕ) (n : Text) (r : Canonical)
    → length n < size
    → r ≢ Canonical.overflow
    → finish size n r ≢ Canonical.overflow
unfolding finish
finish-ne-overflow size n r h k = ground arith

canonicalize-fits :
    (fuel size : ℕ) (c n : Text)
    → IsCrlf c
    → length n + length c < size
    → canonicalize fuel size c n ≢ Canonical.overflow
unfolding canonicalize
canonicalize-fits zero size c n k h = λ e. ground arith
canonicalize-fits (suc fuel) size [] n k h = finish-ne-overflow size n null (omega arith) (cc)
canonicalize-fits (suc fuel) size (x ∷ s) n k h =
    let c : Text = x ∷ s in
    let n' = n ++ word_out c in
    let eol = skip_spht (skip_word c) in
    let next = drop (strspn eol crlf) eol in
    let k' = skip_spht-IsCrlf (skip_word c) (skip_word-IsCrlf c k) in
    let block = block-IsCrlf eol k' in
    ground (
      arith,
      length-word_out c,
      length-append n (word_out c),
      length-append n' (codes " "),
      length-append n' crlf,
      length-drop (strspn eol crlf) eol,
      length-drop (strspn next spht) next,
      strspn_le eol crlf,
      strspn_le next spht,
      block.1,
      finish-ne-overflow size n' (canonical n'),
      canonicalize-fits fuel size eol n' k',
      canonicalize-fits fuel size (skip_spht next) (n' ++ codes " ")
          (skip_spht-IsCrlf next block.0),
      canonicalize-fits fuel size next (n' ++ crlf) block.0,
    )

Canonical-cases :
    (r : Canonical)
    → r ≢ Canonical.running
    → r ≢ Canonical.overflow
    → (r ≡ null) ⊎ ((t : Text) × (r ≡ canonical t))
Canonical-cases Canonical.running h k = absurd (h refl)
Canonical-cases Canonical.overflow h k = absurd (k refl)
Canonical-cases null h k = inl refl
Canonical-cases (canonical t) h k = inr (t, refl)

-- Where CR and LF occur as CRLF alone, `headers_canonicalize` ends, stays in its block, and returns
-- NULL or a text.
pub headers_canonicalize-fits :
    (input : Text) (fuel : ℕ)
    → IsCrlf input
    → length input < fuel
    → (headers_canonicalize fuel input ≡ null)
      ⊎ ((t : Text) × (headers_canonicalize fuel input ≡ canonical t))
unfolding headers_canonicalize
headers_canonicalize-fits input fuel k h =
    Canonical-cases (headers_canonicalize fuel input) (headers_canonicalize-ends input fuel h)
      (canonicalize-fits fuel (length input + 1) input [] k (omega arith))
