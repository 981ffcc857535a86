-- ===== src/Params/Headers/Lines.antt =====
-- `headers_canonicalize` of src/params.c on lines that end in LF alone: it leaves its block.
use sighttpd.Prelude.{
  ℕ, suc, zero, ◌+◌, ◌≤◌, ◌<◌, ◌≢◌, Text, List, [], ◌∷◌, ◌++◌, ◌≡◌, refl, ◌∙◌, arith, codes, length,
  strspn, length-append, All, take-length-append, drop-length-append, Avoids, strcspn-append,
}
use sighttpd.Params.Print.{crlf}
use sighttpd.Params.Headers.{
  Canonical, spht, lws, word_out, finish, canonicalize, headers_canonicalize, ends_headers, count,
}

-- A word with a space behind it, or the last of its line.
pub data Word : Type 0 where
  inner last : Text → Word

abbrev pub letters : Word → Text
letters (inner w) = w
letters (last w) = w

pub record IsWord (w : Word) : Type 0 where
  pub nonempty : letters w ≢ []
  pub solid : Avoids lws (letters w)

-- Lines of words: a space between two words, a LF alone at the end of each line.
abbrev pub lf_lines : List Word → Text
lf_lines [] = []
lf_lines (inner w ∷ ws) = w ++ 32 ∷ lf_lines ws
lf_lines (last w ∷ ws) = w ++ 10 ∷ lf_lines ws

abbrev pub line_ends : List Word → ℕ
line_ends [] = 0
line_ends (inner w ∷ ws) = line_ends ws
line_ends (last w ∷ ws) = suc (line_ends ws)

-- No line starts with white space, and none is empty.
no_white :
    (w : Text) (rest : Text)
    → w ≢ []
    → Avoids lws w
    → (strspn (w ++ rest) spht ≡ 0) × (strspn (w ++ rest) crlf ≡ 0)
unfolding strspn
no_white [] rest h k = absurd (h refl)
no_white (x ∷ w) rest h (a, k) = (ground (arith, a), ground (arith, a))

lf_lines-start :
    (ws : List Word)
    → All IsWord ws
    → (strspn (lf_lines ws) spht ≡ 0) × (strspn (lf_lines ws) crlf ≡ 0)
lf_lines-start [] h = unfold strspn in (refl, refl)
lf_lines-start (inner w ∷ ws) (h, hs) = no_white w _ h.nonempty h.solid
lf_lines-start (last w ∷ ws) (h, hs) = no_white w _ h.nonempty h.solid

spht-space : (s : Text) → strspn (32 ∷ s) spht ≡ suc (strspn s spht)
unfolding strspn
spht-space s = refl

spht-lf : (s : Text) → strspn (10 ∷ s) spht ≡ 0
unfolding strspn
spht-lf s = refl

crlf-lf : (s : Text) → strspn (10 ∷ s) crlf ≡ suc (strspn s crlf)
unfolding strspn
crlf-lf s = refl

-- A round for a word with a space behind it.
canonicalize-space :
    (fuel size x : ℕ) (w n : Text) (ws : List Word)
    → Avoids lws (x ∷ w)
    → All IsWord ws
    → canonicalize (suc fuel) size (x ∷ w ++ 32 ∷ lf_lines ws) n
      ≡ canonicalize fuel size (lf_lines ws) (n ++ (x ∷ w ++ codes " "))
unfolding canonicalize word_out
canonicalize-space fuel size x w n ws h hs =
    let (blank, eol) = lf_lines-start ws hs in
    rw
      (
        strcspn-append (x ∷ w) (32 ∷ lf_lines ws) lws h refl,
        drop-length-append (x ∷ w) (32 ∷ lf_lines ws),
        take-length-append w (32 ∷ lf_lines ws),
        spht-space (lf_lines ws),
        blank,
        eol,
      )
      refl

-- A round for the last word of a line.
canonicalize-lf :
    (fuel size x : ℕ) (w n : Text) (ws : List Word)
    → Avoids lws (x ∷ w)
    → All IsWord ws
    → canonicalize (suc fuel) size (x ∷ w ++ 10 ∷ lf_lines ws) n
      ≡ canonicalize fuel size (lf_lines ws) ((n ++ (x ∷ w ++ [])) ++ crlf)
unfolding canonicalize word_out ends_headers count
canonicalize-lf fuel size x w n ws h hs =
    let (blank, eol) = lf_lines-start ws hs in
    rw
      (
        strcspn-append (x ∷ w) (10 ∷ lf_lines ws) lws h refl,
        drop-length-append (x ∷ w) (10 ∷ lf_lines ws),
        take-length-append w (10 ∷ lf_lines ws),
        spht-lf (lf_lines ws),
        crlf-lf (lf_lines ws),
        eol,
        blank,
      )
      refl

canonicalize-nothing :
    (fuel size : ℕ) (n : Text)
    → size ≤ length n
    → canonicalize (suc fuel) size [] n ≡ Canonical.overflow
unfolding canonicalize finish
canonicalize-nothing fuel size n h = ground arith

canonicalize-lf_lines :
    (ws : List Word) (fuel size : ℕ) (n : Text)
    → All IsWord ws
    → length ws < fuel
    → size ≤ length n + length (lf_lines ws) + line_ends ws
    → canonicalize fuel size (lf_lines ws) n ≡ Canonical.overflow
canonicalize-lf_lines ws zero size n h k o = absurd (omega arith)
canonicalize-lf_lines [] (suc fuel) size n h k o = canonicalize-nothing fuel size n (omega arith)
canonicalize-lf_lines (inner [] ∷ ws) (suc fuel) size n (h, hs) k o = absurd (h.nonempty refl)
canonicalize-lf_lines (last [] ∷ ws) (suc fuel) size n (h, hs) k o = absurd (h.nonempty refl)
canonicalize-lf_lines (last (x ∷ w) ∷ ws) (suc fuel) size n (h, hs) k o =
    canonicalize-lf fuel size x w n ws h.solid hs
    ∙ canonicalize-lf_lines ws fuel size _ hs (omega arith) (grind (arith, length-append))
canonicalize-lf_lines (inner (x ∷ w) ∷ ws) (suc fuel) size n (h, hs) k o =
    canonicalize-space fuel size x w n ws h.solid hs
    ∙ canonicalize-lf_lines ws fuel size _ hs (omega arith) (grind (arith, length-append))

-- Header lines of words, with one space between two words and a LF alone behind the last, of which there is one
-- at least: `headers_canonicalize` writes behind the block that it has allocated, for each LF becomes two
-- bytes. A round for each word and one more are enough.
pub headers_canonicalize-lf_lines :
    (ws : List Word) (fuel : ℕ)
    → All IsWord ws
    → 0 < line_ends ws
    → length ws < fuel
    → headers_canonicalize fuel (lf_lines ws) ≡ Canonical.overflow
unfolding headers_canonicalize
headers_canonicalize-lf_lines ws fuel h one k = canonicalize-lf_lines ws fuel _ [] h k (omega arith)
