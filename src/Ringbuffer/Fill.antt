-- ===== src/Ringbuffer/Fill.antt =====
-- `ringbuffer_readfd` of src/ringbuffer.c: what it stores where `read(2)` may answer with fewer bytes
-- than it is asked for.
use sighttpd.Prelude.{
  ℕ, ◌+◌, ◌-◌, ◌≤◌, ◌<◌, ◌≡◌, ◌⊎◌, refl, ◌∙◌, ap, ap₂, sym, arith, Option, none, some, Text, [],
  ◌∷◌, ◌++◌, Bool, true, false, ltb, length, append_assoc, append-nil, length-append, Bool-cases,
  inl, inr, if◌then◌else◌, ltb→lt, ltb→le, lt→ltb, le→ltb,
}
use sighttpd.Memory.{copy, store_fits, store_overflow}
use sighttpd.Ringbuffer.{Ringbuffer, max_readers, avail, free}
use sighttpd.Ringbuffer.Circular.{mod-eq-wrap, copy_round}
use sighttpd.Ringbuffer.Valid.{IsValid, contents}
use sighttpd.Ringbuffer.Write.{written, written-IsValid, avail-written, contents-written}
use sighttpd.Ringbuffer.Transfer.{ReadAnswer, failed, got, fill, readfd_rest, readfd}

-- What one call of `read` stores, if it ends in the block.
fill-written :
    (r : Ringbuffer) (t : Text)
    → r.pwrite < r.size
    → r.pwrite + length t ≤ r.size
    → fill r t ≡ some (written r t)
unfolding fill copy_round
fill-written r [] h k =
    rw (le→ltb r.size (r.pwrite + 0) k)
      (ap₂ (λ m p. some (record r { bytes = m; pwrite = p })) (unfold copy in refl) (ground arith))
fill-written r (b ∷ t) h k =
    rw
      (
        le→ltb r.size (r.pwrite + length (b ∷ t)) k,
        store_fits r.size r.bytes r.pwrite (b ∷ t) k,
        mod-eq-wrap (r.pwrite + length (b ∷ t)) r.size (omega arith),
      )
      refl

fill_overflow :
    (r : Ringbuffer) (t : Text) → r.pwrite < r.size → r.size < r.pwrite + length t → fill r t ≡ none
unfolding fill
fill_overflow r [] h k = absurd (omega arith)
fill_overflow r (b ∷ t) h k = rw (store_overflow r.size r.bytes r.pwrite (b ∷ t) k)

-- From `r` to `s` the bytes `t` have come in behind what each reader had, if it had room for them.
pub record Received (r : Ringbuffer) (t : Text) (s : Ringbuffer) : Type 0 where
  pub valid : IsValid s
  pub behind :
      (i : ℕ) → i < max_readers → avail r i + length t < r.size → contents s i ≡ contents r i ++ t

-- An answer of `read(2)` has at most as many bytes as were asked for.
abbrev pub IsRead : (ℕ → ReadAnswer) → Type 0
IsRead w = (n : ℕ) (t : Text) → w n ≡ got t → length t ≤ n

ReadAnswer-cases : (a : ReadAnswer) → (a ≡ failed) ⊎ ((t : Text) × (a ≡ got t))
ReadAnswer-cases failed = inl refl
ReadAnswer-cases (got t) = inr (t, refl)

Received-written :
    {r : Ringbuffer} (t : Text) → IsValid r → length t ≤ r.size → Received r t (written r t)
Received-written t v h = record { valid = written-IsValid v t h; behind = contents-written v t }

Received-append :
    {r : Ringbuffer} (t u : Text)
    → IsValid r
    → length t ≤ r.size
    → length u ≤ r.size
    → Received r (t ++ u) (written (written r t) u)
Received-append {r} t u v h k =
    let w = written-IsValid v t h in
    record {
      valid = written-IsValid w u k;
      behind = λ i q f.
          let sum = length-append t u in
          contents-written w u i q (rw (avail-written v t i q (omega arith)) (omega arith))
          ∙ ap (λ c. c ++ u) (contents-written v t i q (omega arith))
          ∙ append_assoc (contents r i) t u;
    }

Received-nil : {r : Ringbuffer} → IsValid r → Received r [] r
Received-nil {r} v = record { valid = v; behind = λ i q h. sym (append-nil (contents r i)) }

free-lt-size : {r : Ringbuffer} → IsValid r → free r < r.size
unfolding free
free-lt-size v = ground (arith, v.pwrite_in, v.min_in)

-- The bytes that the calls of `read` give that `ringbuffer_readfd` makes.
abbrev pub got_bytes : ReadAnswer → Text
got_bytes failed = []
got_bytes (got t) = t

unfoldable pub bytes_read : (first second : ℕ → ReadAnswer) → Ringbuffer → Text
bytes_read first second r =
    if ltb r.size (r.pwrite + free r)
    then (elim (first (r.size - r.pwrite)) [
      | failed ↦ []
      | got t ↦ t ++ got_bytes (second (free r - length t))
    ])
    else got_bytes (second (free r))

abbrev pub is_failed : ReadAnswer → Bool
is_failed failed = true
is_failed (got t) = false

-- Whether one of the calls of `read` that `ringbuffer_readfd` makes answers -1.
unfoldable pub read_fails : (first second : ℕ → ReadAnswer) → Ringbuffer → Bool
read_fails first second r =
    if ltb r.size (r.pwrite + free r)
    then (elim (first (r.size - r.pwrite)) [
      | failed ↦ true
      | got t ↦ is_failed (second (free r - length t))
    ])
    else is_failed (second (free r))

-- Where the first of two calls answers with too few bytes to reach the end of the block, the second
-- answers with no more than are left before it.
pub record StaysIn (first second : ℕ → ReadAnswer) (r : Ringbuffer) : Type 0 where
  pub second_fits :
      (t u : Text)
      → r.size < r.pwrite + free r
      → first (r.size - r.pwrite) ≡ got t
      → r.pwrite + length t < r.size
      → second (free r - length t) ≡ got u
      → r.pwrite + length t + length u ≤ r.size

-- The outcome has what the calls of `read` have answered, and no other bytes; the result is their number
-- exactly where no call fails.
abbrev pub Filled :
    (first second : ℕ → ReadAnswer) → Ringbuffer → Option (Option ℕ × Ringbuffer) → Type 0
Filled first second r outcome =
    let t = bytes_read first second r in
    (s : Ringbuffer) × (outcome
      ≡ some ((if read_fails first second r then none else some (length t)), s))
    × Received r t s

-- Where the second call starts to write, behind the `t` of the first.
after_first :
    (r : Ringbuffer) (t u : Text)
    → r.pwrite + length t ≤ r.size
    → length t + length u < r.size
    → (r.pwrite + length t < r.size → r.pwrite + length t + length u ≤ r.size)
    → (written r t).pwrite + length u ≤ r.size
after_first r t u h k fits = elim (Bool-cases (ltb (r.pwrite + length t) r.size)) [
  | inl e ↦
      let start : (written r t).pwrite ≡ r.pwrite + length t = ground (arith, e) in
      omega (arith, start, fits (ltb→lt (r.pwrite + length t) r.size e))
  | inr e ↦ let start : (written r t).pwrite ≡ 0 = ground (arith, e) in omega (arith, start)
]

-- `ringbuffer_readfd` on a valid buffer, where `read(2)` answers with no more than it is asked for, unless a first
-- answer that is short of the end of the block is followed by one that goes behind it: it stays in the
-- block, keeps every position in it, and each reader that has room for the bytes that the calls of `read`
-- answer with has them, in order, behind what it had. The result is their number, or -1 where a
-- call fails.
pub readfd_lem :
    {r : Ringbuffer} (first second : ℕ → ReadAnswer)
    → IsValid r
    → IsRead first
    → IsRead second
    → StaysIn first second r
    → Filled first second r (readfd first second r)
unfolding readfd readfd_rest bytes_read read_fails
readfd_lem {r} first second v r₁ r₂ stays = elim (Bool-cases (ltb r.size (r.pwrite + free r))) [
  | inr e ↦ rw e (elim (ReadAnswer-cases (second (free r))) [
    | inl f ↦ rw f (r, refl, Received-nil v)
    | inr (t, f) ↦
        let few = r₂ (free r) t f in
        let room = free-lt-size v in
        rw (f, fill-written r t v.pwrite_in (omega (arith, ltb→le r.size (r.pwrite + free r) e)))
          (
            written r t,
            ap (λ k. some (some k, written r t)) {x = 0 + length t} {y = length t} (omega arith),
            Received-written t v (omega arith),
          )
  ])
  | inl e ↦
      let split = r.size - r.pwrite in
      let round = ltb→lt r.size (r.pwrite + free r) e in
      let room = free-lt-size v in
      let first_part = lt→ltb 0 split (omega (arith, v.pwrite_in)) in
      rw (e, first_part)
        (elim (ReadAnswer-cases (first split)) [
          | inl f ↦ rw f (r, refl, Received-nil v)
          | inr (t, f) ↦
              let ends = r₁ split t f in
              let q = written r t in
              rw (f, fill-written r t v.pwrite_in (omega (arith, v.pwrite_in)))
                (elim (ReadAnswer-cases (second (free r - length t))) [
                  | inl g ↦ rw (g, append-nil t) (q, refl, Received-written t v (omega arith))
                  | inr (u, g) ↦
                      let few = r₂ (free r - length t) u g in
                      rw
                        (
                          g,
                          fill-written q u (written-IsValid v t (omega arith)).pwrite_in (
                              after_first r t u (omega (arith, v.pwrite_in)) (omega arith)
                                (λ k. stays.second_fits t u round f k g)),
                          length-append t u,
                        )
                        (written q u, refl, Received-append t u v (omega arith) (omega arith))
                ])
        ])
]

-- `ringbuffer_readfd` writes behind the block where the free part goes round its end, the first
-- `read` answers with too few bytes to reach the end and the second with more than are left before it.
pub readfd_overflow :
    {r : Ringbuffer} (first second : ℕ → ReadAnswer) (t u : Text)
    → IsValid r
    → r.size < r.pwrite + free r
    → first (r.size - r.pwrite) ≡ got t
    → r.pwrite + length t < r.size
    → second (free r - length t) ≡ got u
    → r.size < r.pwrite + length t + length u
    → readfd first second r ≡ none
unfolding readfd readfd_rest
readfd_overflow {r} first second t u v round f short g long =
    let q = written r t in
    let start : q.pwrite ≡ r.pwrite + length t = ground arith in
    rw
      (
        lt→ltb r.size (r.pwrite + free r) round,
        lt→ltb 0 (r.size - r.pwrite) (omega (arith, v.pwrite_in)),
      )
      (rw (f, fill-written r t v.pwrite_in (omega arith))
        (rw (g, fill_overflow q u (omega (arith, start)) (omega (arith, start)))))

-- A call that does not write behind the block is one that stays in it.
pub readfd-StaysIn :
    {r s : Ringbuffer} (first second : ℕ → ReadAnswer) (n : Option ℕ)
    → IsValid r
    → readfd first second r ≡ some (n, s)
    → StaysIn first second r
readfd-StaysIn {r} first second n v e = record {
  second_fits = λ t u round f short g.
      elim (Bool-cases (ltb r.size (r.pwrite + length t + length u))) [
        | inl long ↦
            let out =
              readfd_overflow first second t u v round f short g
                (ltb→lt r.size (r.pwrite + length t + length u) long) in
            absurd (ground (arith, out, e))
        | inr h ↦ ltb→le r.size (r.pwrite + length t + length u) h
      ];
}
