-- ===== src/Stream/Order.antt =====
-- What a client of src/fdstream.c is sent, whatever the turns of the threads.
use sighttpd.Prelude.{
  ℕ, ◌+◌, ◌<◌, ◌≢◌, ◌≡◌, Text, Option, none, some, [], ◌++◌, inl, inr, refl, sym, ap, ◌∙◌, subst,
  arith, length, append_assoc, Bool-cases, leb,
}
use sighttpd.Ringbuffer.{Ringbuffer, max_readers, avail, open_reader, close_reader}
use sighttpd.Ringbuffer.Valid.{IsValid, contents, contents-update_min, descriptors-IsValid}
use sighttpd.Ringbuffer.Transfer.{ReadAnswer, readfd, writefd}
use sighttpd.Ringbuffer.Fill.{IsRead, bytes_read, readfd_lem, readfd-StaysIn}
use sighttpd.Ringbuffer.Send.{IsWrite, writefd_lem}
use sighttpd.Ringbuffer.Descriptors.{open_reader_lem}
use sighttpd.Stream.{Run, opened, feed, send, other_send, other_open, other_close}

-- A run in which no system call answers with more bytes than it was asked for, the buffer was valid at
-- first, the reader always has room for the bytes that come in, and the other clients have
-- other descriptors. No more is asked of `read(2)`: it may fail or be short in any turn.
abbrev pub KeepsUp : {i : ℕ} {s : Ringbuffer} {fed sent : Text} → Run i s fed sent → Type 0
KeepsUp (opened r s e) = IsValid r
KeepsUp {i = i} (feed r s fed sent first second n run e) =
    KeepsUp run
    × IsRead first
    × IsRead second
    × (avail r i + length (bytes_read first second r) < r.size)
KeepsUp (send r s fed sent t first second n run e) = KeepsUp run × IsWrite first × IsWrite second
KeepsUp {i = i} (other_send r s fed sent t j first second n run e) =
    KeepsUp run × IsWrite first × IsWrite second × (j < max_readers) × (j ≢ i)
KeepsUp {i = i} (other_open r s fed sent o run e) = KeepsUp run × (o ≢ some i)
KeepsUp {i = i} (other_close r fed sent j run) = KeepsUp run × (j ≢ i)

-- Two results of the same call.
abbrev from_some : {A : Type 0} → A → Option A → A
from_some d none = d
from_some d (some a) = a

same_result : {A : Type 0} {o : Option A} (a b : A) → o ≡ some a → o ≡ some b → a ≡ b
same_result a b e f = ap (from_some a) (sym e ∙ f)

some≢none : {A : Type 0} {a : A} → some a ≢ none
some≢none e = absurd (ground (arith, e))

abbrev Delivered : ℕ → Ringbuffer → (fed sent : Text) → Type 0
Delivered i s fed sent = IsValid s × (sent ++ contents s i ≡ fed)

opened-Delivered :
    (i : ℕ) (r s : Ringbuffer) → open_reader r ≡ (some i, s) → IsValid r → Delivered i s [] []
opened-Delivered i r s e v = elim (open_reader_lem r v) [
  | inl (f, all) ↦ absurd (some≢none (ap (λ p. p.0) (sym e ∙ f)))
  | inr (j, f, first, o) ↦
      let same : j ≡ i = same_result j i f (ap (λ p. p.0) e) in
      let last : (open_reader r).1 ≡ s = ap (λ p. p.1) e in
      (
        subst IsValid last (descriptors-IsValid r 0 v).0,
        subst (λ q. contents q i ≡ []) last
            (subst (λ k. contents (open_reader r).1 k ≡ []) same o.nothing),
      )
]

feed-Delivered :
    (i : ℕ) (r s : Ringbuffer) (fed sent : Text) (first second : ℕ → ReadAnswer) (n : Option ℕ)
    → readfd first second r ≡ some (n, s)
    → i < max_readers
    → IsRead first
    → IsRead second
    → avail r i + length (bytes_read first second r) < r.size
    → Delivered i r fed sent
    → Delivered i s (fed ++ bytes_read first second r) sent
feed-Delivered i r s fed sent first second n e q f g room (v, d) =
    let t = bytes_read first second r in
    let stays = readfd-StaysIn first second n v e in
    let (s', e', received) = readfd_lem first second v f g stays in
    let last : s' ≡ s = ap (λ p. p.1) (same_result (_, s') (n, s) e' e) in
    let behind = received.behind i q room in
    (
      subst IsValid last received.valid,
      subst (λ u. sent ++ contents u i ≡ fed ++ bytes_read first second r) last
          (ap (λ u. sent ++ u) behind
            ∙ (sym (append_assoc sent (contents r i) t) ∙ ap (λ u. u ++ t) d)),
    )

send-Delivered :
    (i : ℕ) (r s : Ringbuffer) (fed sent t : Text) (first second : ℕ → Option ℕ) (n : Option ℕ)
    → writefd first second r i ≡ some (n, t, s)
    → i < max_readers
    → IsWrite first
    → IsWrite second
    → Delivered i r fed sent
    → Delivered i s fed (sent ++ t)
send-Delivered i r s fed sent t first second n e q f g (v, d) =
    let (m, u, s', e', took, returned) = writefd_lem first second i v q f g in
    let last : (m, u, s') ≡ (n, t, s) = same_result (m, u, s') (n, t, s) e' e in
    (
      subst IsValid (ap (λ p. p.2) last) took.valid,
      append_assoc sent t (contents s i)
          ∙ (ap (λ k. sent ++ k)
                (subst (λ p. p.1 ++ contents p.2 i ≡ contents r i) last took.handed)
              ∙ d),
    )

other_send-Delivered :
    (i : ℕ) (r s : Ringbuffer) (fed sent t : Text) (j : ℕ) (first second : ℕ → Option ℕ)
    (n : Option ℕ)
    → writefd first second r j ≡ some (n, t, s)
    → j < max_readers
    → j ≢ i
    → IsWrite first
    → IsWrite second
    → Delivered i r fed sent
    → Delivered i s fed sent
other_send-Delivered i r s fed sent t j first second n e q other f g (v, d) =
    let (m, u, s', e', took, returned) = writefd_lem first second j v q f g in
    let last : s' ≡ s = ap (λ p. p.2) (same_result (m, u, s') (n, t, s) e' e) in
    (
      subst IsValid last took.valid,
      subst (λ k. sent ++ contents k i ≡ fed) last
          (ap (λ k. sent ++ k) (took.others i (λ h. other (sym h))) ∙ d),
    )

other_open-Delivered :
    (i : ℕ) (r s : Ringbuffer) (fed sent : Text) (o : Option ℕ)
    → open_reader r ≡ (o, s)
    → o ≢ some i
    → Delivered i r fed sent
    → Delivered i s fed sent
other_open-Delivered i r s fed sent o e other (v, d) = elim (open_reader_lem r v) [
  | inl (f, all) ↦ subst (λ k. Delivered i k fed sent) (ap (λ p. p.1) (sym f ∙ e)) (v, d)
  | inr (j, f, first, taken) ↦
      let last : (open_reader r).1 ≡ s = ap (λ p. p.1) e in
      let apart : i ≢ j = λ h. other (sym (ap (λ p. p.0) e) ∙ (f ∙ ap (λ k. some k) (sym h))) in
      (
        subst IsValid last (descriptors-IsValid r 0 v).0,
        subst (λ k. sent ++ contents k i ≡ fed) last
            (ap (λ k. sent ++ k) (taken.others i apart).0 ∙ d),
      )
]

contents-close_reader : (r : Ringbuffer) (j i : ℕ) → contents (close_reader r j) i ≡ contents r i
unfolding close_reader avail
contents-close_reader r j i = elim (Bool-cases (leb max_readers j)) [
  | inl e ↦ rw e refl
  | inr e ↦ rw e (contents-update_min _ i)
]

-- A run of any turns on a buffer that is valid at first, in none of which `ringbuffer_readfd` writes behind the
-- block, and in which a client keeps up: what is read has room behind what waits for it. The other clients have other
-- descriptors, and `read(2)` and `write(2)` answer with no more than they are asked for, but may fail or be short
-- in every turn. What the client has been sent, and then what waits for it, is what `read(2)` has
-- answered since it came, in order, with nothing lost or twice, and the buffer stays valid.
pub Run_lem :
    {i : ℕ} {s : Ringbuffer} {fed sent : Text} (run : Run i s fed sent)
    → i < max_readers
    → KeepsUp run
    → IsValid s × (sent ++ contents s i ≡ fed)
Run_lem {i = i} (opened r s e) q v = opened-Delivered i r s e v
Run_lem {i = i} (feed r s fed sent first second n run e) q (k, f, g, room) =
    feed-Delivered i r s fed sent first second n e q f g room (Run_lem run q k)
Run_lem {i = i} (send r s fed sent t first second n run e) q (k, f, g) =
    send-Delivered i r s fed sent t first second n e q f g (Run_lem run q k)
Run_lem {i = i} (other_send r s fed sent t j first second n run e) q (k, f, g, h, other) =
    other_send-Delivered i r s fed sent t j first second n e h other f g (Run_lem run q k)
Run_lem {i = i} (other_open r s fed sent o run e) q (k, other) =
    other_open-Delivered i r s fed sent o e other (Run_lem run q k)
Run_lem {i = i} (other_close r fed sent j run) q (k, other) =
    let (v, d) = Run_lem run q k in
    ((descriptors-IsValid r j v).1, ap (λ u. sent ++ u) (contents-close_reader r j i) ∙ d)
