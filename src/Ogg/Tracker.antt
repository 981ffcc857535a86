-- ===== src/Ogg/Tracker.antt =====
-- The list of trackers of src/ogg-stdin.c.
use sighttpd.Prelude.{
  ℕ, ◌+◌, ◌<◌, ◌≡◌, refl, Option, none, some, List, [], ◌∷◌, ◌==◌, leb, if◌then◌else◌, arith, sym,
  ◌∙◌, ap, subst, ◌≤◌, Bool-cases, Option-cases, inl, inr, ==_iff,
}
use sighttpd.Ogg.{HeaderTracker, add_packets, or_first, track, tracked}

-- How many of the streams lack packets of their headers.
unfoldable pub pending : (numheaders : ℕ → ℕ) → List HeaderTracker → ℕ
pending numheaders [] = 0
pending numheaders (ht ∷ list) =
    (if leb (numheaders ht.serialno) ht.num_headers then 0 else 1) + pending numheaders list

abbrev pub or_zero : Option ℕ → ℕ
or_zero none = 0
or_zero (some n) = n

-- No stream has two trackers.
abbrev pub IsUnique : List HeaderTracker → Type 0
IsUnique [] = Unit
IsUnique (ht ∷ list) = (tracked list ht.serialno ≡ none) × IsUnique list

some_inj : {a b : ℕ} → some a ≡ some b → a ≡ b
some_inj e = ap or_zero e

add_packets-none :
    (s k : ℕ) (list : List HeaderTracker) → tracked list s ≡ none → add_packets s k list ≡ none
unfolding tracked add_packets
add_packets-none s k [] h = refl
add_packets-none s k (ht ∷ list) h = ground (arith, add_packets-none s k list)

-- A stream that has a tracker: its own count alone changes, and the number of the streams that lack packets
-- goes down by one where it is complete with them.
add_packets-some :
    (numheaders : ℕ → ℕ) (s k n : ℕ) (list : List HeaderTracker)
    → tracked list s ≡ some n
    → n < numheaders s
    → IsUnique list
    → (list' : List HeaderTracker) × (add_packets s k list ≡ some list')
      × (pending numheaders list' + (if leb (numheaders s) (n + k) then 1 else 0)
          ≡ pending numheaders list)
      × ((t : ℕ) → tracked list' t ≡ (if s == t then some (n + k) else tracked list t))
      × IsUnique list'
unfolding tracked add_packets pending
add_packets-some numheaders s k n [] h l u = absurd (ground arith)
add_packets-some numheaders s k n (ht ∷ list) h l (f, u) = elim (Bool-cases (ht.serialno == s)) [
  | inl e ↦
      let same : ht.serialno ≡ s = (==_iff ht.serialno s).0 e in
      let count : ht.num_headers ≡ n = some_inj (sym (rw e refl) ∙ h) in
      (
        record ht { num_headers = ht.num_headers + k } ∷ list,
        rw e refl,
        ground (arith, same, count, ap numheaders same),
        λ t. ground (arith, same, count),
        (f, u),
      )
  | inr e ↦
      let (list', added, few, rest, v) =
        add_packets-some numheaders s k n list (sym (rw e refl) ∙ h) l u in
      (
        ht ∷ list',
        rw (e, added) refl,
        omega (arith, few),
        λ t. ground (arith, e, rest t),
        (rest ht.serialno ∙ ground (arith, e, f), v),
      )
]

track-none :
    (s k : ℕ) (list : List HeaderTracker)
    → tracked list s ≡ none
    → track s k list ≡ record { serialno = s; num_headers = k } ∷ list
unfolding track or_first
track-none s k list e = ap (or_first s k list) (add_packets-none s k list e)

track-some :
    (numheaders : ℕ → ℕ) (s k n : ℕ) (list : List HeaderTracker)
    → tracked list s ≡ some n
    → n < numheaders s
    → IsUnique list
    → (pending numheaders (track s k list) + (if leb (numheaders s) (n + k) then 1 else 0)
        ≡ pending numheaders list)
      × ((t : ℕ) → tracked (track s k list) t ≡ (if s == t then some (n + k) else tracked list t))
      × IsUnique (track s k list)
unfolding track or_first
track-some numheaders s k n list e l u =
    let (list', added, few, rest, v) = add_packets-some numheaders s k n list e l u in
    let becomes : track s k list ≡ list' = ap (or_first s k list) added in
    (
      ap (λ x. pending numheaders x + (if leb (numheaders s) (n + k) then 1 else 0)) becomes ∙ few,
      λ t. ap (λ x. tracked x t) becomes ∙ rest t,
      subst IsUnique (sym becomes) v,
    )

pub track-IsUnique :
    (s k : ℕ) (list : List HeaderTracker) → IsUnique list → IsUnique (track s k list)
track-IsUnique s k list u = elim (Option-cases (tracked list s)) [
  | inl e ↦ subst IsUnique (sym (track-none s k list e)) (e, u)
  | inr (n, e) ↦ (track-some (λ i. n + 1) s k n list e (omega arith) u).2
]

-- All streams are complete.
pub pending_zero :
    (numheaders : ℕ → ℕ) (list : List HeaderTracker)
    → IsUnique list
    → ((s n : ℕ) → tracked list s ≡ some n → numheaders s ≤ n)
    → pending numheaders list ≡ 0
unfolding pending tracked
pending_zero numheaders [] u h = refl
pending_zero numheaders (ht ∷ list) (f, u) h =
    let rest = pending_zero numheaders list u λ s n e. h s n (elim (Bool-cases (ht.serialno == s)) [
      | inl q ↦ absurd (ground (arith, e, f, ap (tracked list) ((==_iff ht.serialno s).0 q)))
      | inr q ↦ rw q e
    ]) in
    ground (arith, rest, h ht.serialno ht.num_headers (ground arith))

-- `track` gives a stream its packets and leaves the other counts as they are.
pub tracked-track :
    (s k : ℕ) (list : List HeaderTracker) (t : ℕ)
    → IsUnique list
    → tracked (track s k list) t
      ≡ (if s == t then some (or_zero (tracked list s) + k) else tracked list t)
unfolding tracked
tracked-track s k list t u = elim (Option-cases (tracked list s)) [
  | inl e ↦ rw (track-none s k list e, e) (ground arith)
  | inr (n, e) ↦ rw e ((track-some (λ i. n + 1) s k n list e (omega arith) u).1 t)
]

-- A first tracker with no packets before it.
pub pending-track_first :
    (numheaders : ℕ → ℕ) (s k : ℕ) (list : List HeaderTracker)
    → tracked list s ≡ none
    → pending numheaders (track s k list)
      ≡ (if leb (numheaders s) k then 0 else 1) + pending numheaders list
unfolding pending
pending-track_first numheaders s k list e = rw (track-none s k list e) refl

-- A stream that lacks packets.
pub pending-track_more :
    (numheaders : ℕ → ℕ) (s k n : ℕ) (list : List HeaderTracker)
    → tracked list s ≡ some n
    → n < numheaders s
    → IsUnique list
    → pending numheaders (track s k list) + (if leb (numheaders s) (n + k) then 1 else 0)
      ≡ pending numheaders list
pending-track_more numheaders s k n list e l u = (track-some numheaders s k n list e l u).0
