-- ===== src/Recorder/Encoders.antt =====
-- The array of encoders of src/shrecord.c, and what goes into their ring buffers.
use sighttpd.Prelude.{
  ℕ, ◌+◌, ◌/◌, ◌%◌, Bool, ◌≢◌, ◌==◌, ==_iff, ◌<◌, ◌≤◌, ◌≡◌, ◌⊎◌, refl, Text, true, false, Option,
  none, some, List, [], ◌∷◌, ◌++◌, arith, length, length-append, All, All-append, ltb, leb, ◌||◌,
  Bool-cases, inl, inr,
}
use sighttpd.Ringbuffer.{Ringbuffer, avail, max_readers}
use sighttpd.Ringbuffer.Valid.{IsValid, contents, init_lem}
use sighttpd.Ringbuffer.Write.{write_lem}
use sighttpd.Recorder.{
  EncodeData, PrivateData, max_encoders, maxpathlen, encoder, Made, null, stray, made, Files,
  add_encoder, make_files, shrecord_mkfifo, shrecord_resource, shrecord_tweak_ctrlfile, poll_round,
}

-- At most eight encoders, as many as are counted, each with a valid ring buffer.
pub record IsPrivate (pvt : PrivateData) : Type 0 where
  pub counted : pvt.nr_encoders ≡ length pvt.encdata
  pub bounded : pvt.nr_encoders ≤ max_encoders
  pub valid : All (λ ed. IsValid ed.rb) pvt.encdata

pub encoder-IsValid :
    (before : Ringbuffer) (path : Text) (pid n : ℕ) → IsValid (encoder before path pid n).rb
unfolding encoder
encoder-IsValid before path pid n = (init_lem before 2097152 (omega arith)).0

add_encoder-IsPrivate :
    (ed : EncodeData) (pvt : PrivateData)
    → IsPrivate pvt
    → IsValid ed.rb
    → pvt.nr_encoders < max_encoders
    → IsPrivate (add_encoder ed pvt)
unfolding add_encoder
add_encoder-IsPrivate ed pvt p v h = record {
  counted = omega (arith, p.counted, length-append pvt.encdata (ed ∷ []));
  bounded = omega arith;
  valid = All-append (λ e. IsValid e.rb) pvt.encdata (ed ∷ []) p.valid (v, tt);
}

-- There is a pipe at the path of an encoder, or mkfifo(3) makes one where there is no file.
abbrev pub HasPipe : (mode : Option ℕ) (makes : Bool) → Type 0
HasPipe none makes = makes ≡ true
HasPipe (some mode) makes = (mode / 4096) % 2 ≡ 1

-- The new control file of an encoder can be opened, the old one read, and there is a pipe.
pub record CanMake (files : Files) (ctlfile : Text) (ed : EncodeData) : Type 0 where
  pub opens : files.opens ed.ctrl_filename ≡ true
  pub reads : files.lines ctlfile ≢ none
  pub pipe : HasPipe (files.mode ed.fifo_path) (files.makes ed.fifo_path)

-- The encoder that was filled in, where its files can be made; else NULL.
abbrev pub Gives : Files → (ctlfile : Text) → PrivateData → EncodeData → Made → Type 0
Gives files ctlfile pvt ed result =
    (CanMake files ctlfile ed × (result ≡ made (add_encoder ed pvt) ed))
    ⊎ ((¬ CanMake files ctlfile ed) × (result ≡ null))

shrecord_mkfifo-HasPipe :
    (mode : Option ℕ) (done : Bool)
    → ((shrecord_mkfifo mode done ≡ true) × HasPipe mode done)
      ⊎ ((shrecord_mkfifo mode done ≡ false) × (¬ HasPipe mode done))
unfolding shrecord_mkfifo
shrecord_mkfifo-HasPipe none true = inl (refl, refl)
shrecord_mkfifo-HasPipe none false = inr (refl, λ e. ground (arith, e))
shrecord_mkfifo-HasPipe (some mode) done = elim (Bool-cases ((mode / 4096) % 2 == 1)) [
  | inl e ↦ inl (e, (==_iff ((mode / 4096) % 2) 1).0 e)
  | inr e ↦ inr (e, λ h. ground (arith, e, h))
]

make_files-Gives :
    (files : Files) (ctlfile : Text) (ed : EncodeData) (pvt : PrivateData) (opens : Bool)
    (lines : Option (List Text))
    → files.opens ed.ctrl_filename ≡ opens
    → files.lines ctlfile ≡ lines
    → Gives files ctlfile pvt ed
        (make_files files ctlfile ed pvt (shrecord_tweak_ctrlfile opens lines ed.fifo))
unfolding make_files shrecord_tweak_ctrlfile
make_files-Gives files ctlfile ed pvt false lines e f = inr (λ c. ground (arith, e, c.opens), refl)
make_files-Gives files ctlfile ed pvt true none e f = inr (λ c. c.reads f, refl)
make_files-Gives files ctlfile ed pvt true (some ls) e f =
    elim (shrecord_mkfifo-HasPipe (files.mode ed.fifo_path) (files.makes ed.fifo_path)) [
      | inl (g, h) ↦
          inl (record { opens = e; reads = λ k. ground (arith, f, k); pipe = h }, rw g refl)
      | inr (g, h) ↦ inr (λ c. h c.pipe, rw g refl)
    ]

-- On an array in which as many valid encoders are in use as are counted: while there are fewer than eight, `shrecord_resource` for a path that fits its array adds the
-- encoder exactly where its control file can be copied and its pipe is there or can be made, and
-- gives NULL where not; the encoders stay as many as are counted, each with a valid ring buffer. The
-- ninth, which the test does not refuse, is written behind the array.
pub shrecord_resource_lem :
    (files : Files) (before : Ringbuffer) (path ctlfile : Text) (pvt : PrivateData)
    → IsPrivate pvt
    → length path < maxpathlen
    → let ed = encoder before path pvt.pid pvt.nr_encoders in
      let result = shrecord_resource files before path ctlfile pvt in
      (pvt.nr_encoders < max_encoders
        → Gives files ctlfile pvt ed result × IsPrivate (add_encoder ed pvt))
      × (pvt.nr_encoders ≡ max_encoders → result ≡ stray)
unfolding shrecord_resource
shrecord_resource_lem files before path ctlfile pvt p h =
    let ed = encoder before path pvt.pid pvt.nr_encoders in
    (
      λ few.
          let low : ltb max_encoders pvt.nr_encoders ≡ false = ground arith in
          let room : (leb max_encoders pvt.nr_encoders || leb maxpathlen (length path)) ≡ false =
            ground arith in
          (
            rw (low, room)
                (make_files-Gives files ctlfile ed pvt (files.opens ed.ctrl_filename)
                  (files.lines ctlfile) refl refl),
            add_encoder-IsPrivate ed pvt p (encoder-IsValid before path pvt.pid pvt.nr_encoders)
                few,
          ),
      λ full.
          let low : ltb max_encoders pvt.nr_encoders ≡ false = ground arith in
          let over : (leb max_encoders pvt.nr_encoders || leb maxpathlen (length path)) ≡ true =
            ground arith in
          rw (low, over) refl,
    )

-- Each encoder has a valid ring buffer that is as large as what is read for it.
abbrev pub AreReady : List (Option Text) → List EncodeData → Type 0
AreReady [] eds = Unit
AreReady (ready ∷ pfds) [] = Unit
AreReady (none ∷ pfds) (ed ∷ eds) = AreReady pfds eds
AreReady (some buffer ∷ pfds) (ed ∷ eds) =
    IsValid ed.rb × (length buffer ≤ ed.rb.size) × AreReady pfds eds

-- What is read for an encoder is behind what each of its clients had that had room for it; the others are
-- as they were.
abbrev pub AreFed : List (Option Text) → (eds fed : List EncodeData) → Type 0
AreFed [] eds fed = fed ≡ eds
AreFed (ready ∷ pfds) [] fed = fed ≡ []
AreFed (ready ∷ pfds) (ed ∷ eds) [] = ⊥
AreFed (none ∷ pfds) (ed ∷ eds) (ed' ∷ fed) = (ed' ≡ ed) × AreFed pfds eds fed
AreFed (some buffer ∷ pfds) (ed ∷ eds) (ed' ∷ fed) =
    IsValid ed'.rb
    × ((i : ℕ)
        → i < max_readers
        → avail ed.rb i + length buffer < ed.rb.size
        → contents ed'.rb i ≡ contents ed.rb i ++ buffer)
    × AreFed pfds eds fed

-- A round of the loop of `shrecord_main` gives each client the bytes of its own encoder.
pub poll_round-AreFed :
    (pfds : List (Option Text)) (eds : List EncodeData)
    → AreReady pfds eds
    → (fed : List EncodeData) × (poll_round pfds eds ≡ some fed) × AreFed pfds eds fed
unfolding poll_round
poll_round-AreFed [] eds h = (eds, refl, refl)
poll_round-AreFed (ready ∷ pfds) [] h = ([], refl, refl)
poll_round-AreFed (none ∷ pfds) (ed ∷ eds) h =
    let (fed, e, f) = poll_round-AreFed pfds eds h in (ed ∷ fed, rw e refl, (refl, f))
poll_round-AreFed (some buffer ∷ pfds) (ed ∷ eds) (v, few, h) =
    let (rb, w, valid, behind) = write_lem buffer v few in
    let (fed, e, f) = poll_round-AreFed pfds eds h in
    (record ed { rb = rb } ∷ fed, rw (w, e) refl, (valid, behind, f))
