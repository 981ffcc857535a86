-- ===== src/Recorder/Tests.antt =====
-- The first encoder of src/shrecord.c, and a read for it.
use sighttpd.Prelude.{
  ◌<◌, ◌≤◌, ◌≡◌, refl, Text, true, false, none, some, List, [], ◌∷◌, codes, arith, Option, length,
}
use sighttpd.Ringbuffer.{Ringbuffer, init, reset}
use sighttpd.Recorder.{
  EncodeData, max_encoders, encoder, stray, Files, add_encoder, shrecord_init, shrecord_resource,
}
use sighttpd.Recorder.Encoders.{IsPrivate, Gives, shrecord_resource_lem, encoder-IsValid, AreReady}

abbrev idle : Ringbuffer
idle = record {
  bytes = λ i. 0;
  size = 0;
  readers = λ i. false;
  pread = λ i. 0;
  pwrite = 0;
  min_pread = 0;
}

abbrev files : Files
files = record {
  opens = λ name. true;
  lines = λ name. some (codes "output_stream_file = a;" ∷ []);
  mode = λ name. none;
  makes = λ name. true;
}

shrecord_init-IsPrivate : IsPrivate shrecord_init
unfolding shrecord_init
shrecord_init-IsPrivate = record { counted = refl; bounded = omega arith; valid = tt }

abbrev camera : EncodeData
camera = encoder idle (codes "/a.mp4") shrecord_init.pid shrecord_init.nr_encoders

shrecord_resource_lem_example :
    (shrecord_init.nr_encoders < max_encoders
      → Gives files
          (codes "a.ctl")
          shrecord_init
          camera
          (shrecord_resource files idle (codes "/a.mp4") (codes "a.ctl") shrecord_init)
        × IsPrivate (add_encoder camera shrecord_init))
    × (shrecord_init.nr_encoders ≡ max_encoders
        → shrecord_resource files idle (codes "/a.mp4") (codes "a.ctl") shrecord_init ≡ stray)
shrecord_resource_lem_example =
    shrecord_resource_lem files idle (codes "/a.mp4") (codes "a.ctl") shrecord_init
      shrecord_init-IsPrivate (omega arith)

abbrev reads : List (Option Text)
reads = some (codes "mdat") ∷ none ∷ []

room : length (codes "mdat") ≤ camera.rb.size
unfolding encoder init reset
room = omega arith

one_ready : AreReady reads (camera ∷ camera ∷ [])
unfolding encoder
one_ready =
    (encoder-IsValid idle (codes "/a.mp4") shrecord_init.pid shrecord_init.nr_encoders, room, tt)
