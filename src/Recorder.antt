-- ===== src/Recorder.antt =====
-- src/shrecord.c: the streams of up to eight encoders, which another program writes to named pipes. What the
-- file system and getpid(2) answer is given.
pub mod Encoders
mod Tests
use sighttpd.Prelude.{
  ℕ, zero, suc, ◌+◌, ◌/◌, ◌%◌, Text, Bool, true, false, Option, none, some, List, [], ◌∷◌, ◌++◌,
  ◌==◌, ltb, leb, if◌then◌else◌, ◌||◌, ◌>>=◌, codes, length, strn_eq, print_int,
}
use sighttpd.Params.{append}
use sighttpd.Request.{Request}
use sighttpd.Status.{ok, http_status_line}
use sighttpd.Dictionary.{Dictionary, dictionary_lookup}
use sighttpd.Config.{strncase_eq}
use sighttpd.Resource.{Resource, ResourceCheck, ResourceHead, ResourceBody, resource_new, newline}
use sighttpd.Ringbuffer.{Ringbuffer, init}
use sighttpd.Ringbuffer.Transfer.{write}

-- `struct encode_data`, less its thread
pub record EncodeData : Type 0 where
  pub alive : Bool
  pub path : Text
  pub ctrl_filename : Text
  pub fifo : Text
  pub fifo_path : Text
  pub rb : Ringbuffer

-- `struct private_data`, with the `nr_encoders` entries of its array that are in use. The descriptors of the
-- pipes and the process that writes them are left out.
pub record PrivateData : Type 0 where
  pub nr_encoders : ℕ
  pub encdata : List EncodeData
  pub pid : ℕ
  pub do_preview : Bool

-- `MAX_ENCODERS`, `TMP_DIR`, `MAXPATHLEN`
abbrev pub max_encoders : ℕ
max_encoders = 8

abbrev pub tmp_dir : Text
tmp_dir = codes "/tmp"

abbrev pub maxpathlen : ℕ
maxpathlen = 4096

-- `shrecord_init`
unfoldable pub shrecord_init : PrivateData
shrecord_init = record { nr_encoders = 0; encdata = []; pid = 0; do_preview = true }

unfoldable pub shrecord_check : EncodeData → ResourceCheck
shrecord_check ed request = strn_eq request.path ed.path (length ed.path)

-- It adds to the list of headers in place, which is not empty.
unfoldable pub shrecord_head : EncodeData → ResourceHead
shrecord_head ed request request_headers response_headers = (
  http_status_line ok,
  append response_headers (some (codes "Content-Type")) (some (codes "video/mp4")),
)

-- What is written for one line of the control file.
unfoldable pub tweak_line : (fifo buffer : Text) → Text
tweak_line fifo buffer =
    if strn_eq buffer (codes "output_directry") 15
    then codes "output_directry = " ++ (tmp_dir ++ (codes ";" ++ newline))
    else if strn_eq buffer (codes "output_stream_file") 18
    then codes "output_stream_file = " ++ (fifo ++ (codes ";" ++ newline))
    else buffer

unfoldable pub tweak_lines : (fifo : Text) → List Text → Text
tweak_lines fifo [] = []
tweak_lines fifo (buffer ∷ lines) = tweak_line fifo buffer ++ tweak_lines fifo lines

-- `shrecord_tweak_ctrlfile`: the text of the new file, or `none` for -1, from whether the new file can be
-- opened and from what `fgets` gives of the old one, if that can.
unfoldable pub shrecord_tweak_ctrlfile :
    (opens : Bool) → Option (List Text) → (fifo : Text) → Option Text
shrecord_tweak_ctrlfile false orig_ctrl fifo = none
shrecord_tweak_ctrlfile true none fifo = none
shrecord_tweak_ctrlfile true (some lines) fifo = some (tweak_lines fifo lines)

-- `shrecord_mkfifo`: whether it returns 0, from the mode that lstat(2) finds, if any, and from whether
-- mkfifo(3) makes one. `S_IFIFO` is one bit.
unfoldable pub shrecord_mkfifo : (mode : Option ℕ) (made : Bool) → Bool
shrecord_mkfifo none made = made
shrecord_mkfifo (some mode) made = (mode / 4096) % 2 == 1

-- The names that belong to the encoder `n`.
unfoldable pub numbered : (name : Text) (pid n : ℕ) → Text
numbered name pid n = name ++ (print_int pid ++ (codes "." ++ print_int n))

-- The entry that is filled in, with `before` what its ring buffer was.
unfoldable pub encoder : (before : Ringbuffer) (path : Text) (pid n : ℕ) → EncodeData
encoder before path pid n = record {
  alive = true;
  path = path;
  ctrl_filename = tmp_dir ++ numbered (codes "/shrecord_ctrl-") pid n;
  fifo = numbered (codes "shrecord_fifo-") pid n;
  fifo_path = tmp_dir ++ (codes "/" ++ numbered (codes "shrecord_fifo-") pid n);
  rb = init before 2097152;
}

-- What comes of `shrecord_resource`: `null` is NULL, and `stray` a write behind the array of encoders or a
-- path without its NUL.
pub data Made : Type 0 where
  null stray : Made
  made : PrivateData → EncodeData → Made

-- The file system: what can be opened and read, and what lstat(2) and mkfifo(3) answer.
pub record Files : Type 0 where
  pub opens : (filename : Text) → Bool
  pub lines : (filename : Text) → Option (List Text)
  pub mode : (filename : Text) → Option ℕ
  pub makes : (filename : Text) → Bool

-- `ed->alive = 1; pvt->nr_encoders++;`
unfoldable pub add_encoder : EncodeData → PrivateData → PrivateData
add_encoder ed pvt = record pvt {
  nr_encoders = pvt.nr_encoders + 1;
  encdata = pvt.encdata ++ ed ∷ [];
}

-- From the control file on.
unfoldable pub make_files : Files → (ctlfile : Text) → EncodeData → PrivateData → Option Text → Made
make_files files ctlfile ed pvt none = null
make_files files ctlfile ed pvt (some ctrl) =
    if shrecord_mkfifo (files.mode ed.fifo_path) (files.makes ed.fifo_path)
    then made (add_encoder ed pvt) ed
    else null

-- `shrecord_resource`, with enough memory
unfoldable pub shrecord_resource :
    Files → (before : Ringbuffer) (path ctlfile : Text) → PrivateData → Made
shrecord_resource files before path ctlfile pvt =
    let ed = encoder before path pvt.pid pvt.nr_encoders in
    if ltb max_encoders pvt.nr_encoders
    then null
    else if leb max_encoders pvt.nr_encoders || leb maxpathlen (length path)
    then stray
    else make_files files ctlfile ed pvt
        (shrecord_tweak_ctrlfile (files.opens ed.ctrl_filename) (files.lines ctlfile) ed.fifo)

-- The resource of an encoder; what a client is sent is `body`.
unfoldable pub encoder_resource : ResourceBody → EncodeData → Resource
encoder_resource body ed = resource_new (shrecord_check ed) (shrecord_head ed) body

-- `if ((r = shrecord_resource (...)) != NULL) l = list_append (l, r);` on a list that is empty;
-- `none` where the entry is outside of the array.
unfoldable pub resource_list :
    ResourceBody → PrivateData → Made → Option (List Resource × PrivateData)
resource_list body pvt stray = none
resource_list body pvt null = some ([], pvt)
resource_list body pvt (made pvt' ed) = some (encoder_resource body ed ∷ [], pvt')

-- `if (path && ctlfile)`
unfoldable pub encoder_list :
    Files
    → Ringbuffer
    → ResourceBody
    → (path ctlfile : Option Text) → PrivateData
    → Option (List Resource × PrivateData)
encoder_list files before body (some path) (some ctlfile) pvt =
    resource_list body pvt (shrecord_resource files before path ctlfile pvt)
encoder_list files before body (some path) none pvt = some ([], pvt)
encoder_list files before body none ctlfile pvt = some ([], pvt)

-- The assignment `Preview`
unfoldable pub set_preview : Option Text → PrivateData → PrivateData
set_preview none pvt = pvt
set_preview (some preview) pvt =
    if strncase_eq preview (codes "on") 2
    then record pvt { do_preview = true }
    else if strncase_eq preview (codes "off") 3
    then record pvt { do_preview = false }
    else pvt

-- `shrecord_resources`; `pid` is the answer of getpid(2).
unfoldable pub shrecord_resources :
    (jenkins_hash : Text → ℕ)
    → Files
    → Ringbuffer
    → ResourceBody
    → (pid : ℕ) → Dictionary
    → PrivateData
    → Option (List Resource × PrivateData)
shrecord_resources jenkins_hash files before body pid config pvt = do
  (l, pvt') ←
      encoder_list files before body (dictionary_lookup jenkins_hash config (codes "Path"))
        (dictionary_lookup jenkins_hash config (codes "CtlFile")) (record pvt { pid = pid })
  some (l, set_preview (dictionary_lookup jenkins_hash config (codes "Preview")) pvt')

-- The arguments that `shrecord_main` gives to the program; no null pointer ends them.
unfoldable pub ctrl_filenames : List EncodeData → List Text
ctrl_filenames [] = []
ctrl_filenames (ed ∷ eds) = ed.ctrl_filename ∷ ctrl_filenames eds

unfoldable pub record_argv : PrivateData → List Text
record_argv pvt =
    codes "shcodecs-record"
    ∷ ((if pvt.do_preview then [] else codes "-P" ∷ []) ++ ctrl_filenames pvt.encdata)

-- One round of the loop of `shrecord_main`: what is read of each pipe that poll(2) says is ready goes to the
-- ring buffer of its encoder. `none` is a `ringbuffer_write` that leaves its block.
unfoldable pub poll_round : List (Option Text) → List EncodeData → Option (List EncodeData)
poll_round [] eds = some eds
poll_round (ready ∷ pfds) [] = some []
poll_round (none ∷ pfds) (ed ∷ eds) = do eds' ← poll_round pfds eds; some (ed ∷ eds')
poll_round (some buffer ∷ pfds) (ed ∷ eds) = do
  (n, rb) ← write ed.rb buffer
  eds' ← poll_round pfds eds
  some (record ed { rb = rb } ∷ eds')
