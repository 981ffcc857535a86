-- ===== src/Lib.antt =====
-- sighttpd, a small HTTP server for texts and media streams, as far as its own logic is pure or a
-- change of its own data. The sources are under src/ of the repository.
--
-- What a request meets: src/http-reqline.c reads its first line, src/params.c its header lines;
-- src/http-response.c asks a list of resources for the one that answers and writes the status line
-- (src/http-status.c), the headers (src/params.c) and the body. The list is made from the
-- configuration: src/cfg-parse.c finds blocks and assignments in a file, and src/cfg-read.c, which
-- it calls back, puts the assignments into a dictionary (src/dictionary.c), which is sixteen binary
-- trees (src/x_tree.c). Streams pass from one writer to several readers through a ring buffer
-- (src/ringbuffer.c).
--
-- The files:
--   Prelude: shared names, texts as the bytes of a C string before its NUL with what the code uses
--     of <string.h> (Prelude/CString), lists and tests over the native naturals, `%d` of printf
--     (Prelude/Decimal), and `%x`, atoi and sscanf (Prelude/Scan, Prelude/Atoi).
--   Memory: a block of bytes with copies that fail behind its end.
--   Ringbuffer: `struct ringbuffer` and the operations on positions; Ringbuffer/Transfer has
--     ringbuffer_read, _write, _readfd and _writefd. Circular and Valid say what a reader's
--     position stands for; Write, Read, Send, Fill and Descriptors are about the operations.
--   Params: params_get, _append, _replace, _merge, _remove and _foreach; Params/Print has
--     params_snprint, Params/Parse the parser of items, Params/Headers that of header blocks (Canon:
--     its loop ends; Lines: lines that end in LF; Fits: lines that end in CRLF).
--   Request: http_request_parse.
--   Status: http_status_line, and the page of a status. Resource: `struct resource`, with the
--     resources of src/statictext.c, src/status.c and src/flim.c. Response: respond of
--     src/http-response.c. Response/Serve has the loop of http_response over what read(2) answers,
--     with its buffer; Spans, Tail, Behind, Rounds, Reads and Cut are about it.
--   Tree: src/x_tree.c, with the steps from node to node in Tree/Walk. Dictionary:
--     src/dictionary.c.
--   Copa: src/cfg-parse.c. Copa has the state of the parser with its buffer and its escapes,
--     Copa/Parse the functions from copa_next to copa_read_fd. Next, Reads, Blocks, Lines and Line
--     relate them to the text that the parser is about to see; Grammar has the lines of a file,
--     Decide a test for them, and RoundTrip is about whole files. Ends, Readers, Progress and Total
--     are about any input: what is left to read gets less with every character and with every line.
--   Config: src/cfg-read.c, with the status that src/cfg-parse.c keeps between its calls back, and
--     the order of the resources in sighttpd_init of src/sighttpd.c. Config/Read has cfg_read,
--     where the parser and the functions that it calls back come together.
--   Server: src/main.c up to the socket, its loop over clients, and sighttpd_init of
--     src/sighttpd.c. Start is about the port and the resources that it starts with.
--   Date: httpdate_snprint of src/http-date.c, with its width in Date/Width. Log: log_access of
--     src/log.c.
--   Links: src/list.c over a store of nodes. Chain says when nodes are linked in both directions,
--     Remove, Append, Insert and Walk are about the functions, and Plain and Refine compare the
--     calls that change a list with the same on plain lists, which is how the other parts have
--     their lists.
--   Stream: src/fdstream.c and the loop of src/stream.c, as steps of the threads on the ring
--     buffer.
--   Ogg: src/ogg-stdin.c, with what libogg and liboggz tell of a page given. Tracker, Pages, File,
--     Collect and Headers are about the header pages of streams that begin together, Chained about
--     what comes after.
--   Recorder: src/shrecord.c, with its encoders as a list. Encoders is about the array and about
--     what goes into the ring buffers.
--   Shell: src/shell.c. Kongou: the array of fields of src/kongou.c and how it is filled;
--     where a name fills its array, what reads it goes on in the number behind it, lowest byte first.
--     Kongou/Page has what is written to the client and the commands that are run. Uiomux:
--     src/uiomux.c.
--   The Tests of a part run its theorems on concrete data.
--
-- How state is modelled: an operation takes the state and returns the new one. A write outside of a
-- block, or one to a buffer at its end, is the outcome `none`, `overflow` or `stray`. Null pointers
-- are `none`. The calls read(2) and write(2) are functions that the client gives, from the number
-- of bytes asked for to the answer; in src/cfg-parse.c and in http_response what read(2) answers is
-- a list. An `int` that may be negative is the natural below 2 ^ 32 that stands for it in two's
-- complement. Memory never runs out.
--
-- Loops that need not end take fuel: the loop of params_new_parse_delim and that of
-- headers_canonicalize. One round for each byte of the input and one more are enough for both; the
-- first may run on with any fuel, and is `none` then. The loops of src/cfg-parse.c take fuel from
-- one budget: a round takes a byte of the buffer or a character that was pushed back, and a byte is
-- pushed back once, so that sixteen rounds for each filling of its eight bytes are enough. Those of
-- src/list.c take one round for each node. An `int` has ten digits at most, which is the fuel of
-- its printing.
--
-- Parameters: the hash of src/jhash.c, which is third-party code; the bytes that stand at the
-- address of a new `Variable`, which src/dictionary.c reads as a name; the date and the version in
-- a response; the output of a command and whether system(3) fails; what libogg and liboggz tell of
-- a page; the bytes that a buffer on the stack holds before it is written.
--
-- Not modelled: races within a step of a thread, sockets, signals and processes, the parent links
-- that the changes of src/x_tree.c set (Tree/Walk has them as the way up from a node), what opens
-- the log files, httpdate_parse, and the release of memory outside of src/list.c.
pub mod Prelude
pub mod Params
pub mod Memory
pub mod Ringbuffer
pub mod Shell
pub mod Kongou
pub mod Uiomux
pub mod Request
pub mod Tree
pub mod Dictionary
pub mod Status
pub mod Resource
pub mod Response
pub mod Copa
pub mod Config
pub mod Server
pub mod Date
pub mod Log
pub mod Links
pub mod Stream
pub mod Ogg
pub mod Recorder
