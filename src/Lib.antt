-- ===== src/Lib.antt =====
-- A verification library for mrksvnup, a light Subversion client written in C.
--
-- The program updates a working directory from a Subversion server. Over svn:// it speaks the ra_svn
-- protocol: lists of numbers, words and strings, which a tokenizer reads from a byte stream
-- (src/svnproto_unpack.c) and small functions write. Over http:// it sends WebDAV requests through a
-- HTTP client (src/http.c, src/dav.c). In both cases the server drives an editor (src/svnedit.c),
-- whose file changes come as svndiff documents (src/svndiff.c): a document arrives in chunks, is
-- parsed into windows, and each window, with the file's old contents, yields a piece of the new file.
--
-- The files:
-- Base: shared names; tests and conditionals, lists measured by native numbers, the outcomes of C
--   code (`ok`, `fail k` for an error value, `fault` for an access outside an object or another
--   behaviour that C leaves open, `stuck` for fuel that ran out), 64-bit integers, buffers.
-- Svndiff: src/svndiff.c and src/mrksvnup/svndiff.h. Svndiff.Number is decode_number, Svndiff.Insn
--   is decode_insn and the loop over an instructions section, Svndiff.Section is decode_bytes,
--   Svndiff.Doc has svndiff_doc_t and svndiff_wnd_t, Svndiff.Parse is svndiff_parse_doc, a round of
--   its loop being `step_in` with a clause for each state, and Svndiff.Tview is svndiff_build_tview.
--   A cursor is the bytes from `start` on, with the number of them before `end`; more bytes may
--   stand behind `end`, as they do in the buffer of a caller.
-- Proto: src/svnproto_unpack.c and src/mrksvnup/svnproto.h. Proto.Stream is the interface of the
--   byte stream, Proto.Tokenizer is parse_one_value, a function for each arm of its chain of tests,
--   Proto.Reader is read_one_value, with bytestream_consume_data as a parameter, and Proto.Pack has
--   the packers of src/svnproto_pack.c, over an interface for the output side. Proto.Unpack is
--   svnproto_vunpack, over an interface for read_one_value: a caller's memory is a type, a pointer
--   argument a way to store into it, and a callback a function of the stream and the memory. The
--   interface is filled by read_one_value, byte_chunk and the other reads of the range
--   (Proto.Reader.Spelled); Proto.Reader.Laws has the laws of it, for tokens that stand in the
--   buffer, and Proto.Reader.Texts the text of tokens. The runs of Proto are on that reader.
--   Proto.Unpack.Formats has formats as data and the relation that says what they read.
--   Proto.Requests has the callbacks that pack the requests (src/svnproto_*.c), and the protocol's
--   requests as rows of tokens (Proto.Requests.Grammar). Proto.Client is the other half of those
--   files: svnproto_command_response (Proto.Client.Response), svnproto_check_auth (Proto.Client.Auth)
--   and the functions that send a request and take its reply (Proto.Client.Commands, Listing and
--   Files), on the parts of svnc_ctx_t that they change. Proto.Client.Endings has what these
--   functions can end with.
--   The stream belongs to the library mrkcommon, which is not part of the repository: its macros are
--   operations of a record, and their laws speak of a view (bytes, position, end of data).
--   Proto.Editor is src/svnproto_editor.c: Proto.Editor.Commands has the function of each command,
--   with the name that it has in C, Proto.Editor.Dispatch the chain of tests (`run_command`), its two
--   callbacks, the loop, and svnproto_editor. Proto.Editor.Edits has the commands as data, with their
--   tokens, and Proto.Editor.Meaning has their effect on the editor.
-- Svnedit: src/svnedit.c, with svnc_save_checksum and svnc_delete_checksum of src/svnc.c. The static
--   variables are the record `Edit`, and Svnedit.System has the calls of the system on a world.
--   Svnedit.Entries has the functions on directories, Svnedit.Files those on the open file, and
--   Svnedit.Close and Svnedit.Complete the parts of svnedit_close_file, whose gotos are the type
--   `Part`. Svnedit.FileStore states what is asked of an open file, whose writes are whole, and of
--   MD5, and Svnedit.OneFile is a system that has it.
-- Http: http_urlencode_reserved, http_urldecode (Http.Url), findcrlf (Http.Crlf) and the functions
--   that write a request (Http.Request) of src/http.c.
-- Util: src/svnc_util.c. Util.Kinds is svnc_kind2int and svnc_kind2str, Util.Url is svn_url_parse, and
--   Util.Hex is bin2hex and all_spaces.
-- Xmatch: src/xmatch.c, the patterns of names that the XML handlers use.
-- The modules named Runs hold runs at concrete inputs.
--
-- Parameters: zlib's uncompress (Svndiff.Section), pread (Svndiff.Tview), the byte stream
-- with its output operations, bytestream_consume_data and bytestream_recycle (Proto.Reader), bytestream_produce_data and
-- bytestream_rewind (Proto.Client), strtoimax (Util.Url), array_decr, and array_cmp with its
-- comparison of strings (Xmatch), the result of bytestream_cat where it is no error (Http.Request), what
-- array_fini leaves in an array, the calls of the system, MD5, traverse_dir, path_join, the database
-- of checksums and the shadow connection (Svnedit.System), and the bytes behind a chunk of a document
-- in the buffer of the stream (Proto.Editor).
--
-- Bounds: `long` and `size_t` are 64 bits wide, and their conversions are written out; a sum of two
-- values of type `long`, whose overflow C leaves open, is taken in the integers. Loops whose end is
-- not structural run on fuel: two rounds a byte, and two, for svndiff_parse_doc, as only the round
-- that opens a window takes no byte, and for parse_one_value, as only the round behind the last byte
-- of a string takes none; for http_urldecode the number of places in which its string ends, while the counters of
-- http_urlencode_reserved, of 32 bits, wrap as in the source; for
-- read_one_value one unit for each time that it asks for data, which no bound limits; for the
-- loops of repeated items one unit for each value; for xmatch_init the number of bytes of its pattern.
-- The fuel of Proto.Client is one for all formats, and its theorems ask for one unit for each token;
-- the reads of a file have one unit for each byte and one for the end.
--
-- Not modelled: allocation failures, which end the program; traces; the parts of the program not
-- named above, that is the new connection of get-file, the parser of HTTP responses, WebDAV, the
-- walk over the cache of checksums, the connection and the command line.
pub mod Base
pub mod Svndiff
pub mod Proto
pub mod Http
pub mod Util
pub mod Xmatch
pub mod Svnedit
