-- ===== src/Lib.antt =====
-- A model of the sevenzip library (package sevenzip, in Go): the code that reads and writes a 7-zip
-- archive, and the theorems that relate the two.
--
-- The header is a tree of tagged sections. types.go parses it, write_struct.go and write_types.go
-- produce it, and struct.go holds its data. The parts and the files that model them:
--
--   Stream        the reader that the parsers take (internal/util/reader.go), the errors of types.go
--                 and the parser monad; little-endian integers (encoding/binary)
--   Number        checkUint64, readUint64, readUint64Bounded; writeUint64
--   Vectors       readBool, readOptionalBool, readSizes, readCRC and their writers
--   PropertyId    the identifiers of the sections
--   Sections      the optional sections that all the structures share
--   Pack, Coder, Folder, Unpack, SubStreams, Streams
--                 one structure each: the record of struct.go, its reader of types.go and its writer
--                 of write_struct.go; Streams calls the others as the code does
--   Files         FileHeader, readTimes, readNames, readAttributes; timeToFiletime. Files/Read has
--                 readFilesInfo and Files/Write has writeFilesInfo; Files/Times and Files/Names are
--                 about the times and the names read back, Files/Utf16 has UTF-16 by its definition,
--                 and Files/Props goes through the properties one by one, to the whole section
--   Header        readHeader, readEncodedHeader and writeHeader, from Streams, Files and Lookup
--   Lookup        FileFolderAndSize and folderOffset (struct.go): where a file lies
--   Files/Mode    Mode, msdosModeToFileMode and unixModeToFileMode (struct.go)
--   Crc           the CRC-32 of hash/crc32, and CRC32Equal (internal/util/checksum.go)
--   Pool          the readers kept for reuse (internal/pool/pool.go); Pool/Laws compares it with a
--                 list of entries
--   Writer        writer.go and spool.go. Writer/State has the state of a Writer and of its folders and
--                 files, Writer/Create has CreateHeader and the calls on a file, Writer/Close the end of
--                 an archive, Writer/Describe the header that stands there; Writer/Spool, Writer/Aes and
--                 Writer/Coordinator are spoolWriter, aesWriter and coordinator. Writer/Layout and
--                 Writer/Placement are about the files and folders along sequences of calls, and about
--                 the reader (Header, Lookup) on the header that they lead to
--   Start         signatureHeader and startHeader (struct.go), as they are written and read
--   Reader        reader.go: Reader/Signature is findSignature, Reader/Front is init up to the header,
--                 Reader/Files gives the files their folders and offsets, Reader/Content is
--                 folderReadCloser (struct.go) and fileReader.Read. Reader/Opens is about archives that
--                 the Writer made. Reader/Listing is the sorted list of files as a file system: split,
--                 openLookup, openReadDir and ReadDir
--   Branch        the branch filters (internal/bra): Branch has the words and the loop that four of them
--                 share, Branch/Arm, Arm64, Ppc and Sparc their instructions, Branch/Bcj the x86, and
--                 Branch/Reader the reader in front of a converter. Branch/Filters is about the four
--                 filters together and behind that reader
--   Bcj2          the BCJ2 filter (internal/bcj2/reader.go), with its range decoder; Bcj2/Reader is its
--                 Read and Close
--   Delta         the Delta filter (internal/delta/reader.go); Delta/Reference compares it with a queue
--
-- Bits has the laws of the bit operations, Prelude the shared names. Tests runs the code on concrete
-- inputs and applies each theorem at one.
--
-- How the code corresponds to the model. A parser is a function from the bytes that the source still
-- holds to a result and the bytes left; the source fails with nothing but EOF. A writer is the list of
-- bytes that it appends, since headers are written into a bytes.Buffer. A run-time panic of Go is an
-- error value of its own. One call of Read may deliver fewer bytes than asked: how many is a parameter,
-- a `Grant`, and theorems that need full buffers say so (`FillsBuffer`). A uint64 is a number, with
-- its wrap-around written out; int has 64 bits. A Go slice that is nil is an empty list.
-- Loops are recursions on a count or a list. The loop of readFilesInfo has no count: it is a recursion
-- on rounds, as many as there are bytes left, and each round reads one at least. The scanner of
-- readNames has as many rounds as there are runes, and each token uses one up. Close has as many as
-- there are elements. The loop of aesWriter has as many rounds as there are bytes, and takes 16 in each;
-- that of the coordinator as many as folders wait, and deletes one in each.
-- findSignature looks at 256 chunks, as the code does, and goes past a byte in each round of its inner
-- loop. The outer loop of the Delta filter has as many rounds as there are bytes, which is enough unless
-- its distance is 0. Convert of the x86 filter has as many rounds as there are bytes, and goes a byte
-- further in each; sort.Search as many as there are entries, and halves the range in each.
--
-- What is outside the repository is a parameter: the decoder of UTF-16 (golang.org/x/text) and
-- Filetime.Nanoseconds (github.com/bodgit/windows). A time.Time is the nanoseconds since the start of
-- year 1, a name is the runes of a string of valid UTF-8. The pool's mutex makes each of its calls one
-- step; what its readers are does not matter to it.
--
-- The Writer's parameters are the record Environment: the LZMA2 compressor (github.com/unxed/xz/lzma)
-- as a function of all that is written to it, the AES block cipher in CBC mode, crypto/rand and runtime.NumCPU. Its
-- calls are steps, as its mutexes make them; a folder's output reaches the archive when the folder is
-- closed, since nothing else writes there meanwhile. The channel to the coordinator is the list of
-- what was sent. A pointer is a number in a list. A
-- decoder is the record Delivery: how much a call of Read gets, and whether io.EOF comes with the last
-- bytes.
-- The readers below a filter are lists of bytes that end with io.EOF; for internal/bra they may also end
-- with an error. When the bytes.Buffer of the BCJ2 filter is full is a parameter of each call. A buffer
-- of the x86 filter is shorter than 4 GiB, as is one of the BCJ2 filter's.
-- Not modelled: in the Reader, the decoding of an encoded header, the volumes and initFileList, which
-- makes the list of files; the wiring of decoders in folderReader, and the adapters around the decoders
-- of other libraries. In the Writer: errors of the writers below,
-- except for the creation of the spool's temporary file and the coordinator's copies; the pool of compressors; the
-- caller's FileHeader, which CreateHeader also marks as it marks its copy.
-- compCount.n counts while a folder is written; here it is set when the folder is closed, so it is 0 for
-- a folder that the caller leaves open. Writing to the spool's temporary file does not fail.
pub mod Prelude
pub mod Bits
pub mod Stream
pub mod Number
pub mod Vectors
pub mod PropertyId
pub mod Sections
pub mod Pack
pub mod Coder
pub mod Folder
pub mod Unpack
pub mod SubStreams
pub mod Streams
pub mod Lookup
pub mod Files
pub mod Header
pub mod Crc
pub mod Start
pub mod Writer
pub mod Reader
pub mod Branch
pub mod Bcj2
pub mod Delta
pub mod Pool
mod Tests
