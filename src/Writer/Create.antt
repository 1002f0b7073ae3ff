-- ===== src/Writer/Create.antt =====
-- writer.go (folderWriter.Close, fileWriter.Write, fileWriter.Close, Writer.CreateHeader): the files of
-- an archive one by one. The writers below do not fail. What a folder compresses to is written when it
-- is closed: until then no other folder writes to the same place.
use sevenzip.Prelude.{
  ℕ, suc, ◌+◌, ◌*◌, ◌/◌, ◌%◌, ◌^◌, Bool, true, false, not, ◌&&◌, ◌||◌, Option, none, some, List, [],
  ◌∷◌, ◌++◌, length, get_elem?, modify, ltb, leb, if◌then◌else◌,
}
use sevenzip.Stream.{Bytes, Result, ok, err, bind, writer_closed, file_writer_closed, panic}
use sevenzip.Crc.{crc32}
use sevenzip.Files.{FileHeader, no_file}
use sevenzip.Files.Mode.{file_mode, is_dir}
use sevenzip.Writer.Aes.{new_aes_writer, aes_write, aes_close}
use sevenzip.Writer.State.{
  Environment, ArchiveFile, FolderWriter, FileWriter, Writer, is_concurrent,
}

module _ (env : Environment) where
  -- What an aesWriter makes of all that is written to it until Close.
  unfoldable pub encrypt : (salt iv : Bytes) → Bytes → Bytes
  encrypt salt iv s =
      (aes_close env.crypt
        (aes_write env.crypt (new_aes_writer env.crypt (env.cbc salt iv)) s)).sink

  unfoldable pub close_folder_writer : FolderWriter → FolderWriter
  close_folder_writer f =
      let compressed = env.compress f.dict_cap f.concurrency f.input in
      let output = if f.is_encrypted then encrypt f.salt f.iv compressed else compressed in
      if f.closed then f else record f {
        closed = true;
        output = output;
        comp_count = length output;
        unenc_comp = (if f.is_encrypted then length compressed else 0);
      }

  -- folderWriter.Close of folder number i, whose output goes to the archive unless it has a spool.
  unfoldable pub close_folder : ℕ → Writer → Writer
  close_folder i w = elim (get_elem? w.folders i) [
    | none ↦ w
    | some f ↦ if f.closed then w else record w {
      folders = modify close_folder_writer w.folders i;
      sink = (if is_concurrent w then w.sink else w.sink ++ (close_folder_writer f).output);
    }
  ]

  -- `fw.w.spools <- fw.fold`: a send on a closed channel panics.
  unfoldable pub send : ℕ → Writer → Result Writer
  send i w = elim (get_elem? w.folders i) [
    | none ↦ ok w
    | some f ↦
        if w.spools_open
        then ok (record w { arrived = w.arrived ++ ((f.seq, f.output) ∷ []) })
        else err panic
  ]

  -- The folder of a file writer that is closed.
  unfoldable pub close_own_folder : Option ℕ → Writer → Result Writer
  close_own_folder none w = ok w
  close_own_folder (some i) w =
      let w' = close_folder i w in
      if w.solid then ok w else if ltb 1 w.concurrency then send i w' else ok w'

  -- The sizes and the checksum that fileWriter.Close enters.
  unfoldable pub enter_sizes : FileWriter → ArchiveFile → ArchiveFile
  enter_sizes fw fi = record fi {
    uncomp_size = fw.uncomp_size;
    crc = crc32 fw.hashed;
    fh = record fi.fh { uncompressed_size = fw.uncomp_size; crc32 = crc32 fw.hashed };
  }

  -- fileWriter.Close of file writer number h.
  unfoldable pub close_file : ℕ → Writer → Result Writer
  close_file h w = elim (get_elem? w.writers h) [
    | none ↦ ok w
    | some fw ↦
        if fw.closed
        then ok w
        else bind
            (close_own_folder fw.fold
              (record w { writers = modify (λ x. record x { closed = true }) w.writers h }))
            λ w'. ok (record w' { files = modify (enter_sizes fw) w'.files fw.file })
  ]

  abbrev pub write_folder_input : Bytes → Option ℕ → List FolderWriter → List FolderWriter
  write_folder_input p none folders = folders
  write_folder_input p (some i) folders = modify (λ f. record f { input = f.input ++ p }) folders i

  -- fileWriter.Write on file writer number h.
  unfoldable pub write_file : ℕ → Bytes → Writer → Result Writer
  write_file h p w = elim (get_elem? w.writers h) [
    | none ↦ ok w
    | some fw ↦
        if fw.closed
        then err file_writer_closed
        else ok (record w {
          writers =
              modify
                (λ x. record x {
                  hashed = x.hashed ++ p;
                  uncomp_size = (x.uncomp_size + length p) % 2 ^ 64;
                })
                w.writers h;
          folders = write_folder_input p fw.fold w.folders;
        })
  ]

  -- The size of the dictionary. A size that is negative as an int64 counts as small.
  unfoldable pub choose_dict_cap : (solid : Bool) → (size : ℕ) → ℕ
  choose_dict_cap solid size =
      let cpus = if ltb env.num_cpu 1 then 1 else env.num_cpu in
      let share = if ltb size (2 ^ 63) then size / cpus else 0 in
      let target = if ltb share (1024 * 1024) then 1024 * 1024 else share in
      if not solid && ltb 0 size && ltb target (8 * 1024 * 1024)
      then env.decode_dict_cap (env.encode_dict_cap target)
      else 8 * 1024 * 1024

  unfoldable pub new_folder : FileHeader → (prop_byte dict_cap : ℕ) → Writer → FolderWriter
  new_folder fh prop_byte dict_cap w = record {
    files = [];
    file_count = 0;
    uncomp_size = 0;
    input = [];
    dict_cap = dict_cap;
    concurrency = (if w.solid || ltb (1024 * 1024) fh.uncompressed_size then 0 else 1);
    comp_count = 0;
    unenc_comp = 0;
    prop_byte = prop_byte;
    is_encrypted = w.encrypted;
    salt = (if w.encrypted then env.random w.calls 8 else []);
    iv = (if w.encrypted then env.random (suc w.calls) 16 else []);
    seq = length w.folders;
    output = [];
    closed = false;
  }

  -- `w.current.Close()` and `w.activeFold.Close()`, where files are written one at a time.
  unfoldable pub close_current : Writer → Result Writer
  close_current w = elim w.current [
    | none ↦ ok w
    | some h ↦ if w.solid || leb w.concurrency 1 then close_file h w else ok w
  ]

  unfoldable pub close_active : Writer → Writer
  close_active w = elim w.active_fold [
    | none ↦ w
    | some i ↦ if w.solid || leb w.concurrency 1 then close_folder i w else w
  ]

  -- The folder that the next file goes to: in a solid archive the one there is.
  unfoldable pub open_folder : FileHeader → (prop_byte dict_cap : ℕ) → Writer → Writer
  open_folder fh prop_byte dict_cap w =
      let w' = close_active w in
      let opened = record w' {
        folders = w'.folders ++ (new_folder fh prop_byte dict_cap w' ∷ []);
        active_fold = some (length w'.folders);
        calls = (if w.encrypted then w'.calls + 2 else w'.calls);
      } in
      elim w.active_fold [ none ↦ opened | some i ↦ if w.solid then w else opened ]

  abbrev pub add_to_folder : (size file : ℕ) → FolderWriter → FolderWriter
  add_to_folder size file f = record f {
    files = f.files ++ (file ∷ []);
    file_count = f.file_count + 1;
    uncomp_size = (f.uncomp_size + size) % 2 ^ 64;
  }

  -- The file writer for file number `file` in a folder, or with none; it becomes the current one.
  unfoldable pub add_writer : (file : ℕ) → Option ℕ → Writer → Writer
  add_writer file fold w = record w {
    writers =
        w.writers
        ++ (record { file = file; fold = fold; hashed = []; uncomp_size = 0; closed = false } ∷ []);
    current = some (length w.writers);
  }

  abbrev pub modify_folder :
      (FolderWriter → FolderWriter) → Option ℕ → List FolderWriter → List FolderWriter
  modify_folder f none folders = folders
  modify_folder f (some i) folders = modify f folders i

  -- The second half of CreateHeader, with the header entered as file number `file`.
  unfoldable pub place_file : FileHeader → (prop_byte dict_cap file : ℕ) → Writer → Writer
  place_file fh prop_byte dict_cap file w =
      let w' = open_folder fh prop_byte dict_cap w in
      let placed = record w' {
        folders = modify_folder (add_to_folder fh.uncompressed_size file) w'.active_fold w'.folders;
      } in
      if fh.is_empty_stream then add_writer file none w else add_writer file w'.active_fold placed

  -- CreateHeader: the file writer it returns is the Writer's current one.
  unfoldable pub create_header : FileHeader → Writer → Result Writer
  create_header fh w =
      if w.closed
      then err writer_closed
      else bind (close_current w) λ w'.
        let fh' = record fh { is_empty_stream = is_dir (file_mode fh); is_empty_file = false } in
        let dict_cap = choose_dict_cap w'.solid fh.uncompressed_size in
        let prop_byte = env.encode_dict_cap dict_cap in
        ok (
          place_file fh' prop_byte dict_cap (length w'.files) (record w' {
            files =
                w'.files
                ++ (record { fh = fh'; prop_byte = prop_byte; uncomp_size = 0; crc = 0 } ∷ []);
          }))

  -- Create: the header has a name only.
  unfoldable pub create : (name : List ℕ) → Writer → Result Writer
  create name w = create_header (record no_file { name = name }) w
