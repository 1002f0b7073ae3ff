-- ===== src/Tests/Header.antt =====
-- The structures of the header (types.go, write_struct.go) on concrete inputs: an archive with one
-- encrypted folder of two files, as Writer.Close describes it.
use sevenzip.Prelude.{suc, ◌≡◌, refl, some, [], ◌∷◌, ◌++◌, arith, inr}
use sevenzip.PropertyId
use sevenzip.Stream.{Grant, FillsBuffer, ok, err, panic}
use sevenzip.Vectors.{write_sizes}
use sevenzip.Pack.{PackInfo}
use sevenzip.Coder.{Coder}
use sevenzip.Coder.RoundTrip.{IsCoder}
use sevenzip.Folder.{
  Folder, read_folder, write_folder, total_from, unpack_size, last_unbound, find_out_bind_pair,
  unbound_inputs, find_in_bind_pair,
}
use sevenzip.Folder.RoundTrip.{IsFolder, read_folder-write_folder}
use sevenzip.Unpack.{UnpackInfo}
use sevenzip.SubStreams.{SubStreamsInfo, read_sub_streams_info, write_sub_streams_info, has_size}
use sevenzip.SubStreams.RoundTrip.{
  IsSubStreamsInfo, read_back_size, read_sub_streams_info-write_sub_streams_info,
}
use sevenzip.SubStreams.Overflow.{read_sub_streams_info_panic}
use sevenzip.Streams.{StreamsInfo}

-- A reader that fills every buffer, and one that delivers a byte at a time.
abbrev pub whole : Grant
whole n s = n

abbrev one_byte : Grant
one_byte n s = 1

pub whole_fills : FillsBuffer whole
whole_fills n s h = omega arith

abbrev pack : PackInfo
pack = record { position = 0; streams = 1; size = 4096 ∷ []; digest = [] }

abbrev aes : Coder
aes = record {
  id = 0x06 ∷ 0xf1 ∷ 0x07 ∷ 0x01 ∷ [];
  in_streams = 1;
  out_streams = 1;
  properties = 0xd3 ∷ 0x7f ∷ [];
}

abbrev lzma2 : Coder
lzma2 = record { id = 0x21 ∷ []; in_streams = 1; out_streams = 1; properties = 0x18 ∷ [] }

aes-IsCoder : IsCoder aes
aes-IsCoder = omega arith

abbrev pub encrypted : Folder
encrypted = record {
  in_streams = 2;
  out_streams = 2;
  packed_streams = 1;
  coder = aes ∷ lzma2 ∷ [];
  bind_pair = record { in_index = 1; out_index = 0 } ∷ [];
  size = 4090 ∷ 10000 ∷ [];
  packed = 0 ∷ [];
}

encrypted-IsFolder : IsFolder encrypted
unfolding total_from unbound_inputs find_in_bind_pair
encrypted-IsFolder = record {
  coder_count = omega arith;
  coder_fits = omega arith;
  in_total = refl;
  out_total = refl;
  in_count = omega arith;
  out_count = omega arith;
  enough_inputs = omega arith;
  pair_count = refl;
  pair_fits = omega arith;
  packed_total = refl;
  packed_one = λ e. refl;
  packed_many = λ h. omega arith;
  packed_fits = omega arith;
}

abbrev unpack : UnpackInfo
unpack = record { folder = encrypted ∷ []; digest = [] }

abbrev pub sub : SubStreamsInfo
sub = record { streams = 2 ∷ []; size = 9000 ∷ 1000 ∷ []; digest = 0xdeadbeef ∷ 5 ∷ [] }

encrypted_unpacks : unpack_size encrypted ≡ 10000
unfolding unpack_size last_unbound find_out_bind_pair
encrypted_unpacks = refl

sub-IsSubStreamsInfo : IsSubStreamsInfo (encrypted ∷ []) sub
sub-IsSubStreamsInfo = record {
  streams_counted = refl;
  streams_fit = omega arith;
  files_fit = omega arith;
  sizes_split = λ e. (
    9000 ∷ [],
    1000,
    [],
    refl,
    refl,
    omega arith,
    omega (arith, encrypted_unpacks),
    omega (arith, encrypted_unpacks),
    refl,
  );
  digest_counted = inr refl;
  digest_fits = omega arith;
}

read_sub_streams_info-write_sub_streams_info_example :
    read_sub_streams_info (encrypted ∷ []) (write_sub_streams_info sub ++ (7 ∷ []))
    ≡ ok (record sub { size = read_back_size sub }, 7 ∷ [])
read_sub_streams_info-write_sub_streams_info_example =
    read_sub_streams_info-write_sub_streams_info (encrypted ∷ []) sub (7 ∷ []) sub-IsSubStreamsInfo

both_sizes_back : read_back_size sub ≡ 9000 ∷ 1000 ∷ []
unfolding read_back_size has_size
both_sizes_back = refl

-- Two folders that claim 2 ^ 64 - 1 and 2 files, together one.
read_sub_streams_info_panic_example :
    read_sub_streams_info (encrypted ∷ encrypted ∷ []) (
      PropertyId.num_unpack_stream
      ∷ (write_sizes (suc 0xffff_ffff_ffff_fffe ∷ 2 ∷ [])
          ++ (PropertyId.size ∷ (write_sizes (5 ∷ []) ++ (7 ∷ [])))))
    ≡ err panic
unfolding total_from
read_sub_streams_info_panic_example =
    read_sub_streams_info_panic encrypted (encrypted ∷ []) 0xffff_ffff_ffff_fffe (2 ∷ []) (5 ∷ [])
      (7 ∷ []) refl (omega arith) (omega arith) refl (omega arith) (omega arith)

abbrev pub streams : StreamsInfo
streams = record { pack_info = some pack; unpack_info = some unpack; sub_streams_info = some sub }

read_folder-write_folder_example :
    read_folder whole (write_folder encrypted ++ (7 ∷ []))
    ≡ ok (record encrypted { size = [] }, 7 ∷ [])
read_folder-write_folder_example =
    read_folder-write_folder whole encrypted (7 ∷ []) whole_fills encrypted-IsFolder
