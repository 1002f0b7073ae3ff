-- ===== src/Tests/Lookup.antt =====
-- Where the files of three folders lie (struct.go).
use sevenzip.Prelude.{◌+◌, ◌≡◌, refl, some, none, [], ◌∷◌, arith, List, ℕ}
use sevenzip.Stream.{ok}
use sevenzip.Pack.{PackInfo}
use sevenzip.Unpack.{UnpackInfo}
use sevenzip.Streams.{StreamsInfo}
use sevenzip.Lookup.{folder_offset, locate, file_folder_and_size, sub_stream_of}
use sevenzip.Lookup.Laws.{Contains, locate-Contains}
use sevenzip.Lookup.Offset.{folder_offset-sum}
use sevenzip.Tests.Header.{encrypted, streams}

-- The second folder is empty, so the third holds the file after the first folder's two.
abbrev counts : List ℕ
counts = 2 ∷ 0 ∷ 3 ∷ []

third : locate counts 0 0 2 (0, 1) ≡ (2, 3)
unfolding locate
third = refl

locate-Contains_example : Contains counts 2 (locate counts 0 0 2 (0, 1))
locate-Contains_example = locate-Contains counts 2 (omega arith) (omega arith)

second_file : file_folder_and_size streams 1 ≡ ok (0, 1000, 5)
unfolding file_folder_and_size locate sub_stream_of
second_file = refl

abbrev unpack_two : UnpackInfo
unpack_two = record { folder = encrypted ∷ encrypted ∷ []; digest = [] }

abbrev pack_two : PackInfo
pack_two = record { position = 64; streams = 2; size = 4096 ∷ 512 ∷ []; digest = [] }

abbrev two : StreamsInfo
two = record { pack_info = some pack_two; unpack_info = some unpack_two; sub_streams_info = none }

-- The second folder's stream lies behind the first one's.
folder_offset-sum_example : folder_offset two 1 ≡ ok (64 + 4096)
folder_offset-sum_example =
    folder_offset-sum two unpack_two pack_two 1 refl refl (omega arith) (omega arith) (omega arith)
      (omega arith)
