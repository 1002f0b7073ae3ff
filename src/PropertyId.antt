-- ===== src/PropertyId.antt =====
-- types.go: the identifiers of the header's properties (the constants from idEnd on).
use Prim.Native.Nat.{ℕ}

abbrev pub end : ℕ
end = 0

abbrev pub header : ℕ
header = 1

abbrev pub archive_properties : ℕ
archive_properties = 2

abbrev pub additional_streams_info : ℕ
additional_streams_info = 3

abbrev pub main_streams_info : ℕ
main_streams_info = 4

abbrev pub files_info : ℕ
files_info = 5

abbrev pub pack_info : ℕ
pack_info = 6

abbrev pub unpack_info : ℕ
unpack_info = 7

abbrev pub sub_streams_info : ℕ
sub_streams_info = 8

abbrev pub size : ℕ
size = 9

abbrev pub crc : ℕ
crc = 10

abbrev pub folder : ℕ
folder = 11

abbrev pub coders_unpack_size : ℕ
coders_unpack_size = 12

abbrev pub num_unpack_stream : ℕ
num_unpack_stream = 13

abbrev pub empty_stream : ℕ
empty_stream = 14

abbrev pub empty_file : ℕ
empty_file = 15

abbrev pub anti : ℕ
anti = 16

abbrev pub name : ℕ
name = 17

abbrev pub ctime : ℕ
ctime = 18

abbrev pub atime : ℕ
atime = 19

abbrev pub mtime : ℕ
mtime = 20

abbrev pub win_attributes : ℕ
win_attributes = 21

abbrev pub comment : ℕ
comment = 22

abbrev pub encoded_header : ℕ
encoded_header = 23

abbrev pub start_pos : ℕ
start_pos = 24

abbrev pub dummy : ℕ
dummy = 25
