-- ===== src/Streams/RoundTrip.antt =====
-- The round trip of readStreamsInfo (types.go) and writeStreamsInfo (write_struct.go).
use sevenzip.Prelude.{
  ℕ, ◌≡◌, ◌≢◌, refl, true, false, Option, none, some, ◌∷◌, ◌++◌, append_assoc, arith,
}
use sevenzip.PropertyId
use sevenzip.Stream.{Bytes, Grant, FillsBuffer, ok}
use sevenzip.Sections.{
  Avoids, Avoids-write_section, read_byte-Avoids, section-write_section, write_section, section,
  finish, first, others,
}
use sevenzip.Pack.{PackInfo, read_pack_info, write_pack_info}
use sevenzip.Pack.RoundTrip.{IsPackInfo, read_pack_info-write_pack_info}
use sevenzip.Unpack.{UnpackInfo, read_unpack_info, write_unpack_info}
use sevenzip.Unpack.RoundTrip.{IsUnpackInfo, read_unpack_info-write_unpack_info}
use sevenzip.SubStreams.{SubStreamsInfo, write_sub_streams_info}
use sevenzip.SubStreams.RoundTrip.{
  IsSubStreamsInfo, read_back_size, read_sub_streams_info-write_sub_streams_info,
}
use sevenzip.Streams.{
  StreamsInfo, present, is_present, written, read_sub_streams_section, read_streams_info,
  write_streams_info,
}

abbrev pub Holds {ℓ κ} : {A : Type ℓ} → (A → Type κ) → Option A → Type κ
Holds P none = Unit
Holds P (some a) = P a

-- What stands in the section of the files agrees with the folders; without folders there is none.
abbrev pub IsSubSection : Option UnpackInfo → Option SubStreamsInfo → Type 0
IsSubSection unpack none = Unit {0}
IsSubSection none (some s) = ⊥
IsSubSection (some u) (some s) = IsSubStreamsInfo u.folder s

pub record IsStreamsInfo (s : StreamsInfo) : Type 0 where
  pub pack_fits : Holds IsPackInfo s.pack_info
  pub unpack_fits : Holds IsUnpackInfo s.unpack_info
  pub sub_fits : IsSubSection s.unpack_info s.sub_streams_info

-- What the reader makes of it: sizes that are not written are missing.
unfoldable pub sub_back : Option SubStreamsInfo → Option SubStreamsInfo
sub_back none = none
sub_back (some sub) = some (record sub { size = read_back_size sub })

abbrev pub read_back : StreamsInfo → StreamsInfo
read_back s = record s { sub_streams_info = sub_back s.sub_streams_info }

pack_reads :
    (o : Option PackInfo) (s : Bytes)
    → Holds IsPackInfo o
    → is_present o ≡ true
    → present read_pack_info (written write_pack_info o ++ s) ≡ ok (o, s)
pack_reads none s h e = cc
pack_reads (some p) s h e = rw (read_pack_info-write_pack_info p s h)

unpack_reads :
    (grant : Grant) (o : Option UnpackInfo) (s : Bytes)
    → FillsBuffer grant
    → Holds IsUnpackInfo o
    → is_present o ≡ true
    → present (read_unpack_info grant) (written write_unpack_info o ++ s) ≡ ok (o, s)
unpack_reads grant none s fills h e = cc
unpack_reads grant (some u) s fills h e = rw (read_unpack_info-write_unpack_info grant u s fills h)

sub_reads :
    (unpack : Option UnpackInfo) (o : Option SubStreamsInfo) (s : Bytes)
    → IsSubSection unpack o
    → is_present o ≡ true
    → read_sub_streams_section unpack (written write_sub_streams_info o ++ s) ≡ ok (sub_back o, s)
unfolding read_sub_streams_section sub_back
sub_reads unpack none s h e = cc
sub_reads none (some sub) s h e = absurd h
sub_reads (some u) (some sub) s h e =
    rw (read_sub_streams_info-write_sub_streams_info u.folder sub s h)

absent {ℓ} : {A : Type ℓ} (o : Option A) → is_present o ≡ false → o ≡ none
absent none e = refl
absent (some a) e = cc

sub_absent : (o : Option SubStreamsInfo) → is_present o ≡ false → sub_back o ≡ none
unfolding sub_back
sub_absent none e = refl
sub_absent (some a) e = cc

module _ (s : StreamsInfo) (rest : Bytes) where
  from_end : Bytes
  from_end = PropertyId.end ∷ rest

  from_sub : Bytes
  from_sub =
      write_section PropertyId.sub_streams_info (is_present s.sub_streams_info)
        (written write_sub_streams_info s.sub_streams_info)
      ++ from_end

  from_unpack : Bytes
  from_unpack =
      write_section PropertyId.unpack_info (is_present s.unpack_info)
        (written write_unpack_info s.unpack_info)
      ++ from_sub

  from_pack : Bytes
  from_pack =
      write_section PropertyId.pack_info (is_present s.pack_info)
        (written write_pack_info s.pack_info)
      ++ from_unpack

  written_sections : write_streams_info s ++ rest ≡ from_pack
  unfolding write_streams_info from_pack from_unpack from_sub from_end
  written_sections = simp append_assoc

  sub-Avoids :
      (tag : ℕ) → PropertyId.sub_streams_info ≢ tag → PropertyId.end ≢ tag → Avoids tag from_sub
  unfolding from_sub from_end
  sub-Avoids tag ns ne = Avoids-write_section tag PropertyId.sub_streams_info _ _ from_end ns ne

  unpack-Avoids :
      (tag : ℕ)
      → PropertyId.unpack_info ≢ tag
      → PropertyId.sub_streams_info ≢ tag
      → PropertyId.end ≢ tag
      → Avoids tag from_unpack
  unfolding from_unpack
  unpack-Avoids tag nu ns ne =
      Avoids-write_section tag PropertyId.unpack_info _ _ from_sub nu (sub-Avoids tag ns ne)

  pack-Avoids : Avoids PropertyId.dummy from_pack
  unfolding from_pack
  pack-Avoids =
      Avoids-write_section PropertyId.dummy PropertyId.pack_info _ _ from_unpack
        (λ e. omega (arith, e))
        (unpack-Avoids PropertyId.dummy (λ e. omega (arith, e)) (λ e. omega (arith, e))
          (λ e. omega (arith, e)))

  module _ (grant : Grant) (fills : FillsBuffer grant) (h : IsStreamsInfo s) where
    pack_part :
        section PropertyId.pack_info none
          (present read_pack_info)
          (first from_pack)
          (others from_pack)
        ≡ ok ((s.pack_info, first from_unpack), others from_unpack)
    unfolding from_pack
    pack_part =
        section-write_section PropertyId.pack_info (is_present s.pack_info)
          (written write_pack_info s.pack_info) from_unpack none s.pack_info
          (present read_pack_info)
          (unpack-Avoids _ (λ e. omega (arith, e)) (λ e. omega (arith, e)) (λ e. omega (arith, e)))
          (pack_reads s.pack_info from_unpack h.pack_fits) (absent s.pack_info)

    unpack_part :
        section PropertyId.unpack_info none
          (present (read_unpack_info grant))
          (first from_unpack)
          (others from_unpack)
        ≡ ok ((s.unpack_info, first from_sub), others from_sub)
    unfolding from_unpack
    unpack_part =
        section-write_section PropertyId.unpack_info (is_present s.unpack_info)
          (written write_unpack_info s.unpack_info) from_sub none s.unpack_info
          (present (read_unpack_info grant))
          (sub-Avoids _ (λ e. omega (arith, e)) (λ e. omega (arith, e)))
          (unpack_reads grant s.unpack_info from_sub fills h.unpack_fits) (absent s.unpack_info)

    sub_part :
        section PropertyId.sub_streams_info none
          (read_sub_streams_section s.unpack_info)
          (first from_sub)
          (others from_sub)
        ≡ ok ((sub_back s.sub_streams_info, PropertyId.end), rest)
    unfolding from_sub from_end
    sub_part =
        section-write_section PropertyId.sub_streams_info (is_present s.sub_streams_info)
          (written write_sub_streams_info s.sub_streams_info) from_end none
          (sub_back s.sub_streams_info) (read_sub_streams_section s.unpack_info)
          (λ e. omega (arith, e)) (sub_reads s.unpack_info s.sub_streams_info from_end h.sub_fits)
          (sub_absent s.sub_streams_info)

pub read_streams_info-write_streams_info :
    (grant : Grant) (s : StreamsInfo) (rest : Bytes)
    → FillsBuffer grant
    → IsStreamsInfo s
    → read_streams_info grant (write_streams_info s ++ rest) ≡ ok (read_back s, rest)
unfolding read_streams_info finish
read_streams_info-write_streams_info grant s rest fills h = rw (written_sections s rest) (
    simp (
      read_byte-Avoids PropertyId.dummy (from_pack s rest) (pack-Avoids s rest),
      pack_part s rest grant fills h,
      unpack_part s rest grant fills h,
      sub_part s rest grant fills h,
    ))
