-- ===== src/Branch/Reader.antt =====
-- internal/bra/reader.go: the reader that fills a buffer from the reader below, converts what it can,
-- and hands out what is converted. `S` is the state of the converter behind it.
pub mod Whole
pub mod Delivers
use sevenzip.Prelude.{
  ℕ, zero, suc, ◌+◌, ◌-◌, ◌≤◌, ◌<◌, ◌≡◌, Bool, true, false, ◌&&◌, List, [], ◌∷◌, ◌++◌, length, take,
  drop, ltb, leb, ◌==◌, if◌then◌else◌,
}
use sevenzip.Stream.{Bytes}

-- What Convert leaves: the buffer, how many bytes of it are final, and its next state.
pub record Piece {ℓ} (S : Type ℓ) : Type ℓ where
  pub bytes : Bytes
  pub count : ℕ
  pub state : S

-- converter: Size, and Convert for decoding.
pub record Converter {ℓ} (S : Type ℓ) : Type ℓ where
  pub size : ℕ
  pub convert : S → Bytes → Piece S

-- How the reader below ends, and what a call returns: `eof` is io.EOF.
pub data End : Type 0 where
  end_of_file broken : End

pub data ReadStatus : Type 0 where
  nil eof already_closed error_buffering error_closing : ReadStatus

abbrev pub max : ℕ → ℕ → ℕ
max a b = if ltb a b then b else a

abbrev pub min : ℕ → ℕ → ℕ
min a b = if ltb a b then a else b

-- readCloser: whether rc is there, what it still holds, buf, n and the converter's state.
pub record ReadCloser {ℓ} (S : Type ℓ) : Type ℓ where
  pub open_below : Bool
  pub below : Bytes
  pub end : End
  pub buf : Bytes
  pub n : ℕ
  pub state : S

pub record Reply {ℓ} (S : Type ℓ) : Type ℓ where
  pub out : Bytes
  pub reader : ReadCloser S
  pub status : ReadStatus

module _ {ℓ} {S : Type ℓ} where
  -- newReader, of one reader.
  abbrev pub new_reader : S → Bytes → End → ReadCloser S
  new_reader s below end = record {
    open_below = true;
    below = below;
    end = end;
    buf = [];
    n = 0;
    state = s;
  }

  -- Close, where the reader below says whether it closes without an error.
  unfoldable pub close_reader : Bool → ReadCloser S → ReadCloser S × ReadStatus
  close_reader closes rc =
      if rc.open_below
      then if closes then (record rc { open_below = false }, nil) else (rc, error_closing)
      else (rc, already_closed)

  -- From `rc.n += rc.conv.Convert(rc.buf.Bytes()[rc.n:], false)` on.
  unfoldable pub deliver : Converter S → ℕ → ReadCloser S → Reply S
  deliver conv size rc =
      let c = conv.convert rc.state (drop rc.n rc.buf) in
      let buf = take rc.n rc.buf ++ c.bytes in
      let n = rc.n + c.count in
      let m = min n size in
      record {
        out = take m buf;
        reader = record rc { buf = drop m buf; n = n - m; state = c.state };
        status = nil;
      }

  -- Where io.CopyN returns an error: the reader below has ended before the buffer was filled.
  unfoldable pub at_source_end : Converter S → ℕ → End → ReadCloser S → Reply S
  at_source_end conv size broken rc = record { out = []; reader = rc; status = error_buffering }
  at_source_end conv size end_of_file rc =
      let last = if ltb (length rc.buf) conv.size then length rc.buf else rc.n in
      if length rc.buf == 0
      then record { out = []; reader = rc; status = eof }
      else deliver conv size (record rc { n = last })

  -- Read into a buffer of `size` bytes.
  unfoldable pub bra_read : Converter S → ℕ → ReadCloser S → Reply S
  bra_read conv size rc =
      let wanted = max size conv.size - length rc.buf in
      let rc' = record rc { buf = rc.buf ++ take wanted rc.below; below = drop wanted rc.below } in
      if rc.open_below
      then if leb wanted (length rc.below)
        then deliver conv size rc'
        else at_source_end conv size rc.end rc'
      else record { out = []; reader = rc; status = already_closed }

  -- Calls of Read with one size, until a call returns no byte: io.ReadAll with so many calls allowed.
  unfoldable pub bra_read_all : Converter S → ℕ → ℕ → ReadCloser S → Bytes × ReadStatus
  bra_read_all conv size zero rc = ([], nil)
  bra_read_all conv size (suc calls) rc =
      let r = bra_read conv size rc in
      let rest = bra_read_all conv size calls r.reader in
      elim r.status [ nil ↦ (r.out ++ rest.0, rest.1) | other ↦ (r.out, other) ]
