-- ===== src/Bcj2/Reader.antt =====
-- The readCloser of internal/bcj2/reader.go around its decoder: Read and Close.
use sevenzip.Bcj2.{Decoder, Outcome, nil, eof, cut, panicked, read_loop}
use sevenzip.Prelude.{
  ℕ, zero, suc, Bool, true, false, ◌&&◌, Option, none, some, List, [], ◌∷◌, ◌++◌, length, take,
  drop, ◌==◌, if◌then◌else◌,
}
use sevenzip.Stream.{Bytes}

-- readCloser: the decoder and what buf holds.
pub record Bcj2Reader : Type 0 where
  pub decoder : Decoder
  pub buf : Bytes

pub record Bcj2Reply : Type 0 where
  pub out : Bytes
  pub reader : Bcj2Reader
  pub status : Outcome

-- `rc.buf.Read(p)`, for a p of `size` bytes.
unfoldable pub read_buffer : ℕ → Bcj2Reader → Bcj2Reply
read_buffer size rc =
    if length rc.buf == 0
    then record { out = []; reader = rc; status = if size == 0 then nil else eof }
    else record {
      out = take size rc.buf;
      reader = record rc { buf = drop size rc.buf };
      status = nil;
    }

-- The part of Read from `err != nil && !errors.Is(err, io.EOF)` on.
unfoldable pub after_read : ℕ → Bcj2Reader → Outcome → Bcj2Reply
after_read size rc nil = read_buffer size rc
after_read size rc eof = read_buffer size rc
after_read size rc cut = record { out = []; reader = rc; status = cut }
after_read size rc panicked = record { out = []; reader = rc; status = panicked }

-- Read into a p of `size` bytes.
unfoldable pub bcj2_read : (full : Bytes → Bool) → ℕ → Bcj2Reader → Bcj2Reply
bcj2_read full size rc =
    let s = read_loop full [] rc.decoder rc.decoder.main in
    after_read size (record { decoder = s.after; buf = rc.buf ++ s.out }) s.outcome

-- Calls of Read with one size until a call does not return nil, with so many allowed. `full` may
-- differ from call to call.
unfoldable pub bcj2_read_all :
    (calls : ℕ) → (full : ℕ → Bytes → Bool) → ℕ → Bcj2Reader → Bytes × Outcome
bcj2_read_all zero full size rc = ([], nil)
bcj2_read_all (suc calls) full size rc =
    let r = bcj2_read (full calls) size rc in
    let rest = bcj2_read_all calls full size r.reader in
    elim r.status [ nil ↦ (r.out ++ rest.0, rest.1) | other ↦ (r.out, other) ]

-- Whether the four readers are there, and Close, where each of them says whether it closes.
pub record Bcj2Handle : Type 0 where
  pub is_open : Bool
  pub inner : Bcj2Reader

pub data Bcj2Error : Type 0 where
  already_closed error_closing : Bcj2Error

abbrev pub all_close : List Bool → Bool
all_close [] = true
all_close (closed ∷ rest) = closed && all_close rest

unfoldable pub close_bcj2 : (closes : List Bool) → Bcj2Handle → Bcj2Handle × Option Bcj2Error
close_bcj2 closes h =
    if h.is_open
    then if all_close closes then (record h { is_open = false }, none) else (h, some error_closing)
    else (h, some already_closed)
