-- ===== src/Wire/Varint/RoundTrip.antt =====
-- The reader against the writer: what was written is read back, and nothing else is accepted.
use vtr.Prelude.{
  ℕ, ◌+◌, ◌<◌, ◌≡◌, refl, sym, ap, ◌∙◌, inl, Option, some, none, List, [], ◌∷◌, ◌++◌, append_assoc,
  length, length-append, get_elem?, drop, drop-append, get_elem?-drop, drop-get_elem?, arith,
}
use vtr.Prelude.Bytes.{AllBytes, IsU64}
use vtr.Error.{Result, ok, >>=-eq-ok}
use vtr.Wire.Varint.{put_u64, Reader, u64_loop, u64_slow, u64, u8, usize, reader}
use vtr.Wire.Varint.Encode.{encoded, put_u64-encoded, encoded_last, encoded_more}
use vtr.Wire.Varint.Decode.{u64_loop-encoded, u64_loop-Accepts}
use native.Mathlib.Decide.{dec_le}

abbrev pub at : List ℕ → ℕ → Reader
at buf pos = record { buf = buf; pos = pos }

u64_slow-encoded :
    (buf : List ℕ) (pos v : ℕ) (rest : List ℕ)
    → IsU64 v
    → drop pos buf ≡ encoded v ++ rest
    → u64_slow (at buf pos) ≡ ok (v, at buf (pos + length (encoded v)))
unfolding u64_slow
u64_slow-encoded buf pos v rest h here =
    rw
      (u64_loop-encoded 10 0 v buf pos 0 0 rest (omega arith) (omega arith) (omega arith)
        (omega arith) (inl refl) here)
      (ap (λ (t : ℕ). ok (t, at buf (pos + length (encoded v)))) (omega arith))

pub u64-encoded :
    (buf : List ℕ) (pos v : ℕ) (rest : List ℕ)
    → IsU64 v
    → drop pos buf ≡ encoded v ++ rest
    → u64 (at buf pos) ≡ ok (v, at buf (pos + length (encoded v)))
unfolding u64
u64-encoded buf pos v rest h here = elim (dec_le 128 v) [
  | yes p ↦
      let e = get_elem?-drop buf pos (rw (encoded_more v p) at here) in
      ground (arith, e, u64_slow-encoded buf pos v rest h here)
  | no p ↦
      let e = get_elem?-drop buf pos (rw (encoded_last v (omega arith)) at here) in
      rw (encoded_last v (omega arith)) (ground (arith, e))
]

-- `u64` reads back a `u64` that `put_u64` appended, whatever stands before and after it, and stops
-- behind it.
pub u64-put_u64 :
    (front : List ℕ) (v : ℕ) (rest : List ℕ)
    → IsU64 v
    → u64 (at (put_u64 front v ++ rest) (length front))
      ≡ ok (v, at (put_u64 front v ++ rest) (length (put_u64 front v)))
u64-put_u64 front v rest h = rw put_u64-encoded (
    u64-encoded ((front ++ encoded v) ++ rest) (length front) v rest h
      (rw append_assoc (drop-append (length front) front (encoded v ++ rest) refl))
    ∙ ap (λ (t : ℕ). ok (v, at ((front ++ encoded v) ++ rest) t))
        (sym (length-append front (encoded v))))

record IsRead (r : Reader) (v : ℕ) (r' : Reader) : Type 0 where
  pub in_range : IsU64 v
  pub same : r'.buf ≡ r.buf
  pub front : drop r.pos r.buf ≡ encoded v ++ drop r'.pos r.buf

u64_slow-IsRead :
    (r : Reader) (v : ℕ) (r' : Reader) → AllBytes r.buf → u64_slow r ≡ ok (v, r') → IsRead r v r'
unfolding u64_slow
u64_slow-IsRead r v r' bs run =
    let ((v0, p), loop, e) = >>=-eq-ok (u64_loop 10 r.buf r.pos 0 0) _ run in
    let (w, acc) =
      u64_loop-Accepts 10 0 r.buf r.pos 0 0 v0 p bs (omega arith) (omega arith) (omega arith)
        loop in
    let value : w ≡ v = ground (arith, acc.meaning) in
    record {
      in_range = ground (arith, acc.in_range);
      same = cc;
      front = rw (← value, (let q : r'.pos ≡ p = cc in q)) acc.front;
    }

u64_fast-IsRead :
    (r : Reader) (b v : ℕ) (r' : Reader)
    → get_elem? r.buf r.pos ≡ some b
    → b < 128
    → ◌≡◌ {A = Result (ℕ × Reader)} (ok (b, record r { pos = r.pos + 1 })) (ok (v, r'))
    → IsRead r v r'
u64_fast-IsRead r b v r' here h run =
    let value : b ≡ v = cc in
    let place : r'.pos ≡ r.pos + 1 = cc in
    record {
      in_range = omega arith;
      same = cc;
      front = rw (← value, place, encoded_last b h) (drop-get_elem? r.buf r.pos here);
    }

u64-IsRead :
    (r : Reader) (v : ℕ) (r' : Reader) → AllBytes r.buf → u64 r ≡ ok (v, r') → IsRead r v r'
unfolding u64
u64-IsRead r v r' bs run = go (get_elem? r.buf r.pos) refl
  where
    go : (b : Option ℕ) → get_elem? r.buf r.pos ≡ b → IsRead r v r'
    go none e = u64_slow-IsRead r v r' bs (ground arith)
    go (some b) e = elim (dec_le 128 b) [
      | yes p ↦ u64_slow-IsRead r v r' bs (ground arith)
      | no p ↦ u64_fast-IsRead r b v r' e (omega arith) (ground arith)
    ]

-- `u64` accepts only what `put_u64` writes: the bytes that it takes are those of its value, in the
-- one form that `put_u64` gives them, and the value is a `u64`.
pub u64_canonical :
    (r : Reader) (v : ℕ) (r' : Reader)
    → AllBytes r.buf
    → u64 r ≡ ok (v, r')
    → IsU64 v × (r'.buf ≡ r.buf) × (drop r.pos r.buf ≡ put_u64 [] v ++ drop r'.pos r'.buf)
u64_canonical r v r' bs run =
    let read = u64-IsRead r v r' bs run in (read.in_range, read.same, rw read.same read.front)

pub u8-cons : (b : ℕ) (rest : List ℕ) → u8 (reader (b ∷ rest)) ≡ ok (b, at (b ∷ rest) 1)
unfolding u8 reader
u8-cons b rest = refl

pub usize-encoded :
    (buf : List ℕ) (pos v : ℕ) (rest : List ℕ)
    → IsU64 v
    → drop pos buf ≡ encoded v ++ rest
    → usize (at buf pos) ≡ ok (v, at buf (pos + length (encoded v)))
unfolding usize
usize-encoded = u64-encoded
