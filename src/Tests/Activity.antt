-- ===== src/Tests/Activity.antt =====
-- The sidecar of vtr-rs/src/activity: a build that is cancelled, a scan, and a file of two signals.
use vtr.Prelude.{
  elem, leb, ◌&&◌, ℕ, zero, suc, ◌+◌, ◌≡◌, refl, Bool, true, false, Option, none, some, List, [],
  ◌∷◌, ◌++◌, map, length, replicate, arith,
}
use vtr.Prelude.Bytes.{to_le, from_le}
use vtr.Error.{ok}
use vtr.Wire.Cursor
use vtr.Wire.Varint.{put_u64, u64, reader}
use vtr.Activity.{Identity, vtr_format}
use vtr.Activity.Control.{
  State, initial, build_cancelled, cancel, complete, check, publish, advance,
}
use vtr.Activity.Control.Runs.{Reach, Step, IsSettled, Reach-IsSettled, cancel_wins}
use vtr.Activity.Scan.{BlockScan, empty_scan, needs_row, last}
use vtr.Activity.Scan.Exact.{IsExact, push_all, push_all-IsExact}
use vtr.Activity.Format.{
  Header, any_set, encode_header, raw_columns, pack, unpack, split_raw, BlockHead,
  encode_block_head, decode_header, decode_block_head, tail_rows,
}
use vtr.Activity.Format.Columns.{column_at, unpack-pack}
use vtr.Activity.Format.RoundTrip.{decode_header-encode_header}
use vtr.Activity.Container.{file_writer, section, finish, payload, parse, header}
use vtr.Activity.Container.Image.{Frame, body_of, write_all}
use vtr.Activity.Container.RoundTrip.{parse-finish}
use vtr.Activity.Container.Output.{
  OutputWriter, sum_lengths, new_writer, write_parts, write_section, finish_output, write_sections,
}
use vtr.Activity.Container.Output.Agree.{finish_output-finish}
use vtr.Activity.Index.{Index, Stretch, classify, classify_range, stretches}
use vtr.Activity.Index.Decode.{decode}
use vtr.Activity.Index.Exact.{any_meets, classify-decode}
use vtr.Tests.Framing.{memory}
use vtr.Tests.Codec.{zeros, zeros-IsLossless}

-- A build that another thread has advanced behind the cancellation.
abbrev cancelled_state : State
cancelled_state = record initial { cancelled = true }

cancel_run : (cancel initial).1 ≡ cancelled_state
unfolding cancel
cancel_run = refl

late_advance : Reach cancelled_state (advance 3 cancelled_state)
late_advance = Reach.onward (Step.advance_step 3 cancelled_state) Reach.stay

first_cancel : Reach initial (advance 3 (cancel initial).1)
first_cancel =
    Reach.onward (Step.cancel_step initial)
      (Reach.onward (Step.advance_step 3 (cancel initial).1) Reach.stay)

Reach-IsSettled_example : IsSettled (advance 3 (cancel initial).1)
Reach-IsSettled_example = Reach-IsSettled (advance 3 (cancel initial).1) first_cancel

cancel_answers : (cancel initial).0 ≡ true
unfolding cancel
cancel_answers = refl

cancel_wins_example :
    (check (advance 3 (cancel initial).1) ≡ build_cancelled)
    × (complete (advance 3 (cancel initial).1) ≡ (build_cancelled, advance 3 (cancel initial).1))
    × (publish {A = ℕ} (ok 7) (advance 3 (cancel initial).1)
        ≡ (build_cancelled, advance 3 (cancel initial).1))
cancel_wins_example =
    cancel_wins initial (advance 3 (cancel initial).1) (ok 7) cancel_answers
      (Reach.onward (Step.advance_step 3 (cancel initial).1) Reach.stay)

abbrev scan : BlockScan
scan = empty_scan (record { start = 5; end = 50; bytes = 100 }) none 5

abbrev times : List ℕ
times = 5 ∷ 7 ∷ 8 ∷ 8 ∷ 12 ∷ []

push_all-IsExact_example : IsExact scan (push_all 2 times scan) 2 times
push_all-IsExact_example =
    push_all-IsExact scan 2 times
      (omega arith, (omega arith, (omega arith, (omega arith, (omega arith, tt)))))
      (unfold last in unfold needs_row in refl)

abbrev no_crc : List ℕ → ℕ
no_crc bytes = 0

abbrev identity : Identity
identity = record { format = vtr_format; length = 300; toc_crc = 9; recording = replicate 16 1 }

abbrev two_signals : Header
two_signals = record { identity = identity; signals = 2; t_min = 0 }

decode_header-encode_header_example : decode_header (encode_header two_signals) ≡ ok two_signals
decode_header-encode_header_example = decode_header-encode_header two_signals (record {
  file_length = omega arith;
  toc_crc = omega arith;
  signals = omega arith;
  t_min = omega arith;
  recording = refl;
})

-- A block from 0 to 100 in which signal 1 changes from 10 to 15, and is open again from 35.
abbrev block_head : BlockHead
block_head = record { start = 0; end = 100; bytes = 30; rows = 1; closed = 1; exponent = 0 }

abbrev block_columns : List (List ℕ)
block_columns = (1 ∷ []) ∷ (3 ∷ []) ∷ (10 ∷ []) ∷ (5 ∷ []) ∷ (20 ∷ []) ∷ (1 ∷ []) ∷ []

abbrev stored_block : List ℕ
stored_block = 0 ∷ 12 ∷ 1 ∷ 1 ∷ 1 ∷ 1 ∷ 1 ∷ 1 ∷ 1 ∷ 3 ∷ 10 ∷ 5 ∷ 20 ∷ 1 ∷ []

pack_run : pack zeros block_columns ≡ ok stored_block
unfolding pack raw_columns put_u64 vtr.Codec.compress_into vtr.Codec.codec_u8
pack_run = refl

raw_columns_run : length (raw_columns block_columns) ≡ 12
unfolding raw_columns put_u64
raw_columns_run = refl

unpack-pack_example :
    (out : List ℕ × List (ℕ × ℕ)) × (unpack 6 zeros stored_block ≡ ok out)
    × (map (column_at out.0) out.1 ≡ block_columns)
unpack-pack_example =
    unpack-pack zeros block_columns stored_block zeros-IsLossless (omega (arith, raw_columns_run))
      pack_run

abbrev frames : List Frame
frames =
    record { kind = 1; parts = encode_header two_signals ∷ []; aux0 = 0; aux1 = 0 }
    ∷ record {
      kind = 2;
      parts = encode_block_head block_head ∷ stored_block ∷ [];
      aux0 = 0;
      aux1 = 100;
    }
    ∷ record {
      kind = 3;
      parts = (1 ∷ replicate 7 0) ∷ (0 ∷ 6 ∷ 1 ∷ 1 ∷ 1 ∷ 1 ∷ 0 ∷ 0 ∷ []) ∷ [];
      aux0 = 0;
      aux1 = 0;
    }
    ∷ []

abbrev file : List ℕ × ℕ
file = finish no_crc (write_all no_crc frames file_writer)

file_size : length file.0 ≡ 406
unfolding finish file_writer section header encode_header encode_block_head to_le
file_size = refl

abbrev index : Index
index = record {
  header = two_signals;
  blocks = record { start = 0; end = 100; bytes = 30; delta = 1 } ∷ [];
  signals =
      []
      ∷ (record { start = 10; end = 15; gap = 1 } ∷ record { start = 35; end = 35; gap = 0 } ∷ [])
      ∷ [];
  generators = [];
}

decode_run : decode zeros no_crc file.0 identity ≡ ok index
unfolding decode finish file_writer section header encode_header encode_block_head to_le parse
    payload decode_header decode_block_head tail_rows unpack any_set split_raw Cursor.u32 Cursor.u64
    Cursor.take Cursor.var Cursor.done Cursor.remaining Cursor.fixed_le from_le u64 reader last
    put_u64 vtr.Prelude.bytes_eq vtr.Codec.raw_len vtr.Codec.decompress_into vtr.Codec.codec_from_u8
    vtr.Codec.decompress_as vtr.Wire.Varint.u8 vtr.Wire.Varint.usize vtr.Activity.Index.section_rows
decode_run = refl

classify-decode_example :
    elem 1 (classify index 0 12) ≡ (leb 0 12 && any_meets 0 12 (stretches index 1))
classify-decode_example = classify-decode zeros no_crc file.0 identity index 1 0 12 decode_run

parse-finish_example :
    (file.1 ≡ length file.0)
    × (parse no_crc file.0 ≡ ok (write_all no_crc frames file_writer).directory)
    × (map (payload no_crc file.0) (write_all no_crc frames file_writer).directory
        ≡ map (λ f. ok (body_of f)) frames)
parse-finish_example =
    parse-finish no_crc (λ bytes. omega arith) frames
      (
        record { kind = omega arith; aux0 = omega arith; aux1 = omega arith },
        (
          record { kind = omega arith; aux0 = omega arith; aux1 = omega arith },
          (record { kind = omega arith; aux0 = omega arith; aux1 = omega arith }, tt),
        ),
      )
      (omega (arith, file_size))

-- The same file, written to memory.
abbrev started : OutputWriter memory no_crc
started = record { output = file_writer.output; position = 32; directory = [] }

abbrev sent : OutputWriter memory no_crc
sent = record {
  output = (write_all no_crc frames file_writer).output;
  position = (write_all no_crc frames file_writer).position;
  directory = (write_all no_crc frames file_writer).directory;
}

started_run : new_writer memory no_crc [] ≡ ok started
unfolding new_writer file_writer
started_run = refl

sent_run : write_sections memory no_crc frames started ≡ ok sent
unfolding write_section sum_lengths write_parts section file_writer encode_header encode_block_head
    to_le
sent_run = refl

finished_run : finish_output memory no_crc sent ≡ ok file
unfolding finish_output finish section file_writer header encode_header encode_block_head to_le
finished_run = refl

finish_output-finish_example :
    (file.0, file.1) ≡ finish no_crc (write_all no_crc frames file_writer)
unfolding finish section file_writer header encode_header encode_block_head to_le
finish_output-finish_example =
    finish_output-finish memory no_crc frames [] file.0 started sent file.1 refl started_run
      sent_run finished_run (omega arith)
