-- ===== src/Net/Frames.antt =====
-- The framing of src/net/codec.h and codec.cpp, and the read path of src/net/io_layer.cpp. A size_t
-- stays below 2^64, so sums of sizes do not wrap; the length field of a header is 32 bits wide.
pub mod Stream
pub mod Delivery
use gameserver_hide.Base.{
  ℕ, zero, suc, ◌+◌, ◌*◌, ◌%◌, ◌^◌, Bool, Option, none, some, List, [], ◌∷◌, ◌++◌, map, Text,
  length, take, drop, get_or, ltb, if◌then◌else◌,
}
use gameserver_hide.Base.Map.{Map, find, put, emplace, erase}
use gameserver_hide.Net.Wire.{u32_mod, write_u16, write_u32}

abbrev pub header_size : ℕ
header_size = 8

pub record FrameHeader : Type 0 where
  pub length : ℕ
  pub type : ℕ
  pub version : ℕ

pub record Frame : Type 0 where
  pub header : FrameHeader
  pub payload : Text

unfoldable pub encode : ℕ → ℕ → Text → Text
encode type version payload =
    write_u32 (length payload % u32_mod) ++ (write_u16 type ++ (write_u16 version ++ payload))

read_u32 : Text → ℕ → ℕ
read_u32 buffer i =
    get_or buffer i 0 * 2 ^ 24
    + get_or buffer (i + 1) 0 * 2 ^ 16
    + get_or buffer (i + 2) 0 * 2 ^ 8
    + get_or buffer (i + 3) 0

read_u16 : Text → ℕ → ℕ
read_u16 buffer i = get_or buffer i 0 * 2 ^ 8 + get_or buffer (i + 1) 0

read_header : Text → FrameHeader
unfolding read_u32 read_u16
read_header buffer = record {
  length = read_u32 buffer 0;
  type = read_u16 buffer 4;
  version = read_u16 buffer 6;
}

-- `none` is a returned `false`, which leaves the buffer; else the frame and the buffer behind it.
unfoldable pub next_frame : Text → Option (Frame × Text)
unfolding read_header
next_frame buffer =
    let header = read_header buffer in
    if ltb (length buffer) header_size
    then none
    else if ltb (length buffer) (header_size + header.length)
    then none
    else some (
      record { header = header; payload = take header.length (drop header_size buffer) },
      drop (header_size + header.length) buffer,
    )

-- while (decoder.nextFrame(header, frame_payload)), with fuel: the frames, and the buffer at the end.
unfoldable pub drain : ℕ → Text → List Frame × Text
drain zero buffer = ([], buffer)
drain (suc fuel) buffer = elim (next_frame buffer) [
  | none ↦ ([], buffer)
  | some (frame, rest) ↦ let (frames, end) = drain fuel rest in (frame ∷ frames, end)
]

-- The dispatch function is an argument of each read; what is kept here is whether there is one.
pub record PacketPipeline : Type 0 where
  pub dispatch : Bool
  pub decoders : Map Text

unfoldable pub register_connection : ℕ → PacketPipeline → PacketPipeline
register_connection id p = record p { decoders = emplace id [] p.decoders }

unfoldable pub remove_connection : ℕ → PacketPipeline → PacketPipeline
remove_connection id p = record p { decoders = erase id p.decoders }

-- The calls of the dispatch function, in order, beside the new state. Each round of the loop takes
-- at least a header from the buffer, so its length is fuel enough.
unfoldable pub on_read : ℕ → Text → PacketPipeline → PacketPipeline × List (ℕ × Frame)
on_read id payload p = elim (find id p.decoders) [
  | none ↦ (p, [])
  | some buffer ↦
      let (frames, rest) = drain (length (buffer ++ payload)) (buffer ++ payload) in
      (
        record p { decoders = put id rest p.decoders },
        if p.dispatch then map (λ frame. (id, frame)) frames else [],
      )
]

-- Several reads on one connection.
unfoldable pub on_reads : ℕ → List Text → PacketPipeline → PacketPipeline × List (ℕ × Frame)
on_reads id [] p = (p, [])
on_reads id (chunk ∷ chunks) p =
    let (p', calls) = on_read id chunk p in
    let (p'', more) = on_reads id chunks p' in (p'', calls ++ more)
