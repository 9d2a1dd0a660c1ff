-- ===== src/Net/Tests.antt =====
-- A stream of two frames in three reads, and a packet, through src/net.
use gameserver_hide.Base.{◌≡◌, refl, true, some, List, [], ◌∷◌, ◌++◌, map, Text, length, arith}
use gameserver_hide.Base.Map.{find}
use gameserver_hide.Net.Wire.{emit, write_u16, write_u32}
use gameserver_hide.Net.Wire.Exact.{IsExact}
use gameserver_hide.Net.Auth
use gameserver_hide.Net.Frames.{Frame, PacketPipeline, encode, next_frame, drain, on_reads}
use gameserver_hide.Net.Frames.Stream.{frame_of, FitsFrame}
use gameserver_hide.Net.Frames.Delivery.{calls, on_reads-drain, on_reads-stream}
use gameserver_hide.Net.Protocol.Packet.{
  Packet, packet_type, encode_packet, decode_packet, login_req,
}
use gameserver_hide.Net.Security.{unwrap_secure_payload, wrap_secure_payload, verify_signature}
use gameserver_hide.Net.Security.Envelope.{header_of, unwrap-wrap_secure_payload}
use gameserver_hide.Net.Protocol.Packet.Roundtrip.{packet-IsExact}

abbrev frames : List Frame
frames = frame_of 400 1 (1 ∷ 2 ∷ []) ∷ frame_of 7 2 [] ∷ []

-- The reads end inside the header of the first frame and between the frames.
abbrev chunks : List Text
chunks =
    (0 ∷ 0 ∷ 0 ∷ [])
    ∷ (2 ∷ 1 ∷ 144 ∷ 0 ∷ 1 ∷ 1 ∷ 2 ∷ [])
    ∷ (0 ∷ 0 ∷ 0 ∷ 0 ∷ 0 ∷ 7 ∷ 0 ∷ 2 ∷ [])
    ∷ []

abbrev pipeline : PacketPipeline
pipeline = record { dispatch = true; decoders = (3, []) ∷ [] }

abbrev login : Packet
login = login_req (record { user_id = 97 ∷ 98 ∷ []; password = 1 ∷ [] })

on_reads-stream_example :
    ((on_reads 3 chunks pipeline).1 ≡ map (λ frame. (3, frame)) frames)
    × (find 3 (on_reads 3 chunks pipeline).0.decoders ≡ some [])
unfolding find encode write_u16 write_u32
on_reads-stream_example =
    on_reads-stream 3 frames chunks pipeline (fits_first, (fits_second, tt)) refl refl refl
  where
    fits_first : FitsFrame (frame_of 400 1 (1 ∷ 2 ∷ []))
    fits_first = record {
      sized = refl;
      short = ground arith;
      typed = ground arith;
      versioned = ground arith;
    }

    fits_second : FitsFrame (frame_of 7 2 [])
    fits_second = record {
      sized = refl;
      short = ground arith;
      typed = ground arith;
      versioned = ground arith;
    }

-- The first three bytes of a header, which the decoder holds when the reads begin.
abbrev held : Text
held = 0 ∷ 0 ∷ 0 ∷ []

abbrev holding : PacketPipeline
holding = record { dispatch = true; decoders = (3, held) ∷ [] }

abbrev reads : List Text
reads = (2 ∷ 1 ∷ 144 ∷ []) ∷ (0 ∷ 1 ∷ 1 ∷ 2 ∷ 9 ∷ []) ∷ []

on_reads-drain_example :
    ((on_reads 3 reads holding).1
      ≡ calls holding 3 (drain (length (held ++ emit reads)) (held ++ emit reads)).0)
    × (find 3 (on_reads 3 reads holding).0.decoders
        ≡ some (drain (length (held ++ emit reads)) (held ++ emit reads)).1)
unfolding find next_frame
on_reads-drain_example = on_reads-drain 3 reads holding held refl refl

packet-IsExact_example : IsExact (decode_packet (packet_type login)) (encode_packet login) login
packet-IsExact_example = packet-IsExact login (ground arith)

unwrap-wrap_secure_payload_example :
    (unwrap_secure_payload (wrap_secure_payload 5 77 (107 ∷ []) (42 ∷ []))
      ≡ some (header_of 5 77 (107 ∷ []) (42 ∷ []), 42 ∷ []))
    × (verify_signature (107 ∷ []) (header_of 5 77 (107 ∷ []) (42 ∷ [])) (42 ∷ []) ≡ true)
unwrap-wrap_secure_payload_example =
    unwrap-wrap_secure_payload 5 77 (107 ∷ []) (42 ∷ []) (omega arith) (omega arith)
