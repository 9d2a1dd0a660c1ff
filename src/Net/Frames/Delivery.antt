-- ===== src/Net/Frames/Delivery.antt =====
-- src/net/io_layer.cpp, onRead: what a connection delivers over several reads.
use gameserver_hide.Base.{
  ℕ, ◌≡◌, refl, ap, ◌∙◌, true, none, some, List, [], ◌∷◌, ◌++◌, map, Text, All, length, arith,
  if◌then◌else◌,
}
use mathlib.Core.List.{append-nil, append_assoc, map-append}
use gameserver_hide.Base.Map.{find, put, find-put}
use gameserver_hide.Net.Wire.{emit}
use gameserver_hide.Net.Frames.{Frame, PacketPipeline, next_frame, drain, on_read, on_reads}
use gameserver_hide.Net.Frames.Stream.{
  Drains, done, more, drain-Drains, Drains-drain, Drains-append, FitsFrame, encode_frame,
  next_frame-encode,
}

-- The calls of the dispatch function that `frames` cause.
abbrev pub calls : PacketPipeline → ℕ → List Frame → List (ℕ × Frame)
calls p id frames = if p.dispatch then map (λ frame. (id, frame)) frames else []

-- What the loop leaves holds no complete frame.
Drains-end :
    {buffer : Text} {frames : List Frame} {end : Text}
    → Drains buffer frames end
    → next_frame end ≡ none
Drains-end (done buffer e) = e
Drains-end (more buffer f rest e d) = Drains-end d

abbrev whole : Text → List Text → Text
whole buffer chunks = buffer ++ emit chunks

abbrev drained : Text → List Frame × Text
drained bytes = drain (length bytes) bytes

calls-append :
    (p : PacketPipeline) (id : ℕ) (xs ys : List Frame)
    → calls p id xs ++ calls p id ys ≡ calls p id (xs ++ ys)
calls-append p id xs ys = ground (arith, map-append {B = ℕ × Frame} (λ f. (id, f)) xs ys)

on_read-state :
    (id : ℕ) (chunk : Text) (p : PacketPipeline) (buffer : Text)
    → find id p.decoders ≡ some buffer
    → on_read id chunk p ≡ (
      record p { decoders = put id (drained (buffer ++ chunk)).1 p.decoders },
      calls p id (drained (buffer ++ chunk)).0,
    )
unfolding on_read
on_read-state id chunk p buffer e = rw (e, on_read)

-- Reading the two parts one after the other takes the frames that reading them at once does.
drained-append :
    (bytes tail : Text)
    → drained (bytes ++ tail) ≡ (
      (drained bytes).0 ++ (drained ((drained bytes).1 ++ tail)).0,
      (drained ((drained bytes).1 ++ tail)).1,
    )
drained-append bytes tail =
    Drains-drain _
      (Drains-append tail (drain-Drains _ bytes (omega arith)) (drain-Drains _ _ (omega arith)))
      (omega arith)

-- However a connection's bytes are cut into reads, the dispatched frames and the bytes that stay
-- in the decoder are those of one read of all bytes.
pub on_reads-drain :
    (id : ℕ) (chunks : List Text) (p : PacketPipeline) (buffer : Text)
    → find id p.decoders ≡ some buffer
    → next_frame buffer ≡ none
    → ((on_reads id chunks p).1
        ≡ calls p id (drain (length (buffer ++ emit chunks)) (buffer ++ emit chunks)).0)
      × (find id (on_reads id chunks p).0.decoders
          ≡ some (drain (length (buffer ++ emit chunks)) (buffer ++ emit chunks)).1)
unfolding on_reads
on_reads-drain id [] p buffer e idle =
    let d : drain (length buffer) buffer ≡ ([], buffer) =
      Drains-drain _ (done buffer idle) (omega arith) in
    rw (append-nil, d) (ground arith, e)
on_reads-drain id (chunk ∷ chunks) p buffer e idle =
    let mid = drained (buffer ++ chunk) in
    let p' : PacketPipeline = record p { decoders = put id mid.1 p.decoders } in
    let rest =
      on_reads-drain id chunks p' mid.1 (find-put id id mid.1 p.decoders ∙ ground arith)
        (Drains-end (drain-Drains _ (buffer ++ chunk) (omega arith))) in
    rw
      (
        on_read-state id chunk p buffer e,
        ← append_assoc,
        drained-append (buffer ++ chunk) (emit chunks),
      )
      (ap (λ xs. calls p id mid.0 ++ xs) rest.0 ∙ calls-append p id _ _, rest.1)

-- The bytes that encode writes for the frames.
abbrev pub stream : List Frame → Text
stream frames = emit (map encode_frame frames)

Drains-stream : (frames : List Frame) → All FitsFrame frames → Drains (stream frames) frames []
Drains-stream [] h = done [] (unfold next_frame in refl)
Drains-stream (f ∷ frames) h =
    more (stream (f ∷ frames)) f (stream frames) first (Drains-stream frames h.1)
  where
    first : next_frame (encode_frame f ++ stream frames) ≡ some (f, stream frames)
    first = ground (
      arith,
      next_frame-encode f.header.type f.header.version f.payload (stream frames) h.0.typed
          h.0.versioned h.0.short,
      h.0.sized,
    )

-- Frames that fit the wire, encoded one behind the other and cut into reads in any way, reach the
-- dispatch function in order and whole, and nothing stays in the decoder. The connection is
-- registered with an empty decoder, and a dispatch function is set.
pub on_reads-stream :
    (id : ℕ) (frames : List Frame) (chunks : List Text) (p : PacketPipeline)
    → All FitsFrame frames
    → emit chunks ≡ stream frames
    → find id p.decoders ≡ some []
    → p.dispatch ≡ true
    → ((on_reads id chunks p).1 ≡ map (λ frame. (id, frame)) frames)
      × (find id (on_reads id chunks p).0.decoders ≡ some [])
on_reads-stream id frames chunks p fits cut registered set =
    let d : drain (length (stream frames)) (stream frames) ≡ (frames, []) =
      Drains-drain _ (Drains-stream frames fits) (omega arith) in
    let r = on_reads-drain id chunks p [] registered (unfold next_frame in refl) in
    let r' = rw (cut, d) at r in (r'.0 ∙ rw set, r'.1)
