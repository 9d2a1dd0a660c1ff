-- ===== src/Net/Frames/Stream.antt =====
-- The frames that a connection delivers do not depend on how the network cuts the byte stream.
use gameserver_hide.Base.{
  ℕ, zero, suc, ◌+◌, ◌≤◌, ◌<◌, ◌≡◌, refl, none, some, List, [], ◌∷◌, ◌++◌, Text, length, arith,
  Option-cases, inl, inr, length-append, length-drop, get_or-append, drop-append, take-drop-append,
  take-append_left, drop-append_left,
}
use gameserver_hide.Net.Wire.{u16_mod, u32_mod, write_u16, write_u32}
use gameserver_hide.Net.Frames.{Frame, header_size, encode, next_frame, drain}

-- The frame that `encode` writes.
abbrev pub frame_of : ℕ → ℕ → Text → Frame
frame_of type version payload = record {
  header = record { length = length payload; type = type; version = version };
  payload = payload;
}

-- A header and payload that fit the wire: `length` is that of the payload.
pub record FitsFrame (f : Frame) : Type 0 where
  pub sized : f.header.length ≡ length f.payload
  pub short : length f.payload < u32_mod
  pub typed : f.header.type < u16_mod
  pub versioned : f.header.version < u16_mod

abbrev pub encode_frame : Frame → Text
encode_frame f = encode f.header.type f.header.version f.payload

-- nextFrame gives back the frame that encode wrote, and leaves what follows it in the buffer.
pub next_frame-encode :
    (type version : ℕ) (payload rest : Text)
    → type < u16_mod
    → version < u16_mod
    → length payload < u32_mod
    → next_frame (encode type version payload ++ rest) ≡ some (frame_of type version payload, rest)
unfolding next_frame encode write_u16 write_u32
next_frame-encode type version payload rest t v l = ground (
  arith,
  length-append payload rest,
  take-append_left (length payload) payload rest refl,
  drop-append_left (length payload) payload rest refl,
)

next_frame-shrinks :
    (buffer : Text) (f : Frame) (rest : Text)
    → next_frame buffer ≡ some (f, rest)
    → length rest < length buffer
unfolding next_frame
next_frame-shrinks buffer f rest h =
    ground (arith, length-drop (header_size + f.header.length) buffer)

-- A complete frame is found again when more bytes have come in.
next_frame-append :
    (buffer more : Text) (f : Frame) (rest : Text)
    → next_frame buffer ≡ some (f, rest)
    → next_frame (buffer ++ more) ≡ some (f, rest ++ more)
unfolding next_frame
next_frame-append buffer more f rest h = ground (
  arith,
  length-append buffer more,
  get_or-append buffer more 0 0,
  get_or-append buffer more 1 0,
  get_or-append buffer more 2 0,
  get_or-append buffer more 3 0,
  get_or-append buffer more 4 0,
  get_or-append buffer more 5 0,
  get_or-append buffer more 6 0,
  get_or-append buffer more 7 0,
  take-drop-append buffer more header_size f.header.length,
  drop-append buffer more (header_size + f.header.length),
)

-- The rounds of the loop of onRead: the frames taken from the buffer, and what is left in it.
pub data Drains : Text → List Frame → Text → Type 0 where
  done : (buffer : Text) → next_frame buffer ≡ none → Drains buffer [] buffer
  more :
      (buffer : Text) (f : Frame) (rest : Text) {frames : List Frame} {end : Text}
      → next_frame buffer ≡ some (f, rest)
      → Drains rest frames end
      → Drains buffer (f ∷ frames) end

-- The loop ends with that fuel, at a buffer that holds no complete frame.
pub drain-Drains :
    (fuel : ℕ) (buffer : Text)
    → length buffer ≤ fuel
    → Drains buffer (drain fuel buffer).0 (drain fuel buffer).1
unfolding drain
drain-Drains zero [] h = done [] (unfold next_frame in refl)
drain-Drains zero (b ∷ buffer) h = absurd (omega arith)
drain-Drains (suc fuel) buffer h = elim (Option-cases (next_frame buffer)) [
  | inl e ↦ rw (e, drain) (done buffer e)
  | inr (p, e) ↦
      rw (e, drain)
        (more buffer p.0 p.1 e
          (drain-Drains fuel p.1 (let s = next_frame-shrinks buffer p.0 p.1 e in omega arith)))
]

pub Drains-drain :
    {buffer : Text} {frames : List Frame} {end : Text} (fuel : ℕ)
    → Drains buffer frames end
    → length buffer ≤ fuel
    → drain fuel buffer ≡ (frames, end)
unfolding drain
Drains-drain zero (done buffer e) h = refl
Drains-drain (suc fuel) (done buffer e) h = rw (e, drain)
Drains-drain zero (more buffer f rest e d) h =
    absurd (omega (arith, next_frame-shrinks buffer f rest e))
Drains-drain (suc fuel) (more buffer f rest e d) h =
    rw (e, drain) (rw (Drains-drain fuel d (omega (arith, next_frame-shrinks buffer f rest e))))

pub Drains-append :
    {buffer : Text} {frames : List Frame} {end : Text} {frames' : List Frame} {end' : Text}
    (bytes : Text)
    → Drains buffer frames end
    → Drains (end ++ bytes) frames' end'
    → Drains (buffer ++ bytes) (frames ++ frames') end'
Drains-append bytes (done buffer e) d' = d'
Drains-append bytes (more buffer f rest e d) d' =
    more (buffer ++ bytes) f (rest ++ bytes) (next_frame-append buffer bytes f rest e)
      (Drains-append bytes d d')
