-- ===== src/Net/Wire/Reads.antt =====
-- What a reader of src/net/protocol.cpp finds: one rule for each reader, and a rule for a sequence.
use gameserver_hide.Base.{
  ℕ, ◌+◌, ◌%◌, ◌≤◌, ◌<◌, min, ◌≡◌, refl, sym, ap, ◌∙◌, Bool, some, List, [], ◌∷◌, ◌++◌, Text, All,
  length, take, drop, get_or, get_or-drop, drop-drop, length-append, take-append_left,
  drop-append_left, take_all, arith,
}
use mathlib.Core.List.{append-nil, append_assoc}
use gameserver_hide.Net.Wire.{
  Reader, ◌>>=◌, pure, read_flag, read_u16, read_u32, read_u64, shift_in, write_flag, write_u16,
  write_u32, write_u64, read_span, read_string, write_string, read_times, write_each, read_list,
  write_list, u16_mod, u32_mod, u64_mod, u16_max,
}

-- Behind `offset` the payload holds `rest`.
pub record At (payload : Text) (offset : ℕ) (rest : Text) : Type 0 where
  pub total : length payload ≡ offset + length rest
  pub here : drop offset payload ≡ rest

pub At-start : (payload : Text) → At payload 0 payload
At-start payload = record { total = omega arith; here = refl }

At-byte :
    (payload : Text) (offset : ℕ) (rest : Text) (i j : ℕ)
    → At payload offset rest
    → offset + i ≡ j
    → get_or payload j 0 ≡ get_or rest i 0
At-byte payload offset rest i j h e =
    sym (get_or-drop payload offset i j 0 e) ∙ ap (λ xs. get_or xs i 0) h.here

At-step :
    (payload : Text) (offset : ℕ) (w rest : Text)
    → At payload offset (w ++ rest)
    → At payload (offset + length w) rest
At-step payload offset w rest h = record {
  total = omega (arith, h.total, length-append w rest);
  here =
      sym (drop-drop payload offset (length w) (offset + length w) refl)
      ∙ ap (drop (length w)) h.here
      ∙ drop-append_left (length w) w rest refl;
}

-- Where the payload goes on with the bytes `w`, the reader returns `v` and moves behind them.
pub record Parses {ℓ} {A : Type ℓ} (r : Reader A) (w : Text) (v : A) : Type ℓ where
  pub at :
      (payload : Text) (offset : ℕ) (rest : Text)
      → At payload offset (w ++ rest)
      → r payload offset ≡ some (v, offset + length w)

pub Parses-pure {ℓ} : {A : Type ℓ} (a : A) → Parses (pure a) [] a
unfolding pure
Parses-pure a = record { at = λ payload offset rest h. ap (λ o. some (a, o)) (omega arith) }

pub Parses-bind {ℓ κ} :
    {A : Type ℓ} {B : Type κ} {m : Reader A} (f : A → Reader B) {w v : Text} {a : A} {b : B}
    → Parses m w a
    → Parses (f a) v b
    → Parses (m >>= f) (w ++ v) b
unfolding ◌>>=◌
Parses-bind f {w} {v} {a} {b} pm pf = record {
  at = λ payload offset rest h.
      let h' = subst-assoc payload offset rest h in
      rw (pm.at payload offset (v ++ rest) h', ◌>>=◌)
        (pf.at payload (offset + length w) rest (At-step payload offset w (v ++ rest) h')
          ∙ ap (λ o. some (b, o)) (omega (arith, length-append w v)));
}
  where
    subst-assoc :
        (payload : Text) (offset : ℕ) (rest : Text)
        → At payload offset ((w ++ v) ++ rest)
        → At payload offset (w ++ (v ++ rest))
    subst-assoc payload offset rest h = rw append_assoc at h

pub Parses-flag : (b : Bool) → Parses read_flag (write_flag b) b
unfolding read_flag write_flag
Parses-flag b = record {
  at = λ payload offset rest h.
      ground (arith, h.total, At-byte payload offset (write_flag b ++ rest) 0 offset h);
}

pub Parses-u16 : (v : ℕ) → v < u16_mod → Parses read_u16 (write_u16 v) v
unfolding read_u16 write_u16
Parses-u16 v small = record {
  at = λ payload offset rest h. ground (
    arith,
    h.total,
    At-byte payload offset (write_u16 v ++ rest) 0 offset h,
    At-byte payload offset (write_u16 v ++ rest) 1 (offset + 1) h,
  );
}

pub Parses-u32 : (v : ℕ) → v < u32_mod → Parses read_u32 (write_u32 v) v
unfolding read_u32 write_u32
Parses-u32 v small = record {
  at = λ payload offset rest h. ground (
    arith,
    h.total,
    At-byte payload offset (write_u32 v ++ rest) 0 offset h,
    At-byte payload offset (write_u32 v ++ rest) 1 (offset + 1) h,
    At-byte payload offset (write_u32 v ++ rest) 2 (offset + 2) h,
    At-byte payload offset (write_u32 v ++ rest) 3 (offset + 3) h,
  );
}

-- The loop of read_u64 over eight bytes that write_u64 wrote.
shift_in-u64 :
    (v : ℕ) (payload : Text) (offset : ℕ) (rest : Text)
    → v < u64_mod
    → At payload offset (write_u64 v ++ rest)
    → shift_in 8 payload offset 0 ≡ v
unfolding shift_in write_u64
shift_in-u64 v payload offset rest small h = ground (
  arith,
  At-byte payload offset (write_u64 v ++ rest) 0 offset h,
  At-byte payload offset (write_u64 v ++ rest) 1 (offset + 1) h,
  At-byte payload offset (write_u64 v ++ rest) 2 (offset + 1 + 1) h,
  At-byte payload offset (write_u64 v ++ rest) 3 (offset + 1 + 1 + 1) h,
  At-byte payload offset (write_u64 v ++ rest) 4 (offset + 1 + 1 + 1 + 1) h,
  At-byte payload offset (write_u64 v ++ rest) 5 (offset + 1 + 1 + 1 + 1 + 1) h,
  At-byte payload offset (write_u64 v ++ rest) 6 (offset + 1 + 1 + 1 + 1 + 1 + 1) h,
  At-byte payload offset (write_u64 v ++ rest) 7 (offset + 1 + 1 + 1 + 1 + 1 + 1 + 1) h,
)

pub length-write_u64 : (v : ℕ) → length (write_u64 v) ≡ 8
unfolding write_u64
length-write_u64 v = refl

pub Parses-u64 : (v : ℕ) → v < u64_mod → Parses read_u64 (write_u64 v) v
unfolding read_u64
Parses-u64 v small = record {
  at = λ payload offset rest h. ground (
    arith,
    h.total,
    length-append (write_u64 v) rest,
    length-write_u64 v,
    shift_in-u64 v payload offset rest small h,
  );
}

-- Texts of up to 65535 bytes survive; write_string cuts longer ones.
Parses-span : (size : ℕ) (w : Text) → length w ≡ size → Parses (read_span size) w w
unfolding read_span
Parses-span size w e = record {
  at = λ payload offset rest h.
      ground (
        arith,
        h.total,
        length-append w rest,
        ap (take size) h.here,
        take-append_left size w rest e,
      );
}

pub Parses-string : (w : Text) → length w ≤ u16_max → Parses read_string (write_string w) w
unfolding read_string write_string
Parses-string w short =
    let size : min (length w) u16_max ≡ length w = omega arith in
    let wrapped : length w % u16_mod ≡ length w = omega arith in
    rw (size, wrapped, take_all (length w) w (omega arith))
      (Parses-bind _ (Parses-u16 (length w) (omega arith)) (Parses-span (length w) w refl))

module _ {ℓ} {A : Type ℓ} (item : Reader A) (write : A → Text) (P : A → Type 0) where
  Parses-times :
      ((a : A) → P a → Parses item (write a) a)
      → (xs : List A) → All P xs
      → Parses (read_times item (length xs)) (write_each write xs) xs
  unfolding read_times write_each
  Parses-times one [] h = Parses-pure []
  Parses-times one (x ∷ xs) h =
      rw (sym (append-nil (write_each write xs)))
        (Parses-bind _ (one x h.0) (Parses-bind _ (Parses-times one xs h.1) (Parses-pure (x ∷ xs))))

  -- A list of up to 65535 elements, each of which survives.
  pub Parses-list :
      ((a : A) → P a → Parses item (write a) a)
      → (xs : List A) → length xs ≤ u16_max
      → All P xs
      → Parses (read_list item) (write_list write xs) xs
  unfolding read_list write_list
  Parses-list one xs short h =
      let size : min (length xs) u16_max ≡ length xs = omega arith in
      let wrapped : length xs % u16_mod ≡ length xs = omega arith in
      rw (size, wrapped, take_all (length xs) xs (omega arith))
        (Parses-bind _ (Parses-u16 (length xs) (omega arith)) (Parses-times one xs h))
