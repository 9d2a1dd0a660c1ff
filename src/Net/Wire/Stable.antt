-- ===== src/Net/Wire/Stable.antt =====
-- A reader of src/net/protocol.cpp that has returned does not depend on the bytes behind it.
use gameserver_hide.Base.{
  ℕ, zero, suc, ◌+◌, ◌≤◌, ◌≡◌, refl, some, [], ◌∷◌, ◌++◌, Text, length, length-append,
  get_or-append, take-drop-append, arith, Option-cases, inl, inr,
}
use gameserver_hide.Net.Wire.{
  Reader, ◌>>=◌, pure, read_flag, read_u16, read_u32, read_u64, shift_in, read_span, read_string,
  read_times, read_list,
}

pub record IsStable {ℓ} {A : Type ℓ} (r : Reader A) : Type ℓ where
  pub at :
      (payload more : Text) (offset : ℕ) (v : A) (offset' : ℕ)
      → r payload offset ≡ some (v, offset')
      → r (payload ++ more) offset ≡ some (v, offset')

pub IsStable-pure {ℓ} : {A : Type ℓ} (a : A) → IsStable (pure a)
unfolding pure
IsStable-pure a = record { at = λ payload more offset v offset' h. h }

pub IsStable-bind {ℓ κ} :
    {A : Type ℓ} {B : Type κ} (m : Reader A) (f : A → Reader B)
    → IsStable m
    → ((a : A) → IsStable (f a))
    → IsStable (m >>= f)
unfolding ◌>>=◌
IsStable-bind m f sm sf = record {
  at = λ payload more offset v offset' h. elim (Option-cases (m payload offset)) [
    | inl e ↦ cc (rw (e, ◌>>=◌) at h)
    | inr (p, e) ↦
        rw (sm.at payload more offset p.0 p.1 e, ◌>>=◌)
          ((sf p.0).at payload more p.1 v offset' (rw (e, ◌>>=◌) at h))
  ];
}

pub IsStable-flag : IsStable read_flag
unfolding read_flag
IsStable-flag = record {
  at = λ payload more offset v offset' h.
      ground (arith, length-append payload more, get_or-append payload more offset 0);
}

pub IsStable-u16 : IsStable read_u16
unfolding read_u16
IsStable-u16 = record {
  at = λ payload more offset v offset' h. ground (
    arith,
    length-append payload more,
    get_or-append payload more offset 0,
    get_or-append payload more (offset + 1) 0,
  );
}

pub IsStable-u32 : IsStable read_u32
unfolding read_u32
IsStable-u32 = record {
  at = λ payload more offset v offset' h. ground (
    arith,
    length-append payload more,
    get_or-append payload more offset 0,
    get_or-append payload more (offset + 1) 0,
    get_or-append payload more (offset + 2) 0,
    get_or-append payload more (offset + 3) 0,
  );
}

shift_in-append :
    (n : ℕ) (xs ys : Text) (offset out : ℕ)
    → offset + n ≤ length xs
    → shift_in n (xs ++ ys) offset out ≡ shift_in n xs offset out
unfolding shift_in
shift_in-append zero xs ys offset out h = refl
shift_in-append (suc n) xs ys offset out h =
    rw (get_or-append xs ys offset 0 (omega arith))
      (shift_in-append n xs ys (offset + 1) _ (omega arith))

pub IsStable-u64 : IsStable read_u64
unfolding read_u64
IsStable-u64 = record {
  at = λ payload more offset v offset' h.
      ground (arith, length-append payload more, shift_in-append 8 payload more offset 0);
}

IsStable-span : (size : ℕ) → IsStable (read_span size)
unfolding read_span
IsStable-span size = record {
  at = λ payload more offset v offset' h.
      ground (arith, length-append payload more, take-drop-append payload more offset size);
}

pub IsStable-string : IsStable read_string
unfolding read_string
IsStable-string = IsStable-bind read_u16 read_span IsStable-u16 IsStable-span

module _ {ℓ} {A : Type ℓ} (item : Reader A) (stable : IsStable item) where
  IsStable-times : (n : ℕ) → IsStable (read_times item n)
  unfolding read_times
  IsStable-times zero = IsStable-pure []
  IsStable-times (suc n) =
      IsStable-bind _ _ stable
        (λ x. IsStable-bind _ _ (IsStable-times n) (λ xs. IsStable-pure (x ∷ xs)))

  pub IsStable-list : IsStable (read_list item)
  unfolding read_list
  IsStable-list = IsStable-bind read_u16 (read_times item) IsStable-u16 IsStable-times
