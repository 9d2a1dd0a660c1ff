-- ===== src/Net/Wire/Exact.antt =====
-- What the decoders of src/net/protocol.cpp promise of the bytes that an encoder wrote.
use gameserver_hide.Base.{
  ℕ, ◌<◌, ◌≡◌, ap, ◌∙◌, some, none, Option, [], ◌∷◌, ◌++◌, Text, length, take, drop, length-append,
  length-take, take-append-drop, arith, Option-cases, inl, inr,
}
use mathlib.Core.List.{append-nil}
use mathlib.Core.Option
use gameserver_hide.Net.Wire.{Reader, decode}
use gameserver_hide.Net.Wire.Reads.{At-start, Parses}
use gameserver_hide.Net.Wire.Stable.{IsStable}

-- The decoder `d` reads the bytes `w` as `v`, and accepts neither more bytes nor fewer.
pub record IsExact {ℓ} {A : Type ℓ} (d : Text → Option A) (w : Text) (v : A) : Type ℓ where
  pub accepts : d w ≡ some v
  pub refuses_longer : (b : ℕ) (more : Text) → d (w ++ b ∷ more) ≡ none
  pub refuses_shorter : (n : ℕ) → n < length w → d (take n w) ≡ none

module _ {ℓ} {A : Type ℓ} (r : Reader A) (w : Text) (v : A) (p : Parses r w v) where
  reads_whole : (more : Text) → r (w ++ more) 0 ≡ some (v, length w)
  reads_whole more =
      p.at (w ++ more) 0 more (At-start (w ++ more)) ∙ ap (λ o. some (v, o)) (omega arith)

  decode_self : decode r w ≡ some v
  unfolding decode
  decode_self = let e : r w 0 ≡ some (v, length w) = subst-nil in rw (e, decode) (ground arith)
    where
      subst-nil : r w 0 ≡ some (v, length w)
      subst-nil = rw append-nil at (reads_whole [])

  decode-longer : (b : ℕ) (more : Text) → decode r (w ++ b ∷ more) ≡ none
  unfolding decode
  decode-longer b more =
      rw (reads_whole (b ∷ more), decode) (ground (arith, length-append w (b ∷ more)))

  decode-shorter : IsStable r → (n : ℕ) → n < length w → decode r (take n w) ≡ none
  unfolding decode
  decode-shorter stable n h = elim (Option-cases (r (take n w) 0)) [
    | inl e ↦ rw (e, decode)
    | inr (q, e) ↦ rw (e, decode) (ground (arith, whole q e, length-take n w))
  ]
    where
      whole : (q : A × ℕ) → r (take n w) 0 ≡ some q → q.1 ≡ length w
      whole q e = ground (
        arith,
        rw take-append-drop at (stable.at (take n w) (drop n w) 0 q.0 q.1 e),
        rw append-nil at (reads_whole []),
      )

  pub IsExact-Parses : IsStable r → IsExact (decode r) w v
  IsExact-Parses stable = record {
    accepts = decode_self;
    refuses_longer = decode-longer;
    refuses_shorter = decode-shorter stable;
  }

module _ {ℓ κ} {A : Type ℓ} {B : Type κ} {d : Text → Option A} {w : Text} {v : A} where
  pub IsExact-map :
      (f : A → B) → IsExact d w v → IsExact (λ payload. Option.map f (d payload)) w (f v)
  IsExact-map f h = record {
    accepts = rw h.accepts;
    refuses_longer = λ b more. rw (h.refuses_longer b more);
    refuses_shorter = λ n short. rw (h.refuses_shorter n short);
  }
