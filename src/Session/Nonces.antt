-- ===== src/Session/Nonces.antt =====
-- The window of nonces of src/net/session.cpp.
use gameserver_hide.Base.{
  ℕ, suc, ◌-◌, ◌≤◌, ◌≡◌, refl, ◌∙◌, not, true, false, List, [], ◌∷◌, ◌++◌, length, drop, arith,
  ◌==◌, ◌||◌, ltb, if◌then◌else◌, Bool-cases, inl, inr,
}
use gameserver_hide.Base.Map.{elem}
use gameserver_hide.Session.{Session, forget, trim, record_nonce}

abbrev pub NoRepeats : List ℕ → Type 0
NoRepeats [] = Unit {0}
NoRepeats (n ∷ ns) = (elem n ns ≡ false) × NoRepeats ns

-- The two collections hold the same nonces, once each, and no more than the limit.
pub record IsWindow {B : Type 0} (s : Session B) : Type 0 where
  pub same : (n : ℕ) → elem n s.nonce_cache ≡ elem n s.nonce_order
  pub once : NoRepeats s.nonce_order
  pub short : length s.nonce_order ≤ s.config.nonce_cache_limit

-- The last `limit` entries.
abbrev pub last_of : ℕ → List ℕ → List ℕ
last_of limit ns = drop (length ns - limit) ns

elem-forget : (m n : ℕ) (ns : List ℕ) → elem m (forget n ns) ≡ (if n == m then false else elem m ns)
unfolding elem forget
elem-forget m n [] = ground arith
elem-forget m n (k ∷ ns) = ground (arith, elem-forget m n ns)

elem_snoc : (m n : ℕ) (ns : List ℕ) → elem m (ns ++ n ∷ []) ≡ (elem m ns || n == m)
unfolding elem
elem_snoc m n [] = ground arith
elem_snoc m n (k ∷ ns) = ground (arith, elem_snoc m n ns)

NoRepeats-snoc : (n : ℕ) (ns : List ℕ) → NoRepeats ns → elem n ns ≡ false → NoRepeats (ns ++ n ∷ [])
unfolding elem
NoRepeats-snoc n [] u h = (refl, tt)
NoRepeats-snoc n (k ∷ ns) u h =
    (ground (arith, elem_snoc k n ns), NoRepeats-snoc n ns u.1 (ground arith))

record Trims (limit : ℕ) (order : List ℕ) (r : List ℕ × List ℕ) : Type 0 where
  kept : r.0 ≡ last_of limit order
  same : (m : ℕ) → elem m r.1 ≡ elem m r.0
  once : NoRepeats r.0
  short : length r.0 ≤ limit

trim-Trims :
    (limit : ℕ) (order cache : List ℕ)
    → NoRepeats order
    → ((m : ℕ) → elem m cache ≡ elem m order)
    → Trims limit order (trim limit order cache)
unfolding elem trim
trim-Trims limit [] cache u e = record {
  kept = ground arith;
  same = e;
  once = tt;
  short = omega arith;
}
trim-Trims limit (k ∷ ns) cache u e = elim (Bool-cases (ltb limit (length (k ∷ ns)))) [
  | inl t ↦
      let r =
        trim-Trims limit ns (forget k cache) u.1
          (λ m. ground (arith, elem-forget m k cache, e m, u.0)) in
      let longer : length (k ∷ ns) - limit ≡ suc (length ns - limit) = ground arith in
      rw (t, trim)
        (record { kept = rw longer r.kept; same = r.same; once = r.once; short = r.short })
  | inr t ↦
      let all : length (k ∷ ns) - limit ≡ 0 = ground arith in
      rw (t, trim) (record { kept = rw all refl; same = e; once = u; short = ground arith })
]

-- In a window, recordNonce accepts exactly the nonces that are not among the last ones that it
-- accepted, as many as the limit; then the nonce is the newest of them, and the window is one again.
pub record_nonce_lem :
    {B : Type 0} (nonce : ℕ) (s : Session B)
    → IsWindow s
    → let t = (record_nonce nonce s).0 in
      ((record_nonce nonce s).1 ≡ not (elem nonce s.nonce_order))
      × (t.nonce_order ≡ (
          if elem nonce s.nonce_order
          then s.nonce_order
          else last_of s.config.nonce_cache_limit (s.nonce_order ++ nonce ∷ [])))
      × IsWindow t
unfolding record_nonce
record_nonce_lem nonce s v = elim (Bool-cases (elem nonce s.nonce_order)) [
  | inl t ↦
      let c : elem nonce s.nonce_cache ≡ true = v.same nonce ∙ t in
      rw (c, t, record_nonce) (refl, refl, v)
  | inr t ↦
      let c : elem nonce s.nonce_cache ≡ false = v.same nonce ∙ t in
      let r =
        trim-Trims s.config.nonce_cache_limit (s.nonce_order ++ nonce ∷ []) (nonce ∷ s.nonce_cache)
          (NoRepeats-snoc nonce s.nonce_order v.once t)
          (λ m. unfold elem in ground (arith, elem_snoc m nonce s.nonce_order, v.same m)) in
      rw (c, t, record_nonce)
        (refl, r.kept, record { same = r.same; once = r.once; short = r.short })
]
