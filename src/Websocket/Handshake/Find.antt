-- ===== src/Websocket/Handshake/Find.antt =====
-- `std::string::find` on a text whose first match is known.
use fserv.Prelude.{
  ℕ, zero, suc, ◌+◌, ◌≤◌, ◌≡◌, ◌≢◌, refl, ap, inl, inr, none, some, [], ◌∷◌, ◌++◌, arith, true,
  false, ◌==◌, length, take, drop, All, Option-cases,
}
use fserv.Prelude.Bytes.{Bytes}
use fserv.Websocket.Handshake.{starts_with, find}

-- No byte of the text is `c`.
abbrev pub IsFree : ℕ → Bytes → Type 0
IsFree c s = All (λ b. c ≢ b) s

-- The first match of two bytes stands where the first of them first stands.
pub find-append :
    (a b : ℕ) (s rest : Bytes)
    → IsFree a s
    → find (a ∷ b ∷ []) (s ++ (a ∷ b ∷ rest)) ≡ some (length s)
unfolding find starts_with
find-append a b [] rest h =
    let x : a == a ≡ true = ground arith in let y : b == b ≡ true = ground arith in rw (x, y)
find-append a b (c ∷ s) rest h =
    let n : a == c ≡ false = ground (arith, h.0) in rw (n, find-append a b s rest h.1)

-- No match without the first byte.
pub find_free : (a : ℕ) (p s : Bytes) → IsFree a s → find (a ∷ p) s ≡ none
unfolding find starts_with
find_free a p [] h = refl
find_free a p (c ∷ s) h =
    let n : a == c ≡ false = ground (arith, h.0) in rw (n, find_free a p s h.1)

starts_with_self : (p : Bytes) → starts_with p p ≡ true
unfolding starts_with
starts_with_self [] = refl
starts_with_self (c ∷ p) = ground (arith, starts_with_self p)

-- A text that ends in `p` has a match.
pub find_suffix : (p s : Bytes) → find p (s ++ p) ≢ none
unfolding find starts_with
find_suffix [] [] = λ e. cc
find_suffix (c ∷ p) [] = let e = starts_with_self (c ∷ p) in rw e (λ h. cc)
find_suffix p (c ∷ s) = elim (Option-cases (find p (s ++ p))) [
  | inl e ↦ absurd (find_suffix p s e)
  | inr (i, e) ↦ rw e (ground arith)
]

starts_with-length : (p s : Bytes) → starts_with p s ≡ true → length p ≤ length s
unfolding starts_with
starts_with-length [] s h = omega arith
starts_with-length (c ∷ p) [] h = cc
starts_with-length (c ∷ p) (d ∷ s) h = ground (arith, starts_with-length p s)

-- A match lies inside the text.
pub find-le : (p s : Bytes) (i : ℕ) → find p s ≡ some i → i + length p ≤ length s
unfolding find
find-le p [] i h = ground (arith, starts_with-length p [])
find-le p (c ∷ s) i h = elim (Option-cases (find p s)) [
  | inl e ↦ ground (arith, starts_with-length p (c ∷ s))
  | inr (j, e) ↦ ground (arith, starts_with-length p (c ∷ s), find-le p s j e)
]

pub take_left : (s t : Bytes) → take (length s) (s ++ t) ≡ s
take_left [] t = refl
take_left (c ∷ s) t = ap (◌∷◌ c) (take_left s t)

pub drop_match : (s t : Bytes) (a b n : ℕ) → n ≡ length s + 2 → drop n (s ++ (a ∷ b ∷ t)) ≡ t
drop_match [] t a b zero e = absurd (omega arith)
drop_match [] t a b (suc zero) e = absurd (omega arith)
drop_match [] t a b (suc (suc n)) e = let z : n ≡ 0 = omega arith in rw z
drop_match (c ∷ s) t a b zero e = absurd (omega arith)
drop_match (c ∷ s) t a b (suc n) e = drop_match s t a b n (omega arith)
