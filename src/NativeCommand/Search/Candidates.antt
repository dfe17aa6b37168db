-- ===== src/NativeCommand/Search/Candidates.antt =====
-- Who is among the candidates of a search, and among those a test leaves.
use fserv.Prelude.{
  ℕ, ◌≡◌, ◌↔◌, refl, ap, Bool, true, false, not, ◌&&◌, Bool-cases, inl, inr, List, [], ◌∷◌, map,
  if◌then◌else◌, arith, ◌==◌,
}
use fserv.Prelude.Bytes.{Bytes}
use fserv.Prelude.Maps.{
  Map, bytes_eq, int_eq, nat_eq, member, same, same_iff, member-add, add-IsSimple, IsSimple,
}
use fserv.Connection.{Connection}
use fserv.NativeCommand.Search.{is_searchable, candidates}

-- The elements that pass the test, in order.
unfoldable pub filter {ℓ} : {A : Type ℓ} → (A → Bool) → List A → List A
filter p [] = []
filter p (x ∷ xs) = let rest = filter p xs in if p x then x ∷ rest else rest

pub and_iff : (a b : Bool) → (a && b ≡ true) ↔ (a ≡ true) × (b ≡ true)
and_iff a b = ground arith

pub member-filter :
    (p : ℕ → Bool) (c : ℕ) (xs : List ℕ) → member c (filter p xs) ≡ (member c xs && p c)
unfolding filter member
member-filter p c [] = refl
member-filter p c (x ∷ xs) = elim (Bool-cases (same x c)) [
  | inl e ↦
      let here : p x ≡ p c = ap p ((same_iff x c).0 e) in
      ground (arith, member-filter p c xs, here, e)
  | inr e ↦ ground (arith, member-filter p c xs, e)
]

pub filter-IsSimple : (p : ℕ → Bool) (xs : List ℕ) → IsSimple xs → IsSimple (filter p xs)
unfolding filter
filter-IsSimple p [] s = tt
filter-IsSimple p (x ∷ xs) s = elim (Bool-cases (p x)) [
  | inl e ↦
      let out : member x (filter p xs) ≡ false = rw (member-filter p x xs) (ground (arith, s.0)) in
      rw e (out, filter-IsSimple p xs s.1)
  | inr e ↦ rw e (filter-IsSimple p xs s.1)
]

-- The connections that a register of names holds.
abbrev pub entries : Map Bytes ℕ → List ℕ
entries registered = map (λ e. e.1) registered

module _ (k : ℕ) (cons : ℕ → Connection) where
  abbrev may_be_found : ℕ → Bool
  may_be_found c = not (c == k) && is_searchable (cons c)

  pub member-candidates :
      (c : ℕ) (m : Map Bytes ℕ)
      → member c (candidates k cons m) ≡ (member c (entries m) && may_be_found c)
  unfolding candidates member
  member-candidates c [] = refl
  member-candidates c ((name, d) ∷ m) = elim (Bool-cases (same d c)) [
    | inl e ↦
        let here : may_be_found d ≡ may_be_found c = ap may_be_found ((same_iff d c).0 e) in
        elim (Bool-cases (may_be_found d)) [
          | inl f ↦ rw f (rw (member-add d c (candidates k cons m)) (ground (arith, e, f, here)))
          | inr f ↦ rw f (rw (member-candidates c m) (ground (arith, e, f, here)))
        ]
    | inr e ↦ elim (Bool-cases (may_be_found d)) [
      | inl f ↦
          rw f (rw (member-add d c (candidates k cons m)) (rw (e, member-candidates c m) refl))
      | inr f ↦ rw f (rw (e, member-candidates c m) refl)
    ]
  ]

  pub candidates-IsSimple : (m : Map Bytes ℕ) → IsSimple (candidates k cons m)
  unfolding candidates
  candidates-IsSimple [] = tt
  candidates-IsSimple ((name, d) ∷ m) = elim (Bool-cases (may_be_found d)) [
    | inl f ↦ rw f (add-IsSimple d (candidates k cons m) (candidates-IsSimple m))
    | inr f ↦ rw f (candidates-IsSimple m)
  ]
